-- ===== src/Migrate/Sorting.antt =====
-- What the sorting of migrations leaves as it is.
use backend_assessment.Prelude.{Bool, true, false, List, [], ◌∷◌, ℤ, All, if◌then◌else◌}
use backend_assessment.Migrate.{Migration, place, sort_by}

All-chosen :
    (P : Migration → Type 0) (b : Bool) (m n : Migration) (ms placed : List Migration)
    → All P (if b then n ∷ placed else m ∷ n ∷ ms)
    → (All P placed → P m × All P ms)
    → P m × (P n × All P ms)
All-chosen P true m n ms placed (this, others) split =
    let (new, old) = split others in (new, (this, old))
All-chosen P false m n ms placed h split = h

All-place :
    (P : Migration → Type 0) (before : ℤ → ℤ → Bool) (m : Migration) (ms : List Migration)
    → All P (place before m ms)
    → P m × All P ms
unfolding place
All-place P before m [] h = h
All-place P before m (n ∷ ms) h =
    All-chosen P (before n.version m.version) m n ms (place before m ms) h (All-place P before m ms)

pub All-sort_by :
    (P : Migration → Type 0) (before : ℤ → ℤ → Bool) (ms : List Migration)
    → All P (sort_by before ms)
    → All P ms
unfolding sort_by
All-sort_by P before [] h = h
All-sort_by P before (m ∷ ms) h =
    let (first, rest) = All-place P before m (sort_by before ms) h in
    (first, All-sort_by P before ms rest)

-- And the other way round.
chosen-All :
    (P : Migration → Type 0) (b : Bool) (m n : Migration) (ms placed : List Migration)
    → P m
    → P n
    → All P ms
    → All P placed
    → All P (if b then n ∷ placed else m ∷ n ∷ ms)
chosen-All P true m n ms placed this next others into = (next, into)
chosen-All P false m n ms placed this next others into = (this, (next, others))

place-All :
    (P : Migration → Type 0) (before : ℤ → ℤ → Bool) (m : Migration) (ms : List Migration)
    → P m
    → All P ms
    → All P (place before m ms)
unfolding place
place-All P before m [] this h = (this, tt)
place-All P before m (n ∷ ms) this (next, others) =
    chosen-All P (before n.version m.version) m n ms (place before m ms) this next others
      (place-All P before m ms this others)

pub sort_by-All :
    (P : Migration → Type 0) (before : ℤ → ℤ → Bool) (ms : List Migration)
    → All P ms
    → All P (sort_by before ms)
unfolding sort_by
sort_by-All P before [] h = tt
sort_by-All P before (m ∷ ms) (this, others) =
    place-All P before m (sort_by before ms) this (sort_by-All P before ms others)
