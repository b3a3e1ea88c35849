-- ===== src/EdgeHealth/Threads/Current.antt =====
-- What a goroutine carries between its read of the cache and its commit, against the entry of its
-- gateway.
use backend_assessment.Prelude.{
  ℕ, ◌≡◌, subst, inl, inr, Option, String, List, [], ◌∷◌, ◌++◌, arith, str_eq, eq_iff, Bool-cases,
  All,
}
use backend_assessment.Prelude.Dict.{Dict, lookup, insert, lookup-insert}
use backend_assessment.EdgeHealth.{HealthStatus}
use backend_assessment.EdgeHealth.Checks.{new_status}
use backend_assessment.EdgeHealth.Threads.{Pc, started, fetched, want_commit, in_commit, Thread}
use backend_assessment.EdgeHealth.Threads.Locks.{total}
use backend_assessment.EdgeHealth.Threads.Exclusion.{checks, active}

abbrev pub Cache : Type 0
Cache = Dict HealthStatus

-- A status that a lone check of the gateway could record over this entry.
abbrev pub IsResult : Option HealthStatus → String → ℕ → HealthStatus → Type 0
IsResult entry id last_seen status =
    (checked : ℕ) × (time : ℕ) × (status ≡ new_status entry id last_seen checked time)

-- What a goroutine carries agrees with the entry as it is now.
abbrev pub IsCurrentAt : Option HealthStatus → String → ℕ → Pc → Type 0
IsCurrentAt entry id last_seen (fetched cached) = cached ≡ entry
IsCurrentAt entry id last_seen (want_commit status) = IsResult entry id last_seen status
IsCurrentAt entry id last_seen (in_commit status) = IsResult entry id last_seen status
IsCurrentAt entry id last_seen _ = Unit

abbrev pub IsCurrent : Cache → Thread → Type 0
IsCurrent m t = IsCurrentAt (lookup t.gateway m) t.gateway t.last_seen t.pc

-- A goroutine that is not past the test carries nothing.
pub idle-IsCurrentAt :
    (entry : Option HealthStatus) (id : String) (last_seen : ℕ) (pc : Pc)
    → checks pc ≡ 0
    → IsCurrentAt entry id last_seen pc
idle-IsCurrentAt entry id last_seen started h = tt
idle-IsCurrentAt entry id last_seen (fetched cached) h = absurd (omega arith)
idle-IsCurrentAt entry id last_seen (want_commit status) h = absurd (omega arith)
idle-IsCurrentAt entry id last_seen (in_commit status) h = absurd (omega arith)
idle-IsCurrentAt entry id last_seen _ h = tt

-- A write for another gateway's goroutine, or for one that carries nothing.
pub insert-IsCurrent :
    (k : String) (status : HealthStatus) (m : Cache) (t : Thread)
    → active k t ≡ 0
    → IsCurrent m t
    → IsCurrent (insert k status m) t
insert-IsCurrent k status m t still c = elim (Bool-cases (str_eq t.gateway k)) [
  | inl same ↦ idle-IsCurrentAt _ t.gateway t.last_seen t.pc (rw same at still)
  | inr other ↦
      subst (λ entry. IsCurrentAt entry t.gateway t.last_seen t.pc)
        (ground (arith, lookup-insert k t.gateway status m, eq_iff t.gateway k, eq_iff k t.gateway))
        c
]

pub insert-All :
    (k : String) (status : HealthStatus) (m : Cache) (ts : List Thread)
    → total (active k) ts ≡ 0
    → All (IsCurrent m) ts
    → All (IsCurrent (insert k status m)) ts
insert-All k status m [] still c = tt
insert-All k status m (t ∷ ts) still c =
    (insert-IsCurrent k status m t (omega arith) c.0, insert-All k status m ts (omega arith) c.1)

pub All-split :
    (m : Cache) (xs : List Thread) (t : Thread) (ys : List Thread)
    → All (IsCurrent m) (xs ++ t ∷ ys)
    → All (IsCurrent m) xs × IsCurrent m t × All (IsCurrent m) ys
All-split m [] t ys h = (tt, h.0, h.1)
All-split m (x ∷ xs) t ys h =
    let (before, at, after) = All-split m xs t ys h.1 in ((h.0, before), at, after)
