-- ===== src/EdgeHealth/Threads/Locks.antt =====
-- Sums over the goroutines, and the mutex: it counts the goroutines inside its sections, and never
-- lets a writer in with anyone else.
use backend_assessment.Prelude.{
  ℕ, ◌+◌, ◌≤◌, ◌<◌, ◌≡◌, refl, ap, Option, some, List, [], ◌∷◌, ◌++◌, map, arith,
}
use backend_assessment.EdgeHealth.{HealthProcessor}
use backend_assessment.EdgeHealth.Threads.{
  Pc, started, in_mark, in_read, in_clear, in_commit, Thread, Shared, advance, System, Step, run,
  Reach, here, next, Row, thread_of, scan_rows, launch,
}

-- The sum of a weight over the goroutines.
abbrev pub total : (Thread → ℕ) → List Thread → ℕ
total w [] = 0
total w (t ∷ ts) = w t + total w ts

pub total-append :
    (w : Thread → ℕ) (xs ys : List Thread) → total w (xs ++ ys) ≡ total w xs + total w ys
total-append w [] ys = omega arith
total-append w (t ∷ xs) ys = omega (arith, total-append w xs ys)

-- The goroutine at work stands out of the sum.
pub total-split :
    (w : Thread → ℕ) (xs : List Thread) (t : Thread) (ys zs : List Thread)
    → zs ≡ xs ++ t ∷ ys
    → total w zs ≡ w t + (total w xs + total w ys)
total-split w xs t ys zs e = omega (arith, ap (total w) e, total-append w xs (t ∷ ys))

-- A goroutine that has just been started weighs nothing.
pub total-started :
    (w : Thread → ℕ)
    → ((g : Row) → w (thread_of g) ≡ 0)
    → (rows : List Row) → total w (map thread_of rows) ≡ 0
total-started w h [] = refl
total-started w h (g ∷ rows) = omega (arith, h g, total-started w h rows)

abbrev pub writes : Pc → ℕ
writes in_mark = 1
writes (in_commit status) = 1
writes in_clear = 1
writes _ = 0

abbrev pub reads : Pc → ℕ
reads in_read = 1
reads _ = 0

abbrev pub writing : Thread → ℕ
writing t = writes t.pc

abbrev pub reading : Thread → ℕ
reading t = reads t.pc

pub record IsLocked (a : System) : Type 0 where
  pub writers_counted : total writing a.threads ≡ a.shared.writers
  pub readers_counted : total reading a.threads ≡ a.shared.readers
  pub one_writer : a.shared.writers ≤ 1
  pub alone : 0 < a.shared.writers → a.shared.readers ≡ 0

launch-IsLocked : (p : HealthProcessor) (rows : List (Option Row)) → IsLocked (launch p rows)
unfolding launch
launch-IsLocked p rows = record {
  writers_counted = total-started writing (λ g. refl) (scan_rows rows);
  readers_counted = total-started reading (λ g. refl) (scan_rows rows);
  one_writer = omega arith;
  alone = λ h. absurd (omega arith);
}

-- One step, with the sums over the other goroutines as numbers.
record Counts (s : Shared) (pc : Pc) (others_writing others_reading : ℕ) : Type 0 where
  writers_are : s.writers ≡ writes pc + others_writing
  readers_are : s.readers ≡ reads pc + others_reading
  one_writer : s.writers ≤ 1
  alone : 0 < s.writers → s.readers ≡ 0

advance-Counts :
    (t : Thread) (checked time : ℕ) (s s' : Shared) (pc pc' : Pc) (w r : ℕ)
    → advance t.gateway t.last_seen checked time pc s ≡ some (s', pc')
    → Counts s pc w r
    → Counts s' pc' w r
unfolding advance
advance-Counts t checked time s s' started pc' w r e c = ground arith
advance-Counts t checked time s s' _ pc' w r e c = ground arith

pub Step-IsLocked : {a b : System} → Step a b → IsLocked a → IsLocked b
Step-IsLocked {a} {b} (run xs ys t checked time s pc split adv es et) l =
    let after : Counts s pc (total writing xs + total writing ys)
        (total reading xs + total reading ys) =
      advance-Counts t checked time a.shared s t.pc pc _ _ adv (record {
        writers_are = omega (arith, total-split writing xs t ys a.threads split);
        readers_are = omega (arith, total-split reading xs t ys a.threads split);
        one_writer = l.one_writer;
        alone = l.alone;
      }) in
    let t' = record t { pc = pc } in
    let ew = ap (λ x. x.writers) es in
    let er = ap (λ x. x.readers) es in
    record {
      writers_counted = omega (arith, total-split writing xs t' ys b.threads et, after, ew);
      readers_counted = omega (arith, total-split reading xs t' ys b.threads et, after, er);
      one_writer = omega (arith, after, ew);
      alone = λ h. omega (arith, after.alone (omega (arith, ew)), er);
    }

pub Reach-IsLocked : {a b : System} → IsLocked a → Reach a b → IsLocked b
Reach-IsLocked l here = l
Reach-IsLocked l (next r st) = Step-IsLocked st (Reach-IsLocked l r)

-- In every interleaving the writers and readers that the mutex counts are the goroutines inside its
-- sections: at most one of them writes, and none reads while one does.
pub launch-Reach-IsLocked :
    (p : HealthProcessor) (rows : List (Option Row)) (a : System)
    → Reach (launch p rows) a
    → IsLocked a
launch-Reach-IsLocked p rows a r = Reach-IsLocked (launch-IsLocked p rows) r
