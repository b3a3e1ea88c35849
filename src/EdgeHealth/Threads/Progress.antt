-- ===== src/EdgeHealth/Threads/Progress.antt =====
-- No deadlock: while a goroutine has not returned, some goroutine can go on, and none goes on for
-- ever.
use backend_assessment.Prelude.{
  ℕ, ◌+◌, ◌≤◌, ◌<◌, ◌≡◌, refl, ap, ◌⊎◌, inl, inr, false, Option, none, some, String, List, [], ◌∷◌,
  ◌++◌, arith, Bool-cases, Option-cases, ltb, ◌≢◌, zero, suc,
}
use backend_assessment.EdgeHealth.{HealthProcessor, is_pending}
use backend_assessment.EdgeHealth.Threads.{
  Pc, started, want_mark, in_mark, want_read, in_read, want_clear, in_clear, finished, fetched,
  want_commit, in_commit, reporting, Thread, Shared, advance, System, Step, run, Reach, next, Row,
  launch,
}
use backend_assessment.EdgeHealth.Threads.Locks.{
  total, total-split, writes, reads, writing, reading, IsLocked, launch-Reach-IsLocked,
}
use backend_assessment.EdgeHealth.Threads.Exclusion.{active, Reach-IsExclusive, launch-IsExclusive}

-- The steps that a goroutine has left, at most.
abbrev pub left : Pc → ℕ
left started = 11
left want_mark = 10
left in_mark = 9
left want_read = 8
left in_read = 7
left (fetched cached) = 6
left (want_commit status) = 5
left (in_commit status) = 4
left (reporting status) = 3
left want_clear = 2
left in_clear = 1
left finished = 0

abbrev pub remaining : Thread → ℕ
remaining t = left t.pc

advance-left :
    (t : Thread) (checked time : ℕ) (s s' : Shared) (pc pc' : Pc)
    → advance t.gateway t.last_seen checked time pc s ≡ some (s', pc')
    → left pc' < left pc
unfolding advance
advance-left t checked time s s' started pc' e = ground arith
advance-left t checked time s s' _ pc' e = ground arith

-- Every step brings the goroutines nearer to their ends, so that no schedule of the goroutines is
-- longer than the steps that they have left together.
pub Step-remaining :
    {a b : System} → Step a b → total remaining b.threads < total remaining a.threads
Step-remaining {a} {b} (run xs ys t checked time s pc split adv es et) = omega (
  arith,
  total-split remaining xs t ys a.threads split,
  total-split remaining xs (record t { pc = pc }) ys b.threads et,
  advance-left t checked time a.shared s t.pc pc adv,
)

-- A goroutine that carries some of the weight.
abbrev Carrier : (Thread → ℕ) → List Thread → Type 0
Carrier w ts =
    (xs : List Thread) × (t : Thread) × (ys : List Thread) × (ts ≡ xs ++ t ∷ ys) × (0 < w t)

carrier : (w : Thread → ℕ) (ts : List Thread) → 0 < total w ts → Carrier w ts
carrier w [] h = absurd (omega arith)
carrier w (t ∷ ts) h = elim (Bool-cases (ltb 0 (w t))) [
  | inl here_is ↦ ([], t, ts, refl, ground arith)
  | inr light ↦
      let (xs, u, ys, e, p) = carrier w ts (ground arith) in (t ∷ xs, u, ys, ap (λ l. t ∷ l) e, p)
]

-- A goroutine can go on: it is inside a section, or the lock is free and it has not returned.
abbrev CanAdvance : Shared → Pc → Type 0
CanAdvance s pc = (0 < writes pc + reads pc) ⊎ ((s.writers ≡ 0) × (s.readers ≡ 0) × (0 < left pc))

advance-ne-none :
    (id : String) (last_seen : ℕ) (s : Shared) (pc : Pc)
    → CanAdvance s pc
    → advance id last_seen 0 0 pc s ≢ none
unfolding advance
advance-ne-none id last_seen s started c = ground arith
advance-ne-none id last_seen s _ c = ground arith

-- The goroutine that can go on gives a step of the system.
go_on :
    (w : Thread → ℕ) (a : System)
    → ((t : Thread) → 0 < w t → CanAdvance a.shared t.pc)
    → 0 < total w a.threads
    → (b : System) × Step a b
go_on w a can heavy =
    let (xs, t, ys, split, p) = carrier w a.threads heavy in
    elim (Option-cases (advance t.gateway t.last_seen 0 0 t.pc a.shared)) [
      | inl stuck ↦ absurd (advance-ne-none t.gateway t.last_seen a.shared t.pc (can t p) stuck)
      | inr ((s, pc), adv) ↦ (
        record { shared = s; threads = xs ++ record t { pc = pc } ∷ ys },
        run xs ys t 0 0 s pc split adv refl refl,
      )
    ]

-- Whatever has happened so far, if some goroutine of processHealthChecks has not returned then some
-- goroutine can take a step: the mutex never blocks all of them.
pub no_deadlock :
    (p : HealthProcessor) (rows : List (Option Row)) (a : System)
    → Reach (launch p rows) a
    → 0 < total remaining a.threads
    → (b : System) × Step a b
no_deadlock p rows a r unfinished =
    let l : IsLocked a = launch-Reach-IsLocked p rows a r in
    elim (Bool-cases (ltb 0 a.shared.writers)) [
      | inl written ↦ go_on writing a (λ t h. inl (omega arith)) (ground (arith, l.writers_counted))
      | inr unwritten ↦ elim (Bool-cases (ltb 0 a.shared.readers)) [
        | inl read ↦ go_on reading a (λ t h. inl (omega arith)) (ground (arith, l.readers_counted))
        | inr unread ↦ go_on remaining a (λ t h. inr (ground arith, ground arith, h)) unfinished
      ]
    ]

finishes :
    (n : ℕ) (p : HealthProcessor) (rows : List (Option Row)) (a : System)
    → Reach (launch p rows) a
    → total remaining a.threads ≤ n
    → (b : System) × Reach (launch p rows) b × (total remaining b.threads ≡ 0)
finishes zero p rows a r h = (a, r, omega arith)
finishes (suc n) p rows a r h = elim (Bool-cases (ltb 0 (total remaining a.threads))) [
  | inl unfinished ↦
      let (b, st) = no_deadlock p rows a r (ground arith) in
      finishes n p rows b (next r st) (omega (arith, Step-remaining st))
  | inr done ↦ (a, r, ground arith)
]

active-le : (id : String) (t : Thread) → active id t ≤ remaining t
active-le id t = ground arith

total-active-le : (id : String) (ts : List Thread) → total (active id) ts ≤ total remaining ts
total-active-le id [] = omega arith
total-active-le id (t ∷ ts) = omega (arith, active-le id t, total-active-le id ts)

-- From every state that the goroutines of processHealthChecks reach they can all return, so that
-- wg.Wait returns.
pub wait_returns :
    (p : HealthProcessor) (rows : List (Option Row)) (a : System)
    → Reach (launch p rows) a
    → (b : System) × Reach (launch p rows) b × (total remaining b.threads ≡ 0)
wait_returns p rows a r = finishes (total remaining a.threads) p rows a r (omega arith)

-- When all goroutines of processHealthChecks have returned, in whatever order they ran, no gateway
-- is pending if none was before.
pub flags_cleared :
    (p : HealthProcessor) (rows : List (Option Row)) (a : System) (id : String)
    → ((j : String) → is_pending p j ≡ false)
    → Reach (launch p rows) a
    → total remaining a.threads ≡ 0
    → is_pending a.shared.processor id ≡ false
flags_cleared p rows a id free r done =
    ground
      (arith, total-active-le id a.threads, Reach-IsExclusive (launch-IsExclusive p rows free) r id)
