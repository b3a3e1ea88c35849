-- ===== src/EdgeHealth/Threads/Exclusion.antt =====
-- At most one goroutine is past the pending test for a gateway, because its flag is set for as long.
use backend_assessment.Prelude.{
  ℕ, ◌↔◌, ◌+◌, ◌≤◌, ◌≡◌, refl, ap, true, false, Option, some, String, List, arith, if◌then◌else◌,
  str_eq, eq_iff,
}
use backend_assessment.Prelude.Dict.{lookup-insert, lookup-delete}
use backend_assessment.EdgeHealth.{
  HealthProcessor, HealthStatus, is_pending, mark_pending, commit, clear_pending,
}
use backend_assessment.EdgeHealth.Threads.{
  Pc, started, in_mark, want_read, in_read, want_clear, in_clear, fetched, want_commit, in_commit,
  reporting, Thread, Shared, advance, System, Step, run, Reach, here, next, Row, scan_rows, launch,
}
use backend_assessment.EdgeHealth.Threads.Locks.{total, total-split, total-started}

-- Past the test: the flag was set by this goroutine and not yet cleared.
abbrev pub checks : Pc → ℕ
checks want_read = 1
checks in_read = 1
checks (fetched cached) = 1
checks (want_commit status) = 1
checks (in_commit status) = 1
checks (reporting status) = 1
checks want_clear = 1
checks in_clear = 1
checks _ = 0

abbrev pub active : String → Thread → ℕ
active id t = if str_eq t.gateway id then checks t.pc else 0

abbrev pub flag : HealthProcessor → String → ℕ
flag p id = if is_pending p id then 1 else 0

abbrev pub IsExclusive : System → Type 0
IsExclusive a = (id : String) → total (active id) a.threads ≡ flag a.shared.processor id

is_pending-mark_pending :
    (p : HealthProcessor) (k id : String)
    → is_pending (mark_pending p k) id ≡ (if str_eq k id then true else is_pending p id)
unfolding is_pending mark_pending
is_pending-mark_pending p k id = ground (arith, lookup-insert k id true p.pending_checks)

is_pending-clear_pending :
    (p : HealthProcessor) (k id : String)
    → is_pending (clear_pending p k) id ≡ (if str_eq k id then false else is_pending p id)
unfolding is_pending clear_pending
is_pending-clear_pending p k id = ground (arith, lookup-delete k id p.pending_checks)

is_pending-commit :
    (p : HealthProcessor) (k id : String) (s : HealthStatus)
    → is_pending (commit p k s) id ≡ is_pending p id
unfolding is_pending commit
is_pending-commit p k id s = refl

-- One step keeps the difference between the flag and the goroutine's own activity.
advance-flag :
    (t : Thread) (checked time : ℕ) (s s' : Shared) (pc pc' : Pc) (id : String) (others : ℕ)
    → advance t.gateway t.last_seen checked time pc s ≡ some (s', pc')
    → active id (record t { pc = pc }) + others ≡ flag s.processor id
    → active id (record t { pc = pc' }) + others ≡ flag s'.processor id
unfolding advance
advance-flag t checked time s s' started pc' id o e h = ground arith
advance-flag t checked time s s' in_mark pc' id o e h =
    ground (arith, is_pending-mark_pending s.processor t.gateway id, eq_iff t.gateway id)
advance-flag t checked time s s' (in_commit st) pc' id o e h =
    ground (arith, is_pending-commit s.processor t.gateway id st)
advance-flag t checked time s s' in_clear pc' id o e h =
    ground (arith, is_pending-clear_pending s.processor t.gateway id)
advance-flag t checked time s s' _ pc' id o e h = ground arith

pub Step-IsExclusive : {a b : System} → Step a b → IsExclusive a → IsExclusive b
Step-IsExclusive {a} {b} (run xs ys t checked time s pc split adv es et) v id =
    let others = total (active id) xs + total (active id) ys in
    let t' = record t { pc = pc } in
    let kept : active id t' + others ≡ flag s.processor id =
      advance-flag t checked time a.shared s t.pc pc id others adv
        (omega (arith, v id, total-split (active id) xs t ys a.threads split)) in
    omega
      (arith, kept, total-split (active id) xs t' ys b.threads et, ap (λ x. flag x.processor id) es)

pub Reach-IsExclusive : {a b : System} → IsExclusive a → Reach a b → IsExclusive b
Reach-IsExclusive v here = v
Reach-IsExclusive v (next r st) = Step-IsExclusive st (Reach-IsExclusive v r)

pub launch-IsExclusive :
    (p : HealthProcessor) (rows : List (Option Row))
    → ((id : String) → is_pending p id ≡ false)
    → IsExclusive (launch p rows)
unfolding launch
launch-IsExclusive p rows free id =
    rw (free id) (total-started (active id) (λ g. ground arith) (scan_rows rows))

-- However the goroutines of processHealthChecks interleave, if no gateway was pending before: at
-- every moment at most one goroutine is past the pending test for a gateway, and the gateway is
-- flagged as pending exactly while one is.
pub one_check_at_a_time :
    (p : HealthProcessor) (rows : List (Option Row)) (a : System) (id : String)
    → ((j : String) → is_pending p j ≡ false)
    → Reach (launch p rows) a
    → (total (active id) a.threads ≤ 1)
      × ((total (active id) a.threads ≡ 1) ↔ (is_pending a.shared.processor id ≡ true))
one_check_at_a_time p rows a id free r =
    let kept : total (active id) a.threads ≡ flag a.shared.processor id =
      Reach-IsExclusive (launch-IsExclusive p rows free) r id in
    ground (arith, kept)
