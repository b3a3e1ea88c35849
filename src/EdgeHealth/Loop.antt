-- ===== src/EdgeHealth/Loop.antt =====
-- The loop of `Start` in applications/edgehealth/processor.go: rounds of processHealthChecks at the
-- ticks, until a stop. `Stop` hands its signal over on an unbuffered channel, so it returns only
-- when the loop waits in its `select`.
use backend_assessment.Prelude.{
  ℕ, zero, suc, ◌≤◌, ◌≡◌, ◌↔◌, refl, sym, subst, true, false, Option, String, List, arith, ltb, inl,
  inr, Bool-cases,
}
use backend_assessment.Prelude.Dict.{lookup}
use backend_assessment.EdgeHealth.{HealthProcessor, new_health_processor, is_pending}
use backend_assessment.EdgeHealth.Threads
use backend_assessment.EdgeHealth.Threads.{System, Row, launch}
use backend_assessment.EdgeHealth.Threads.Locks.{total}
use backend_assessment.EdgeHealth.Threads.Exclusion.{active, one_check_at_a_time}
use backend_assessment.EdgeHealth.Threads.Progress.{
  remaining, Step-remaining, no_deadlock, flags_cleared,
}

-- The loop waits in its `select`, or for the goroutines of a round, or has returned.
pub data State : Type 0 where
  waiting : HealthProcessor → State
  in_round : System → State
  stopped : HealthProcessor → State

pub data Step (s t : State) : Type 0 where
  query_fails : (p : HealthProcessor) → s ≡ waiting p → t ≡ waiting p → Step s t
  tick :
      (p : HealthProcessor) (rows : List (Option Row))
      → s ≡ waiting p
      → t ≡ in_round (launch p rows)
      → Step s t
  work : (a b : System) → s ≡ in_round a → Threads.Step a b → t ≡ in_round b → Step s t
  all_done :
      (a : System)
      → s ≡ in_round a
      → total remaining a.threads ≡ 0
      → t ≡ waiting a.shared.processor
      → Step s t
  stop : (p : HealthProcessor) → s ≡ waiting p → t ≡ stopped p → Step s t

pub data Reach (s : State) : State → Type 0 where
  here : Reach s s
  next : {t u : State} → Reach s t → Step t u → Reach s u

abbrev IsFree : HealthProcessor → Type 0
IsFree p = (id : String) → is_pending p id ≡ false

-- A round began with no flag set.
abbrev Inv : State → Type 0
Inv (waiting p) = IsFree p
Inv (in_round a) =
    (p : HealthProcessor) × (rows : List (Option Row)) × IsFree p × Threads.Reach (launch p rows) a
Inv (stopped p) = IsFree p

Step-Inv : {s t : State} → Step s t → Inv s → Inv t
Step-Inv {s} {t} (query_fails p e e') v = subst Inv (sym e') (subst Inv e v)
Step-Inv {s} {t} (tick p rows e e') v = subst Inv (sym e') (p, rows, subst Inv e v, Threads.here)
Step-Inv {s} {t} (work a b e st e') v =
    let (p, rows, free, r) = subst Inv e v in subst Inv (sym e') (p, rows, free, Threads.next r st)
Step-Inv {s} {t} (all_done a e done e') v =
    let (p, rows, free, r) = subst Inv e v in
    subst Inv (sym e') (λ id. flags_cleared p rows a id free r done)
Step-Inv {s} {t} (stop p e e') v = subst Inv (sym e') (subst Inv e v)

Reach-Inv : {s t : State} → Reach s t → Inv s → Inv t
Reach-Inv here v = v
Reach-Inv (next r st) v = Step-Inv st (Reach-Inv r v)

new_IsFree : IsFree new_health_processor
unfolding is_pending new_health_processor lookup
new_IsFree id = refl

abbrev pub Excludes : State → Type 0
Excludes (waiting p) = (id : String) → is_pending p id ≡ false
Excludes (in_round a) =
    (id : String)
    → (total (active id) a.threads ≤ 1)
      × ((total (active id) a.threads ≡ 1) ↔ (is_pending a.shared.processor id ≡ true))
Excludes (stopped p) = (id : String) → is_pending p id ≡ false

Inv-Excludes : (s : State) → Inv s → Excludes s
Inv-Excludes (waiting p) v = v
Inv-Excludes (in_round a) (p, rows, free, r) = λ id. one_check_at_a_time p rows a id free r
Inv-Excludes (stopped p) v = v

-- As long as nobody calls ClearCache, in every state that Start reaches on a new processor, through
-- any number of rounds with any rows: during a round at most one goroutine is past the pending test
-- for a gateway, and the gateway is flagged as pending exactly while one is; between the rounds and
-- after the stop no gateway is pending.
pub start-Excludes : (s : State) → Reach (waiting new_health_processor) s → Excludes s
start-Excludes s r = Inv-Excludes s (Reach-Inv r new_IsFree)

drains :
    (n : ℕ) (s : State) (p : HealthProcessor) (rows : List (Option Row)) (a : System)
    → Threads.Reach (launch p rows) a
    → total remaining a.threads ≤ n
    → Reach s (in_round a)
    → (b : System) × (total remaining b.threads ≡ 0) × Reach s (in_round b)
drains zero s p rows a r h so_far = (a, omega arith, so_far)
drains (suc n) s p rows a r h so_far = elim (Bool-cases (ltb 0 (total remaining a.threads))) [
  | inl unfinished ↦
      let (b, st) = no_deadlock p rows a r (ground arith) in
      drains n s p rows b (Threads.next r st) (omega (arith, Step-remaining st))
        (next so_far (work a b refl st refl))
  | inr done ↦ (a, ground arith, so_far)
]

stops_from : (s t : State) → Inv t → Reach s t → (p : HealthProcessor) × Reach s (stopped p)
stops_from s (waiting p) v r = (p, next r (stop p refl refl))
stops_from s (in_round a) (p, rows, free, inside) r =
    let (b, done, r') = drains (total remaining a.threads) s p rows a inside (omega arith) r in
    (
      b.shared.processor,
      next (next r' (all_done b refl done refl)) (stop b.shared.processor refl refl),
    )
stops_from s (stopped p) v r = (p, r)

-- From every state that Start reaches on a new processor it can still return: the round that is
-- under way, if there is one, can be brought to its end, and then the loop can take a stop.
pub stop_returns :
    (s : State)
    → Reach (waiting new_health_processor) s
    → (p : HealthProcessor) × Reach s (stopped p)
stop_returns s r = stops_from s s (Reach-Inv r new_IsFree) here
