-- ===== src/Tests/Breakers.antt =====
-- The circuit breaker.
use backend_assessment.Prelude.{◌≡◌, refl, true, false, none, some, List, [], ◌∷◌, pos, arith}
use backend_assessment.Reliability.Breaker.{
  Breaker, other, err_open, opened, new_breaker, admit, settle,
}
use backend_assessment.Reliability.Breaker.Sequential.{
  Call, Represents, run, spec_run, fresh, run-refines,
}
use backend_assessment.Reliability.Breaker.Concurrent.{
  System, enter, leave, here, next, Inv, Reach-Inv, arrivals, half_open_admits_all,
}

-- Two failures, one call refused while the breaker is open, and a success after the timeout.
abbrev history : List Call
history =
    record { start = 0; outcome = some (other 1); finish = 5 }
    ∷ record { start = 6; outcome = some (other 2); finish = 8 }
    ∷ record { start = 9; outcome = none; finish = 10 }
    ∷ record { start = 30; outcome = none; finish = 31 }
    ∷ []

run-history :
    (run (new_breaker (pos 2) (pos 20)) history).0
    ≡ (some (other 1), true) ∷ (some (other 2), true) ∷ (some err_open, false) ∷ (none, true) ∷ []
unfolding run new_breaker
run-history = refl

run-refines_example :
    ((run (new_breaker (pos 2) (pos 20)) history).0 ≡ (spec_run (pos 2) (pos 20) fresh history).0)
    × Represents
        (pos 2)
        (pos 20)
        (run (new_breaker (pos 2) (pos 20)) history).1
        (spec_run (pos 2) (pos 20) fresh history).1
run-refines_example = run-refines (pos 2) (pos 20) history (omega arith)

-- One call is let in and fails.
abbrev entered : System
entered = record { breaker = new_breaker (pos 1) (pos 20); in_flight = 1 }

abbrev failed : System
failed = record {
  breaker = settle (new_breaker (pos 1) (pos 20)) 7 (some (other 1));
  in_flight = 0;
}

Reach-Inv_example : Inv (pos 1) (pos 20) 2 failed
unfolding new_breaker admit
Reach-Inv_example = Reach-Inv (pos 1) (pos 20) 2 failed (omega arith) (
    next {t = entered} (next (here) (enter 3 refl refl))
      (leave 7 (some (other 1)) (omega arith) refl))

-- Open since 100, with one old call still running.
abbrev open_breaker : Breaker
open_breaker = record {
  failure_threshold = pos 2;
  reset_timeout = pos 20;
  failures = pos 2;
  state = opened;
  opened_at = 100;
}

half_open_admits_all_example :
    (arrivals open_breaker (120 ∷ 121 ∷ 122 ∷ [])).0 ≡ true ∷ true ∷ true ∷ []
half_open_admits_all_example =
    half_open_admits_all open_breaker 120 (121 ∷ 122 ∷ []) refl (omega arith)
