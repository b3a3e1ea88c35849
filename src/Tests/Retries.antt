-- ===== src/Tests/Retries.antt =====
-- Retries of a function that fails twice, in a world that keeps what the function returned, the time
-- and the longest wait.
use backend_assessment.Prelude.{
  ℕ, ◌+◌, ◌≤◌, ◌≡◌, refl, Option, none, some, List, [], ◌∷◌, ℤ, pos, pos_part, arith, ltb,
  if◌then◌else◌,
}
use backend_assessment.Reliability.Breaker.{Error, other, new_breaker}
use backend_assessment.Reliability.Retry.{
  RetryConfig, effective, jitter, do_with_retry, invoke, attempts, conclude, after_failure, resume,
  grow, stops,
}
use backend_assessment.Reliability.Retry.Delays.{Returns, Keeps, do_with_retry-Returns}
use backend_assessment.Reliability.Retry.History.{Logs, History, do_with_retry-History}
use backend_assessment.Tests.Numbers.{whole}

record World : Type 0 where
  coming : List (Option Error)
  past : List (Option Error)
  time : ℕ

abbrev pop : List (Option Error) → List (Option Error) → ℕ → Option Error × World
pop [] past time = (none, record { coming = []; past = none ∷ past; time = time })
pop (o ∷ coming) past time = (o, record { coming = coming; past = o ∷ past; time = time })

abbrev flaky : World → Option Error × World
flaky w = pop w.coming w.past w.time

abbrev clock : World → ℕ
clock w = w.time

abbrev rand : World → ℤ × World
rand w = (pos 0, w)

abbrev wait : ℤ → World → Option Error × World
wait d w = (none, record w { time = w.time + pos_part d })

abbrev config : RetryConfig whole
config = record {
  max_attempts = pos 4;
  initial_backoff = pos 10;
  max_backoff = pos 100;
  multiplier = pos 2;
  jitter = pos 1;
}

abbrev begin : World
begin = record { coming = some (other 1) ∷ some (other 2) ∷ []; past = []; time = 0 }

third_attempt :
    do_with_retry whole clock rand wait none flaky none config begin
    ≡ some (
      none,
      none,
      record { coming = []; past = none ∷ some (other 2) ∷ some (other 1) ∷ []; time = 0 },
    )
unfolding do_with_retry effective attempts conclude after_failure resume invoke jitter grow stops
third_attempt = refl

pop-logs :
    (coming past : List (Option Error)) (time : ℕ)
    → (pop coming past time).1.past ≡ (pop coming past time).0 ∷ past
pop-logs [] past time = refl
pop-logs (o ∷ coming) past time = refl

logs : Logs whole clock rand wait none flaky (λ w. w.past)
logs = record {
  by_fn = λ w. pop-logs w.coming w.past w.time;
  by_rand = λ w. refl;
  by_wait = λ d w. refl;
}

do_with_retry-History_example :
    History whole clock rand wait none flaky
      (λ w. w.past)
      []
      0
      (pos_part (effective whole config).max_attempts)
      (do_with_retry whole clock rand wait none flaky none config begin)
do_with_retry-History_example =
    do_with_retry-History whole clock rand wait none flaky (λ w. w.past) config begin logs

-- A world that keeps the longest wait, and a function that always fails.
abbrev longest_wait : ℤ → ℕ → Option Error × ℕ
longest_wait d w = (none, if ltb w (pos_part d) then pos_part d else w)

abbrev broken : ℕ → Option Error × ℕ
broken w = (some (other 7), w)

keeps : Keeps whole (λ w. w) (λ w. (pos 0, w)) longest_wait none broken (λ w. w ≤ 100) (pos 100)
keeps = record { by_fn = λ w p. p; by_rand = λ w p. p; by_wait = λ d w low high p. ground arith }

do_with_retry-Returns_example :
    Returns whole
      (λ w. w)
      (λ w. (pos 0, w))
      longest_wait
      none
      broken
      (λ w. w ≤ 100)
      (do_with_retry whole
        (λ w. w)
        (λ w. (pos 0, w))
        longest_wait
        none
        broken
        (some (new_breaker (pos 3) (pos 20)))
        config
        0)
do_with_retry-Returns_example =
    do_with_retry-Returns whole (λ w. w) (λ w. (pos 0, w)) longest_wait none broken (λ w. w ≤ 100)
      (some (new_breaker (pos 3) (pos 20))) config 0 (unfold effective in omega arith)
      (unfold effective in refl) (unfold effective in keeps) (omega arith)
