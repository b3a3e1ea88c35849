-- ===== src/Reliability/Retry.antt =====
-- internal/reliability/retry.go. `fn`, the wait for the timer or the context, the random source and the
-- clock act on a world `W`, which the caller chooses. The attempts are the fuel: `none` would mean
-- that it ran out.
pub mod Delays
pub mod Endings
pub mod History
pub mod Refusals
use backend_assessment.Prelude.{
  ℕ, zero, suc, ◌+◌, Bool, true, false, not, ◌||◌, Option, none, some, ℤ, pos, pos_part, leb_ℤ,
  ltb_ℤ, if◌then◌else◌,
}
use backend_assessment.Floats.{Float64}
use backend_assessment.Reliability.Breaker.{Error, err_open, other, Breaker, call}

pub record RetryConfig (fl : Float64) : Type 0 where
  pub max_attempts : ℤ
  pub initial_backoff : ℤ
  pub max_backoff : ℤ
  pub multiplier : fl.F
  pub jitter : fl.F

unfoldable pub default_retry : (fl : Float64) → RetryConfig fl
default_retry fl = record {
  max_attempts = pos 5;
  initial_backoff = pos 200000000;
  max_backoff = pos 5000000000;
  multiplier = fl.ratio 2 1;
  jitter = fl.ratio 2 10;
}

-- The configuration that the loop uses.
unfoldable pub effective : (fl : Float64) → RetryConfig fl → RetryConfig fl
unfolding default_retry
effective fl cfg = if leb_ℤ cfg.max_attempts (pos 0) then default_retry fl else cfg

-- `d` times a factor within `frac` of 1, for `r` from `rand.Float64`.
unfoldable pub spread : (fl : Float64) → ℤ → fl.F → fl.F → ℤ
spread fl d frac r =
    let one = fl.of_int (pos 1) in
    let f = fl.mul (fl.sub (fl.mul r (fl.of_int (pos 2))) one) frac in
    fl.to_int (fl.mul (fl.of_int d) (fl.add one f))

abbrev pub at_least_zero : ℤ → ℤ
at_least_zero d = if ltb_ℤ d (pos 0) then pos 0 else d

abbrev pub at_most : ℤ → ℤ → ℤ
at_most max d = if ltb_ℤ max d then max else d

-- The backoff of the next attempt.
unfoldable pub grow : (fl : Float64) → RetryConfig fl → ℤ → ℤ
grow fl cfg backoff =
    at_most cfg.max_backoff (fl.to_int (fl.mul (fl.of_int backoff) cfg.multiplier))

abbrev pub is_open_error : Error → Bool
is_open_error err_open = true
is_open_error (other n) = false

-- `err == ErrOpen || (isRetriable != nil && !isRetriable(err))`; a nil function is `none`.
unfoldable pub stops : Option (Error → Bool) → Error → Bool
stops none e = is_open_error e
stops (some retriable) e = is_open_error e || not (retriable e)

module _ (fl : Float64) {W : Type 0} (rand : W → fl.F × W) where
  -- `jitter`
  unfoldable pub jitter : ℤ → fl.F → ℤ → W → ℤ × W
  unfolding spread
  jitter d frac max w =
      if fl.le frac (fl.of_int (pos 0))
      then (at_most max d, w)
      else (let (r, w') = rand w in (at_most max (at_least_zero (spread fl d frac r)), w'))

-- One attempt, through the breaker if there is one.
unfoldable pub invoke :
    {W : Type 0}
    → (W → ℕ)
    → (W → Option Error × W)
    → Option Breaker
    → W
    → Option Error × Option Breaker × W
unfolding call
invoke clock fn none w = let (err, w') = fn w in (err, none, w')
invoke clock fn (some cb) w = let (err, cb', w') = call clock fn cb w in (err, some cb', w')

module _ (fl : Float64) {W : Type 0} (clock : W → ℕ) (rand : W → fl.F × W)
    (wait : ℤ → W → Option Error × W) (retriable : Option (Error → Bool))
    (fn : W → Option Error × W) where
  abbrev pub Outcome : Type 0
  Outcome = Option (Option Error × Option Breaker × W)

  -- After the wait: the context's error, or the next attempt with a longer backoff.
  unfoldable pub resume :
      RetryConfig fl → ℤ → Option Breaker → Option Error × W → (ℤ → W → Outcome) → Outcome
  resume cfg backoff cb (some c, w) again = some (some c, cb, w)
  resume cfg backoff cb (none, w) again = again (grow fl cfg backoff) w

  -- What follows a failed attempt: stop, or wait and go on with `again`.
  unfoldable pub after_failure :
      RetryConfig fl → ℕ → ℤ → Error → Option Breaker → W → (ℤ → W → Outcome) → Outcome
  after_failure cfg attempt backoff e cb w again =
      if stops retriable e
      then some (some e, cb, w)
      else if leb_ℤ cfg.max_attempts (pos attempt)
      then some (some e, cb, w)
      else (let (delay, w') = jitter fl rand backoff cfg.jitter cfg.max_backoff w in
          resume cfg backoff cb (wait delay w') again)

  -- A success ends the loop.
  unfoldable pub conclude :
      Option Error × Option Breaker × W → (Error → Option Breaker → W → Outcome) → Outcome
  conclude (none, cb, w) failed = some (none, cb, w)
  conclude (some e, cb, w) failed = failed e cb w

  -- The loop, with the attempts that are done.
  unfoldable pub attempts : RetryConfig fl → ℕ → ℕ → ℤ → Option Breaker → W → Outcome
  attempts cfg zero done backoff cb w = none
  attempts cfg (suc fuel) done backoff cb w = conclude (invoke clock fn cb w) λ e cb' w'.
      after_failure cfg (done + 1) backoff e cb' w'
        (λ backoff' w''. attempts cfg fuel (done + 1) backoff' cb' w'')

  -- `DoWithRetry`
  unfoldable pub do_with_retry : Option Breaker → RetryConfig fl → W → Outcome
  do_with_retry cb cfg w =
      let used = effective fl cfg in
      attempts used (pos_part used.max_attempts) 0 used.initial_backoff cb w

  -- `CircuitBreaker.DoWithRetry` of breaker.go.
  unfoldable pub with_breaker : Breaker → RetryConfig fl → W → Outcome
  unfolding do_with_retry
  with_breaker cb cfg w = do_with_retry (some cb) cfg w
