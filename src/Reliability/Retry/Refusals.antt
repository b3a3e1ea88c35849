-- ===== src/Reliability/Retry/Refusals.antt =====
-- DoWithRetry behind a breaker that refuses the call.
use backend_assessment.Prelude.{
  ℕ, suc, ◌-◌, ◌≡◌, refl, sym, subst, ap, Bool, true, false, Option, none, some, ℤ, pos_part,
}
use backend_assessment.Floats.{Float64}
use backend_assessment.Reliability.Breaker.{Error, err_open, Breaker, admit, call}
use backend_assessment.Reliability.Retry.{
  RetryConfig, effective, stops, invoke, after_failure, conclude, attempts, with_breaker,
}
use backend_assessment.Reliability.Retry.Delays.{effective-pos}

stops-err_open : (retriable : Option (Error → Bool)) → stops retriable err_open ≡ true
unfolding stops
stops-err_open none = refl
stops-err_open (some retriable) = refl

module _ (fl : Float64) {W : Type 0} (clock : W → ℕ) (rand : W → fl.F × W)
    (wait : ℤ → W → Option Error × W) (retriable : Option (Error → Bool))
    (fn : W → Option Error × W) where
  invoke-refused :
      (cb : Breaker) (w : W)
      → (admit cb (clock w)).1 ≡ false
      → invoke clock fn (some cb) w ≡ (some err_open, some (admit cb (clock w)).0, w)
  unfolding invoke call
  invoke-refused cb w refusal = rw refusal refl

  attempts-refused :
      (cfg : RetryConfig fl) (fuel done : ℕ) (backoff : ℤ) (cb : Breaker) (w : W)
      → (admit cb (clock w)).1 ≡ false
      → attempts fl clock rand wait retriable fn cfg (suc fuel) done backoff (some cb) w
        ≡ some (some err_open, some (admit cb (clock w)).0, w)
  unfolding attempts conclude after_failure
  attempts-refused cfg fuel done backoff cb w refusal =
      rw (invoke-refused cb w refusal, stops-err_open retriable) refl

  -- A breaker that refuses the first attempt ends DoWithRetry at once with ErrOpen: the function is
  -- not run, no random number is drawn, and there is no wait.
  pub refused_at_once :
      (cb : Breaker) (cfg : RetryConfig fl) (w : W)
      → (admit cb (clock w)).1 ≡ false
      → with_breaker fl clock rand wait retriable fn cb cfg w
        ≡ some (some err_open, some (admit cb (clock w)).0, w)
  unfolding with_breaker
  refused_at_once cb cfg w refusal =
      let used = effective fl cfg in
      let rounds = ap pos_part (effective-pos fl cfg) in
      subst
        (λ n.
          attempts fl clock rand wait retriable fn used n 0 used.initial_backoff (some cb) w
          ≡ some (some err_open, some (admit cb (clock w)).0, w))
        (sym rounds)
        (attempts-refused used (pos_part used.max_attempts - 1) 0 used.initial_backoff cb w refusal)
