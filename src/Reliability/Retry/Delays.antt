-- ===== src/Reliability/Retry/Delays.antt =====
-- Termination, and the delays between attempts.
use backend_assessment.Prelude.{
  ℕ, zero, suc, ◌+◌, ◌-◌, ◌≤◌, ◌<◌, ◌≡◌, refl, ap, ◌⊎◌, inl, inr, Bool, false, Option, none, some,
  ℤ, pos, pos_part, ◌≤ℤ◌, leb_ℤ, Bool-cases, arith,
}
use backend_assessment.Floats.{Float64}
use backend_assessment.Reliability.Breaker.{Error, Breaker}
use backend_assessment.Reliability.Retry.{
  RetryConfig, effective, grow, stops, jitter, invoke, after_failure, resume, conclude, attempts,
  do_with_retry,
}

-- When it randomizes (`frac` is above 0), `jitter` gives a delay between 0 and a maximum that is not
-- negative, whatever the floats and the random number are. When it does not, a delay that is not
-- negative stays so and is held to the maximum.
pub jitter_bounds :
    (fl : Float64) {W : Type 0} (rand : W → fl.F × W) (d : ℤ) (frac : fl.F) (max : ℤ) (w : W)
    → pos 0 ≤ℤ max
    → (fl.le frac (fl.of_int (pos 0)) ≡ false) ⊎ (pos 0 ≤ℤ d)
    → let delay = (jitter fl rand d frac max w).0 in (pos 0 ≤ℤ delay) × (delay ≤ℤ max)
unfolding jitter
jitter_bounds fl rand d frac max w bound (inl h) = ground arith
jitter_bounds fl rand d frac max w bound (inr h) = ground arith

-- The attempts in the effective configuration are a positive number.
pub effective-pos :
    (fl : Float64) (cfg : RetryConfig fl)
    → (effective fl cfg).max_attempts ≡ pos (suc (pos_part (effective fl cfg).max_attempts - 1))
unfolding effective
effective-pos fl cfg = ground arith

module _ (fl : Float64) {W : Type 0} (clock : W → ℕ) (rand : W → fl.F × W)
    (wait : ℤ → W → Option Error × W) (retriable : Option (Error → Bool))
    (fn : W → Option Error × W) (P : W → Type 0) where
  -- The run returns, in a world of which `P` holds.
  abbrev pub Returns : Option (Option Error × Option Breaker × W) → Type 0
  Returns r = (err : Option Error) × (cb : Option Breaker) × (w : W) × (r ≡ some (err, cb, w)) × P w

  -- `P` is kept by the function, the random source, and every wait of a delay that is allowed.
  pub record Keeps (max : ℤ) : Type 0 where
    pub by_fn : (w : W) → P w → P (fn w).1
    pub by_rand : (w : W) → P w → P (rand w).1
    pub by_wait : (d : ℤ) (w : W) → pos 0 ≤ℤ d → d ≤ℤ max → P w → P (wait d w).1

  invoke-keeps :
      (cb : Option Breaker) (w : W)
      → ((v : W) → P v → P (fn v).1)
      → P w
      → P (invoke clock fn cb w).2
  unfolding invoke
  invoke-keeps none w k p = k w p
  invoke-keeps (some cb) w k p = ground (arith, k w p)

  jitter-keeps :
      (d : ℤ) (frac : fl.F) (max : ℤ) (w : W)
      → ((v : W) → P v → P (rand v).1)
      → P w
      → P (jitter fl rand d frac max w).1
  unfolding jitter
  jitter-keeps d frac max w k p = ground (arith, k w p)

  resume-Returns :
      (cfg : RetryConfig fl) (backoff : ℤ) (cb : Option Breaker) (r : Option Error × W)
      (again : ℤ → W → Option (Option Error × Option Breaker × W))
      → P r.1
      → ((b : ℤ) (v : W) → P v → Returns (again b v))
      → Returns (resume fl clock rand wait retriable fn cfg backoff cb r again)
  unfolding resume
  resume-Returns cfg backoff cb (some c, w) again p more = (some c, cb, w, refl, p)
  resume-Returns cfg backoff cb (none, w) again p more = more (grow fl cfg backoff) w p

  after_failure-Returns :
      (cfg : RetryConfig fl) (n done : ℕ) (backoff : ℤ) (e : Error) (cb : Option Breaker) (w : W)
      (again : ℤ → W → Option (Option Error × Option Breaker × W))
      → cfg.max_attempts ≡ pos n
      → pos 0 ≤ℤ cfg.max_backoff
      → fl.le cfg.jitter (fl.of_int (pos 0)) ≡ false
      → Keeps cfg.max_backoff
      → P w
      → (done < n → (b : ℤ) (v : W) → P v → Returns (again b v))
      → Returns (after_failure fl clock rand wait retriable fn cfg done backoff e cb w again)
  unfolding after_failure
  after_failure-Returns cfg n done backoff e cb w again en bound jit k p more =
      elim (Bool-cases (stops retriable e)) [
        | inl stop ↦ rw stop (some e, cb, w, refl, p)
        | inr on ↦ elim (Bool-cases (leb_ℤ cfg.max_attempts (pos done))) [
          | inl spent ↦ rw (on, spent) (some e, cb, w, refl, p)
          | inr left ↦
              let (delay, v) = jitter fl rand backoff cfg.jitter cfg.max_backoff w in
              let (low, high) =
                jitter_bounds fl rand backoff cfg.jitter cfg.max_backoff w bound (inl jit) in
              rw (on, left)
                (resume-Returns cfg backoff cb (wait delay v) again
                  (k.by_wait delay v low high
                    (jitter-keeps backoff cfg.jitter cfg.max_backoff w k.by_rand p))
                  (more (ground arith)))
        ]
      ]

  conclude-Returns :
      (r : Option Error × Option Breaker × W)
      (failed : Error → Option Breaker → W → Option (Option Error × Option Breaker × W))
      → P r.2
      → ((e : Error) → P r.2 → Returns (failed e r.1 r.2))
      → Returns (conclude fl clock rand wait retriable fn r failed)
  unfolding conclude
  conclude-Returns (none, cb, w) failed p more = (none, cb, w, refl, p)
  conclude-Returns (some e, cb, w) failed p more = more e p

  attempts-Returns :
      (cfg : RetryConfig fl) (n fuel done : ℕ) (backoff : ℤ) (cb : Option Breaker) (w : W)
      → cfg.max_attempts ≡ pos n
      → n ≤ done + fuel
      → 0 < fuel
      → pos 0 ≤ℤ cfg.max_backoff
      → fl.le cfg.jitter (fl.of_int (pos 0)) ≡ false
      → Keeps cfg.max_backoff
      → P w
      → Returns (attempts fl clock rand wait retriable fn cfg fuel done backoff cb w)
  unfolding attempts
  attempts-Returns cfg n zero done backoff cb w en enough some_fuel bound jit k p =
      absurd (omega arith)
  attempts-Returns cfg n (suc fuel) done backoff cb w en enough some_fuel bound jit k p =
      conclude-Returns (invoke clock fn cb w) _ (invoke-keeps cb w k.by_fn p) λ e q.
        after_failure-Returns cfg n (done + 1) backoff e (invoke clock fn cb w).1
          (invoke clock fn cb w).2 _ en bound jit k q
          λ left b v q'.
            attempts-Returns cfg n fuel (done + 1) b (invoke clock fn cb w).1 v en (omega arith)
              (omega arith) bound jit k q'

  -- DoWithRetry returns, whatever the function does and with or without a breaker, when the jitter
  -- of the effective configuration is above 0 and its maximal backoff is not negative. All it does
  -- to the world is to run the function, draw random numbers and wait delays between 0 and the
  -- maximal backoff: a property that these three keep still holds.
  pub do_with_retry-Returns :
      (cb : Option Breaker) (cfg : RetryConfig fl) (w : W)
      → pos 0 ≤ℤ (effective fl cfg).max_backoff
      → fl.le (effective fl cfg).jitter (fl.of_int (pos 0)) ≡ false
      → Keeps (effective fl cfg).max_backoff
      → P w
      → Returns (do_with_retry fl clock rand wait retriable fn cb cfg w)
  unfolding do_with_retry
  do_with_retry-Returns cb cfg w bound jit k p =
      attempts-Returns (effective fl cfg) _ (pos_part (effective fl cfg).max_attempts) 0 _ cb w
        (effective-pos fl cfg) (omega (arith, ap pos_part (effective-pos fl cfg)))
        (omega (arith, ap pos_part (effective-pos fl cfg))) bound jit k p
