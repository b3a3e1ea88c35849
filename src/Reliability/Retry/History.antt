-- ===== src/Reliability/Retry/History.antt =====
-- What DoWithRetry makes of the results of the function, with no breaker.
use mathlib.Core.List.{append_assoc}
use backend_assessment.Prelude.{
  ℕ, zero, suc, ◌+◌, ◌≤◌, ◌<◌, ◌≡◌, refl, sym, ap, subst, ◌∙◌, inl, inr, Bool, false, Option, none,
  some, List, [], ◌∷◌, ◌++◌, ℤ, pos, pos_part, leb_ℤ, Bool-cases, length, length-append, All,
  All-append, arith,
}
use backend_assessment.Floats.{Float64}
use backend_assessment.Reliability.Breaker.{Error, Breaker}
use backend_assessment.Reliability.Retry.{
  RetryConfig, effective, grow, stops, jitter, invoke, after_failure, resume, conclude, attempts,
  do_with_retry,
}
use backend_assessment.Reliability.Retry.Delays.{effective-pos}
use backend_assessment.Reliability.Retry.Endings.{
  Retried, Ended, succeeded, refused, exhausted, canceled,
}

module _ (fl : Float64) {W : Type 0} (clock : W → ℕ) (rand : W → fl.F × W)
    (wait : ℤ → W → Option Error × W) (retriable : Option (Error → Bool))
    (fn : W → Option Error × W) (calls : W → List (Option Error)) where
  abbrev Outcome : Type 0
  Outcome = Option (Option Error × Option Breaker × W)

  -- An error that a wait has returned for the context.
  abbrev pub Cancels : Error → Type 0
  Cancels c = (d : ℤ) × (w : W) × ((wait d w).0 ≡ some c)

  -- The world keeps the results of the function, the newest first; random numbers and waits do not
  -- run it.
  pub record Logs : Type 0 where
    pub by_fn : (w : W) → calls (fn w).1 ≡ (fn w).0 ∷ calls w
    pub by_rand : (w : W) → calls (rand w).1 ≡ calls w
    pub by_wait : (d : ℤ) (w : W) → calls (wait d w).1 ≡ calls w

  -- The run returned after at least one more attempt than the `done` before it.
  pub record History (log : List (Option Error)) (done max : ℕ) (r : Outcome) : Type 0 where
    pub err : Option Error
    pub last : Option Error
    pub earlier : List (Option Error)
    pub world : W
    pub returned : r ≡ some (err, none, world)
    pub logged : calls world ≡ last ∷ (earlier ++ log)
    pub retried : All (Retried retriable) earlier
    pub bounded : done + suc (length earlier) ≤ max
    pub ended : Ended retriable Cancels last (done + suc (length earlier)) max err

  conclude-cases :
      (G : Outcome → Type 0) (o : Option Error) (w : W)
      (failed : Error → Option Breaker → W → Outcome)
      → (o ≡ none → G (some (none, none, w)))
      → ((e : Error) → o ≡ some e → G (failed e none w))
      → G (conclude fl clock rand wait retriable fn (o, none, w) failed)
  unfolding conclude
  conclude-cases G none w failed done more = done refl
  conclude-cases G (some e) w failed done more = more e refl

  resume-cases :
      (G : Outcome → Type 0) (cfg : RetryConfig fl) (backoff : ℤ) (o : Option Error) (w : W)
      (again : ℤ → W → Outcome)
      → ((c : Error) → o ≡ some c → G (some (some c, none, w)))
      → G (again (grow fl cfg backoff) w)
      → G (resume fl clock rand wait retriable fn cfg backoff none (o, w) again)
  unfolding resume
  resume-cases G cfg backoff (some c) w again stop more = stop c refl
  resume-cases G cfg backoff none w again stop more = more

  calls-jitter :
      (d : ℤ) (frac : fl.F) (max : ℤ) (w : W)
      → Logs
      → calls (jitter fl rand d frac max w).1 ≡ calls w
  unfolding jitter
  calls-jitter d frac max w lg = ground (arith, lg.by_rand w)

  -- The last failure is moved to the end of the history of what follows.
  prepend :
      (log : List (Option Error)) (done max : ℕ) (o : Option Error) (r : Outcome)
      → Retried retriable o
      → History (o ∷ log) (done + 1) max r
      → History log done max r
  prepend log done max o r again h = record {
    err = h.err;
    last = h.last;
    earlier = h.earlier ++ o ∷ [];
    world = h.world;
    returned = h.returned;
    logged = h.logged ∙ ap (λ l. h.last ∷ l) (sym (append_assoc h.earlier (o ∷ []) log));
    retried = All-append (Retried retriable) h.earlier (o ∷ []) h.retried (again, tt);
    bounded = omega (arith, more);
    ended = subst (λ n. Ended retriable Cancels h.last n max h.err) (omega (arith, more)) h.ended;
  }
    where
      more : length (h.earlier ++ o ∷ []) ≡ length h.earlier + 1
      more = length-append h.earlier (o ∷ [])

  after_failure-History :
      (cfg : RetryConfig fl) (max done : ℕ) (backoff : ℤ) (e : Error) (w : W)
      (log : List (Option Error)) (next : ℤ → W → Outcome)
      → cfg.max_attempts ≡ pos max
      → done < max
      → Logs
      → calls w ≡ some e ∷ log
      → (done + 1 < max
          → stops retriable e ≡ false
          → (b : ℤ) (v : W) → calls v ≡ some e ∷ log
          → History (some e ∷ log) (done + 1) max (next b v))
      → History log done max
          (after_failure fl clock rand wait retriable fn cfg (done + 1) backoff e none w next)
  unfolding after_failure
  after_failure-History cfg max done backoff e w log next em left lg now more =
      elim (Bool-cases (stops retriable e)) [
        | inl stop ↦ rw stop (record {
          err = some e;
          last = some e;
          earlier = [];
          world = w;
          returned = refl;
          logged = now;
          retried = tt;
          bounded = omega arith;
          ended = refused e refl stop refl;
        })
        | inr on ↦ elim (Bool-cases (leb_ℤ cfg.max_attempts (pos (done + 1)))) [
          | inl spent ↦
              rw (on, spent)
                (record {
                  err = some e;
                  last = some e;
                  earlier = [];
                  world = w;
                  returned = refl;
                  logged = now;
                  retried = tt;
                  bounded = omega arith;
                  ended = exhausted (e, refl, on) (ground arith) refl;
                })
          | inr unspent ↦
              let (delay, v) = jitter fl rand backoff cfg.jitter cfg.max_backoff w in
              let same : calls (wait delay v).1 ≡ some e ∷ log =
                lg.by_wait delay v ∙ calls-jitter backoff cfg.jitter cfg.max_backoff w lg ∙ now in
              rw (on, unspent)
                (resume-cases (History log done max) cfg backoff (wait delay v).0 (wait delay v).1
                  next
                  (λ c why. record {
                    err = some c;
                    last = some e;
                    earlier = [];
                    world = (wait delay v).1;
                    returned = refl;
                    logged = same;
                    retried = tt;
                    bounded = omega arith;
                    ended = canceled c (e, refl, on) (ground arith) (delay, v, why) refl;
                  })
                  (prepend log done max (some e) _ (e, refl, on)
                    (more (ground arith) on _ (wait delay v).1 same)))
        ]
      ]

  attempts-History :
      (cfg : RetryConfig fl) (max fuel done : ℕ) (backoff : ℤ) (w : W) (log : List (Option Error))
      → cfg.max_attempts ≡ pos max
      → done + fuel ≡ max
      → 0 < fuel
      → Logs
      → calls w ≡ log
      → History log done max (attempts fl clock rand wait retriable fn cfg fuel done backoff none w)
  unfolding attempts invoke
  attempts-History cfg max zero done backoff w log em fueled some_fuel lg now = absurd (omega arith)
  attempts-History cfg max (suc fuel) done backoff w log em fueled some_fuel lg now =
      conclude-cases (History log done max) (fn w).0 (fn w).1 _
        (λ success. record {
          err = none;
          last = none;
          earlier = [];
          world = (fn w).1;
          returned = refl;
          logged = rw (← success, ← now) (lg.by_fn w);
          retried = tt;
          bounded = omega arith;
          ended = succeeded refl refl;
        })
        λ e failure.
          let ran : calls (fn w).1 ≡ some e ∷ log = rw (← failure, ← now) (lg.by_fn w) in
          after_failure-History cfg max done backoff e (fn w).1 log _ em (omega arith) lg ran
            λ left on b v same.
              attempts-History cfg max fuel (done + 1) b v (some e ∷ log) em (omega arith)
                (omega arith) lg same

  -- With no breaker DoWithRetry returns after at least one and at most MaxAttempts (5, if that is
  -- not positive) runs of the function. Every run but the last returned an error that is retriable
  -- and not ErrOpen. The result is nil exactly in the case that the last run succeeded; otherwise it
  -- is the last run's error, which is ErrOpen or not retriable or came from the last attempt
  -- allowed, or it is the context's error from a wait before the attempts were used up.
  pub do_with_retry-History :
      (cfg : RetryConfig fl) (w : W)
      → Logs
      → History
          (calls w)
          0
          (pos_part (effective fl cfg).max_attempts)
          (do_with_retry fl clock rand wait retriable fn none cfg w)
  unfolding do_with_retry
  do_with_retry-History cfg w lg =
      attempts-History (effective fl cfg) _ (pos_part (effective fl cfg).max_attempts) 0 _ w
        (calls w) (effective-pos fl cfg ∙ ap pos (sym (ap pos_part (effective-pos fl cfg))))
        (omega arith) (omega (arith, ap pos_part (effective-pos fl cfg))) lg refl
