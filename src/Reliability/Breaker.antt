-- ===== src/Reliability/Breaker.antt =====
-- internal/reliability/breaker.go. The mutex makes each of the two critical sections of `Do` one step,
-- `admit` before the call of `fn` and `settle` after it; `fn` itself runs outside the lock.
-- The three values of the string field `state` are a data type; a time is in nanoseconds.
pub mod Sequential
pub mod Concurrent
use backend_assessment.Prelude.{
  ℕ, Bool, true, false, Option, none, some, ℤ, pos, leb_ℤ, inc64, since, if◌then◌else◌,
}

pub data State : Type 0 where
  closed opened half_open : State

-- An `error`: the sentinel `ErrOpen`, or any other value, which the code only passes on.
pub data Error : Type 0 where
  err_open : Error
  other : ℕ → Error

pub record Breaker : Type 0 where
  pub failure_threshold : ℤ
  pub reset_timeout : ℤ
  pub failures : ℤ
  pub state : State
  pub opened_at : ℕ

unfoldable pub new_breaker : ℤ → ℤ → Breaker
new_breaker threshold timeout = record {
  failure_threshold = threshold;
  reset_timeout = timeout;
  failures = pos 0;
  state = closed;
  opened_at = 0;
}

unfoldable pub default_breaker : Breaker
unfolding new_breaker
default_breaker = new_breaker (pos 5) (pos 30000000000)

-- The `switch` on the state; `true` when the call may go on.
unfoldable pub admit_in : State → Breaker → ℕ → Breaker × Bool
admit_in opened cb now =
    if leb_ℤ cb.reset_timeout (since now cb.opened_at)
    then (record cb { state = half_open }, true)
    else (cb, false)
admit_in closed cb now = (cb, true)
admit_in half_open cb now = (cb, true)

-- The first critical section of `Do`.
unfoldable pub admit : Breaker → ℕ → Breaker × Bool
unfolding admit_in
admit cb now = admit_in cb.state cb now

-- The second critical section, on what `fn` returned.
unfoldable pub settle : Breaker → ℕ → Option Error → Breaker
settle cb now none = record cb { failures = pos 0; state = closed }
settle cb now (some e) =
    let failures = inc64 cb.failures in
    if leb_ℤ cb.failure_threshold failures
    then record cb { failures = failures; state = opened; opened_at = now }
    else record cb { failures = failures }

-- `Do`: `fn` acts on a world, from which `time.Now` is read.
unfoldable pub call {ℓ} :
    {W : Type ℓ} → (W → ℕ) → (W → Option Error × W) → Breaker → W → Option Error × Breaker × W
unfolding admit settle
call clock fn cb w =
    let (cb', admitted) = admit cb (clock w) in
    if admitted
    then (let (err, w') = fn w in (err, settle cb' (clock w') err, w'))
    else (some err_open, cb', w)
