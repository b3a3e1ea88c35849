-- ===== src/Api/Limiter.antt =====
-- internal/api/server.go: the token bucket of a user and the middleware `withRateLimit`. The lock
-- makes what happens to the buckets one step. The floats are a parameter.
pub mod Burst
pub mod Answers
pub mod Isolation
use backend_assessment.Prelude.{
  ℕ, ◌+◌, Bool, true, false, Option, none, some, String, List, [], ℤ, pos, since, if◌then◌else◌,
  str_eq,
}
use backend_assessment.Prelude.Dict.{Dict, lookup, insert}
use backend_assessment.Floats.{Float64}
use backend_assessment.Http.{Request, Response, failure, unauthorized}

pub record TokenBucket (fl : Float64) : Type 0 where
  pub capacity : ℤ
  pub tokens : fl.F
  pub fill_rate : fl.F
  pub last_fill : ℕ

-- The limiter's part of the server: two settings of the configuration, the buckets by user, and the
-- counter of dropped requests.
pub record Limiter (fl : Float64) : Type 0 where
  pub rate_limit_rpm : ℤ
  pub rate_limit_burst : ℤ
  pub buckets : Dict (TokenBucket fl)
  pub rl_dropped : ℕ

unfoldable pub new_limiter : (fl : Float64) → (rpm burst : ℤ) → Limiter fl
new_limiter fl rpm burst = record {
  rate_limit_rpm = rpm;
  rate_limit_burst = burst;
  buckets = [];
  rl_dropped = 0;
}

module _ (fl : Float64) where
  unfoldable pub min_float : fl.F → fl.F → fl.F
  min_float a b = if fl.lt a b then a else b

  -- The tokens after the time since the last fill.
  unfoldable pub refilled : TokenBucket fl → ℕ → fl.F
  unfolding min_float
  refilled b now =
      min_float (fl.of_int b.capacity)
        (fl.add b.tokens (fl.mul (fl.seconds (since now b.last_fill)) b.fill_rate))

  -- `allow`
  unfoldable pub allow : TokenBucket fl → ℕ → Bool × TokenBucket fl
  allow b now =
      let filled = refilled b now in
      let one = fl.of_int (pos 1) in
      if fl.le one filled
      then (true, record b { tokens = fl.sub filled one; last_fill = now })
      else (false, record b { tokens = filled; last_fill = now })

  -- The bucket of a user who had none.
  unfoldable pub new_bucket : Limiter fl → ℕ → TokenBucket fl
  new_bucket l now = record {
    capacity = l.rate_limit_burst;
    tokens = fl.of_int l.rate_limit_burst;
    fill_rate = fl.div (fl.of_int l.rate_limit_rpm) (fl.of_int (pos 60));
    last_fill = now;
  }

  module _ {W : Type 0} (now : W → ℕ × W) where
    unfoldable pub bucket_of : Limiter fl → Option (TokenBucket fl) → W → TokenBucket fl × W
    unfolding new_bucket
    bucket_of l (some b) w = (b, w)
    bucket_of l none w = let (time, w') = now w in (new_bucket l time, w')

    -- What is done under the lock.
    unfoldable pub take_token : Limiter fl → String → W → Bool × Limiter fl × W
    take_token l key w =
        let (b, w₁) = bucket_of l (lookup key l.buckets) w in
        let (time, w₂) = now w₁ in
        let (allowed, b') = allow b time in
        (allowed, record l { buckets = insert key b' l.buckets }, w₂)

    -- `withRateLimit`
    unfoldable pub with_rate_limit :
        (Request → W → Response × W) → Limiter fl → Request → W → Response × Limiter fl × W
    with_rate_limit next l r w =
        if str_eq r.user_id ""
        then (unauthorized, l, w)
        else (let (allowed, l', w₁) = take_token l r.user_id w in
            if allowed then (let (response, w₂) = next r w₁ in (response, l', w₂)) else (
              failure "Rate limit exceeded" 429,
              record l' { rl_dropped = l'.rl_dropped + 1 },
              w₁,
            ))
