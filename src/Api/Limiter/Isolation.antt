-- ===== src/Api/Limiter/Isolation.antt =====
-- The limiter keeps users apart, and counts what it refuses.
use backend_assessment.Prelude.{
  ℕ, ◌+◌, ◌≡◌, ◌≢◌, inl, inr, true, false, String, str_eq, eq_iff, Bool-cases, arith,
}
use backend_assessment.Prelude.Dict.{lookup, lookup-insert}
use backend_assessment.Floats.{Float64}
use backend_assessment.Http.{Request, Response, failure, unauthorized}
use backend_assessment.Api.Limiter.{Limiter, allow, bucket_of, take_token, with_rate_limit}

module _ (fl : Float64) {W : Type 0} (now : W → ℕ × W) (next : Request → W → Response × W) where
  -- What a request leads to: it is refused for want of a user, it goes to the handler behind the
  -- limiter, or it is dropped and counted.
  pub data Outcome (l : Limiter fl) (r : Request) (w : W) (response : Response) (l' : Limiter fl)
      (w' : W) : Type 0 where
    anonymous :
        r.user_id ≡ "" → response ≡ unauthorized → l' ≡ l → w' ≡ w → Outcome l r w response l' w'
    passed :
        r.user_id ≢ ""
        → (take_token fl now l r.user_id w).0 ≡ true
        → response ≡ (next r (take_token fl now l r.user_id w).2).0
        → l'.rl_dropped ≡ l.rl_dropped
        → w' ≡ (next r (take_token fl now l r.user_id w).2).1
        → Outcome l r w response l' w'
    dropped :
        r.user_id ≢ ""
        → (take_token fl now l r.user_id w).0 ≡ false
        → response ≡ failure "Rate limit exceeded" 429
        → l'.rl_dropped ≡ l.rl_dropped + 1
        → w' ≡ (take_token fl now l r.user_id w).2
        → Outcome l r w response l' w'

  -- Every request without a user gets 401 and changes nothing. Any other asks the user's bucket for a
  -- token: if it gets one, the handler behind the limiter answers it and nothing is counted; if not,
  -- the handler does not run, the answer is 429 and one more request is counted as dropped.
  pub with_rate_limit-Outcome :
      (l : Limiter fl) (r : Request) (w : W)
      → let (response, l', w') = with_rate_limit fl now next l r w in Outcome l r w response l' w'
  unfolding with_rate_limit take_token
  with_rate_limit-Outcome l r w = elim (Bool-cases (str_eq r.user_id "")) [
    | inl nobody ↦
        anonymous ((eq_iff r.user_id "").0 nobody) (ground arith) (ground arith) (ground arith)
    | inr known ↦ elim (Bool-cases (take_token fl now l r.user_id w).0) [
      | inl allowed ↦
          passed (λ e. ground (arith, eq_iff r.user_id "")) allowed (ground arith) (ground arith)
            (ground arith)
      | inr refused ↦
          dropped (λ e. ground (arith, eq_iff r.user_id "")) refused (ground arith) (ground arith)
            (ground arith)
    ]
  ]

  -- A request of one user leaves the buckets of all others as they are.
  pub with_rate_limit_others :
      (l : Limiter fl) (r : Request) (w : W) (key : String)
      → key ≢ r.user_id
      → lookup key (with_rate_limit fl now next l r w).1.buckets ≡ lookup key l.buckets
  unfolding with_rate_limit take_token
  with_rate_limit_others l r w key other =
      let (b, w₁) = bucket_of fl now l (lookup r.user_id l.buckets) w in
      ground (
        arith,
        lookup-insert r.user_id key (allow fl b (now w₁).0).1 l.buckets,
        eq_iff r.user_id key,
      )
