-- ===== src/Api/Limiter/Answers.antt =====
-- What a user's requests at one moment are answered.
use backend_assessment.Prelude.{
  ℕ, zero, suc, ◌+◌, ◌-◌, ◌^◌, ◌≤◌, ◌≡◌, ◌≢◌, refl, subst, inr, Bool, true, false, none, List, [],
  ◌∷◌, ℤ, pos, ltb, eq_iff, str_eq, if◌then◌else◌, String, arith,
}
use backend_assessment.Prelude.Dict.{lookup}
use backend_assessment.Floats.{Float64}
use backend_assessment.Http.{Request, Response, failure}
use backend_assessment.Api.Limiter.{Limiter, take_token, with_rate_limit}
use backend_assessment.Api.Limiter.Burst.{IsExact, Has, first_pass, take_token-full_to}

module _ (fl : Float64) {W : Type 0} (now : W → ℕ × W) (next : Request → W → Response × W) where
  -- The same request again and again, with what is left of the limiter.
  unfoldable pub answers : ℕ → Limiter fl → Request → W → List Response × Limiter fl
  answers zero l r w = ([], l)
  answers (suc n) l r w =
      let (response, l', w') = with_rate_limit fl now next l r w in
      let (rest, last) = answers n l' r w' in (response ∷ rest, last)

  -- The answer of the handler behind the limiter, or 429.
  abbrev pub Answers : Request → Bool → Response → Type 0
  Answers r true response = (w : W) × (response ≡ (next r w).0)
  Answers r false response = response ≡ failure "Rate limit exceeded" 429

  abbrev pub Served : Request → List Bool → List Response → Type 0
  Served r [] [] = Unit
  Served r (passed ∷ passes) (response ∷ responses) =
      Answers r passed response × Served r passes responses
  Served _ _ _ = ⊥

  kept_settings :
      (rpm : ℤ) (size k t : ℕ) (l : Limiter fl) (key : String) (dropped : ℕ)
      → Has fl now rpm size k t l key
      → Has fl now rpm size k t (record l { rl_dropped = dropped }) key
  kept_settings rpm size k t l key dropped h = record {
    rpm_is = h.rpm_is;
    burst_is = h.burst_is;
    bucket_is = h.bucket_is;
  }

  -- On what the bucket gave.
  answered :
      (rpm : ℤ) (size k t : ℕ) (l l' : Limiter fl) (r : Request) (w : W) (b : Bool)
      → b ≡ ltb 0 k
      → Has fl now rpm size (k - 1) t l' r.user_id
      → l'.rl_dropped ≡ l.rl_dropped
      → let (response, l'', w') : Response × Limiter fl × W =
          if b then (let (response, w₂) = next r w in (response, l', w₂)) else (
            failure "Rate limit exceeded" 429,
            record l' { rl_dropped = l'.rl_dropped + 1 },
            w,
          ) in
        Answers r (ltb 0 k) response
        × Has fl now rpm size (k - 1) t l'' r.user_id
        × (l''.rl_dropped ≡ l.rl_dropped + (1 - k))
  answered rpm size k t l l' r w true e h same =
      (subst (λ b. Answers r b (next r w).0) e (w, refl), h, ground (arith, e, same))
  answered rpm size k t l l' r w false e h same = (
    subst (λ b. Answers r b (failure "Rate limit exceeded" 429)) e refl,
    kept_settings rpm size (k - 1) t l' r.user_id (l'.rl_dropped + 1) h,
    ground (arith, e, same),
  )

  with_rate_limit-Has :
      (rpm : ℤ) (size k t : ℕ) (l : Limiter fl) (r : Request) (w : W)
      → IsExact fl rpm
      → k ≤ size
      → size ≤ 2 ^ 53
      → ((v : W) → (now v).0 ≡ t)
      → r.user_id ≢ ""
      → Has fl now rpm size k t l r.user_id
      → let (response, l', w') = with_rate_limit fl now next l r w in
        Answers r (ltb 0 k) response
        × Has fl now rpm size (k - 1) t l' r.user_id
        × (l'.rl_dropped ≡ l.rl_dropped + (1 - k))
  unfolding with_rate_limit
  with_rate_limit-Has rpm size k t l r w x few small still known h =
      let (allowed, l', w₁) = take_token fl now l r.user_id w in
      let (passed, h') = take_token-full_to fl now rpm size k t l r.user_id w x few small still h in
      let named : str_eq r.user_id "" ≡ false = ground (arith, eq_iff r.user_id "") in
      rw named (answered rpm size k t l l' r w₁ allowed passed h' (unfold take_token in refl))

  answers-Has :
      (rpm : ℤ) (size k t n : ℕ) (l : Limiter fl) (r : Request) (w : W)
      → IsExact fl rpm
      → k ≤ size
      → size ≤ 2 ^ 53
      → ((v : W) → (now v).0 ≡ t)
      → r.user_id ≢ ""
      → Has fl now rpm size k t l r.user_id
      → let (responses, last) = answers n l r w in
        Served r (first_pass fl now k n) responses × (last.rl_dropped ≡ l.rl_dropped + (n - k))
  unfolding answers
  answers-Has rpm size k t zero l r w x few small still known h = (tt, omega arith)
  answers-Has rpm size k t (suc n) l r w x few small still known h =
      let (response, l', w') = with_rate_limit fl now next l r w in
      let (answer, h', dropped) =
        with_rate_limit-Has rpm size k t l r w x few small still known h in
      let (rest, total) =
        answers-Has rpm size (k - 1) t n l' r w' x (omega arith) small still known h' in
      ((answer, rest), omega (arith, dropped, total))

  -- Of the requests that a user without a bucket sends at one moment, exactly the first `size` are
  -- answered by the handler behind the limiter, whatever it does; `size`, at most 2^53, is the burst
  -- setting. Every later one is answered with 429, and so many are counted as dropped. The floats
  -- are taken to be exact on whole numbers of up to 2^53.
  pub burst_answers :
      (rpm : ℤ) (size t n : ℕ) (l : Limiter fl) (r : Request) (w : W)
      → IsExact fl rpm
      → size ≤ 2 ^ 53
      → ((v : W) → (now v).0 ≡ t)
      → l.rate_limit_rpm ≡ rpm
      → l.rate_limit_burst ≡ pos size
      → r.user_id ≢ ""
      → lookup r.user_id l.buckets ≡ none
      → let (responses, last) = answers n l r w in
        Served r (first_pass fl now size n) responses
        × (last.rl_dropped ≡ l.rl_dropped + (n - size))
  burst_answers rpm size t n l r w x small still er eb known fresh =
      answers-Has rpm size size t n l r w x (omega arith) small still known
        (record { rpm_is = er; burst_is = eb; bucket_is = inr (fresh, refl) })
