-- ===== src/Api/Limiter/Burst.antt =====
-- How many requests of a user get through at one moment.
use backend_assessment.Prelude.{
  ℕ, zero, suc, ◌-◌, ◌^◌, ◌≤◌, ◌<◌, ◌≡◌, refl, ap, ◌⊎◌, inl, inr, Bool, none, some, String, List,
  [], ◌∷◌, ℤ, pos, since, ltb, leb, eq_refl, arith,
}
use backend_assessment.Prelude.Dict.{lookup, lookup-insert}
use backend_assessment.Floats.{Float64}
use backend_assessment.Api.Limiter.{TokenBucket, Limiter, refilled, allow, bucket_of, take_token}

-- Integers of up to 53 bits are exact: they compare as integers, one can be taken off, and a refill
-- over no time adds nothing at a fill rate of `rpm` in a minute.
pub record IsExact (fl : Float64) (rpm : ℤ) : Type 0 where
  pub lt_int :
      (m n : ℕ) → m ≤ 2 ^ 53 → n ≤ 2 ^ 53 → fl.lt (fl.of_int (pos m)) (fl.of_int (pos n)) ≡ ltb m n
  pub le_int :
      (m n : ℕ) → m ≤ 2 ^ 53 → n ≤ 2 ^ 53 → fl.le (fl.of_int (pos m)) (fl.of_int (pos n)) ≡ leb m n
  pub sub_one :
      (n : ℕ)
      → n < 2 ^ 53
      → fl.sub (fl.of_int (pos (suc n))) (fl.of_int (pos 1)) ≡ fl.of_int (pos n)
  pub no_refill :
      (n : ℕ)
      → n ≤ 2 ^ 53
      → fl.add
          (fl.of_int (pos n))
          (fl.mul (fl.seconds (pos 0)) (fl.div (fl.of_int rpm) (fl.of_int (pos 60))))
        ≡ fl.of_int (pos n)

since_self : (t : ℕ) → since t t ≡ pos 0
since_self t = ground arith

module _ (fl : Float64) {W : Type 0} (now : W → ℕ × W) where
  -- A user's requests one after another.
  unfoldable pub decisions : ℕ → Limiter fl → String → W → List Bool
  decisions zero l key w = []
  decisions (suc n) l key w =
      let (allowed, l', w') = take_token fl now l key w in allowed ∷ decisions n l' key w'

  -- So many pass, and no more.
  abbrev pub first_pass : (passes requests : ℕ) → List Bool
  first_pass passes zero = []
  first_pass passes (suc n) = ltb 0 passes ∷ first_pass (passes - 1) n

  -- The bucket at a moment, with a whole number of tokens.
  abbrev pub full_to : (rpm burst : ℤ) (k t : ℕ) → TokenBucket fl
  full_to rpm burst k t = record {
    capacity = burst;
    tokens = fl.of_int (pos k);
    fill_rate = fl.div (fl.of_int rpm) (fl.of_int (pos 60));
    last_fill = t;
  }

  refilled-full_to :
      (rpm : ℤ) (size k t : ℕ)
      → IsExact fl rpm
      → k ≤ size
      → size ≤ 2 ^ 53
      → refilled fl (full_to rpm (pos size) k t) t ≡ fl.of_int (pos k)
  unfolding refilled
  refilled-full_to rpm size k t x few small =
      rw (since_self t)
        (rw (x.no_refill k (omega arith)) (rw (x.lt_int size k small (omega arith)) (ground arith)))

  allow-full_to :
      (rpm : ℤ) (size k t : ℕ)
      → IsExact fl rpm
      → k ≤ size
      → size ≤ 2 ^ 53
      → allow fl (full_to rpm (pos size) k t) t ≡ (ltb 0 k, full_to rpm (pos size) (k - 1) t)
  unfolding allow
  allow-full_to rpm size zero t x few small =
      rw (refilled-full_to rpm size 0 t x few small)
        (rw (x.le_int 1 0 (omega arith) (omega arith)) refl)
  allow-full_to rpm size (suc k) t x few small =
      let kept : (suc k) - 1 ≡ k = omega arith in
      rw (refilled-full_to rpm size (suc k) t x few small)
        (rw (x.le_int 1 (suc k) (omega arith) (omega arith)) (ground (arith, x.sub_one k, kept)))

  -- The user's bucket has `k` tokens, or there is none yet and all of `size` are left.
  pub record Has (rpm : ℤ) (size k t : ℕ) (l : Limiter fl) (key : String) : Type 0 where
    pub rpm_is : l.rate_limit_rpm ≡ rpm
    pub burst_is : l.rate_limit_burst ≡ pos size
    pub bucket_is :
        (lookup key l.buckets ≡ some (full_to rpm (pos size) k t))
        ⊎ ((lookup key l.buckets ≡ none) × (k ≡ size))

  bucket_of-full_to :
      (rpm : ℤ) (size k t : ℕ) (l : Limiter fl) (key : String) (w : W)
      → ((v : W) → (now v).0 ≡ t)
      → Has rpm size k t l key
      → (bucket_of fl now l (lookup key l.buckets) w).0 ≡ full_to rpm (pos size) k t
  unfolding bucket_of
  bucket_of-full_to rpm size k t l key w still h = ground (arith, still w, h)

  pub take_token-full_to :
      (rpm : ℤ) (size k t : ℕ) (l : Limiter fl) (key : String) (w : W)
      → IsExact fl rpm
      → k ≤ size
      → size ≤ 2 ^ 53
      → ((v : W) → (now v).0 ≡ t)
      → Has rpm size k t l key
      → let (allowed, l', w') = take_token fl now l key w in
        (allowed ≡ ltb 0 k) × Has rpm size (k - 1) t l' key
  unfolding take_token
  take_token-full_to rpm size k t l key w x few small still h =
      let (b, w₁) = bucket_of fl now l (lookup key l.buckets) w in
      let same : allow fl b (now w₁).0 ≡ (ltb 0 k, full_to rpm (pos size) (k - 1) t) =
        rw (bucket_of-full_to rpm size k t l key w still h, still w₁)
          (allow-full_to rpm size k t x few small) in
      (
        ap (λ r. r.0) same,
        record {
          rpm_is = h.rpm_is;
          burst_is = h.burst_is;
          bucket_is = inl (
              rw (lookup-insert key key (allow fl b (now w₁).0).1 l.buckets, eq_refl key)
                (ap (λ r. some r.1) same));
        },
      )

  decisions-Has :
      (rpm : ℤ) (size k t n : ℕ) (l : Limiter fl) (key : String) (w : W)
      → IsExact fl rpm
      → k ≤ size
      → size ≤ 2 ^ 53
      → ((v : W) → (now v).0 ≡ t)
      → Has rpm size k t l key
      → decisions n l key w ≡ first_pass k n
  unfolding decisions
  decisions-Has rpm size k t zero l key w x few small still h = refl
  decisions-Has rpm size k t (suc n) l key w x few small still h =
      let (allowed, l', w') = take_token fl now l key w in
      let (passed, h') = take_token-full_to rpm size k t l key w x few small still h in
      let rest = decisions-Has rpm size (k - 1) t n l' key w' x (omega arith) small still h' in
      cc (passed, rest)

  -- Of the requests that a user who has no bucket yet sends at one moment, exactly the first `size`
  -- pass, where `size`, at most 2^53, is the burst setting, and every later one is refused. The
  -- floats are taken to be exact on whole numbers of up to 2^53.
  pub burst_passes :
      (rpm : ℤ) (size t n : ℕ) (l : Limiter fl) (key : String) (w : W)
      → IsExact fl rpm
      → size ≤ 2 ^ 53
      → ((v : W) → (now v).0 ≡ t)
      → l.rate_limit_rpm ≡ rpm
      → l.rate_limit_burst ≡ pos size
      → lookup key l.buckets ≡ none
      → decisions n l key w ≡ first_pass size n
  burst_passes rpm size t n l key w x small still er eb fresh =
      decisions-Has rpm size size t n l key w x (omega arith) small still
        (record { rpm_is = er; burst_is = eb; bucket_is = inr (fresh, refl) })
