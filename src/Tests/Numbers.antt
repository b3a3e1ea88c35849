-- ===== src/Tests/Numbers.antt =====
-- Floats that hold whole numbers only: the arithmetic of the tests.
use backend_assessment.Prelude.{
  ◌+◌, ◌*◌, ◌/◌, ℤ, pos, pos_part, neg_part, sub_ℕ, ltb_ℤ, leb_ℤ, arith,
}
use backend_assessment.Floats.{Float64}
use backend_assessment.Api.Limiter.Burst.{IsExact}

abbrev pub whole : Float64
whole = record {
  F = ℤ;
  of_int = λ n. n;
  to_int = λ x. x;
  ratio = λ n d. pos (n / d);
  add = λ x y. sub_ℕ (pos_part x + pos_part y) (neg_part x + neg_part y);
  sub = λ x y. sub_ℕ (pos_part x + neg_part y) (neg_part x + pos_part y);
  mul = λ x y.
      sub_ℕ (pos_part x * pos_part y + neg_part x * neg_part y)
        (pos_part x * neg_part y + neg_part x * pos_part y);
  div = λ x y. pos (pos_part x / pos_part y);
  lt = ltb_ℤ;
  le = leb_ℤ;
  seconds = λ d. pos (pos_part d / 1000000000);
}

pub whole-IsExact : IsExact whole (pos 600)
whole-IsExact = record {
  lt_int = λ m n small small'. ground arith;
  le_int = λ m n small small'. ground arith;
  sub_one = λ n small. ground arith;
  no_refill = λ n small. ground arith;
}
