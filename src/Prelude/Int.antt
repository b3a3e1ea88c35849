-- ===== src/Prelude/Int.antt =====
-- Go's signed integers, as integers over the native numbers. `int` and `time.Duration` have 64 bits:
-- an increment that leaves the range wraps, and `time.Time.Sub` stops at the ends of the range.
use Prim.Native.Nat.{ℕ, suc, ◌+◌, ◌-◌, ◌≤◌}
use mathlib.Core.Bool.{Bool}
use backend_assessment.Prelude.Tests.{ltb, leb, ◌==◌, if◌then◌else◌}

-- `negsuc n` is -(n + 1).
pub data ℤ : Type 0 where
  pos : ℕ → ℤ
  negsuc : ℕ → ℤ

abbrev pub pos_part : ℤ → ℕ
pos_part (pos n) = n
pos_part (negsuc n) = 0

abbrev pub neg_part : ℤ → ℕ
neg_part (pos n) = 0
neg_part (negsuc n) = suc n

-- a - b, as an integer.
abbrev pub sub_ℕ : ℕ → ℕ → ℤ
sub_ℕ a b = if leb b a then pos (a - b) else negsuc (b - a - 1)

infix 50 ◌≤ℤ◌
abbrev pub ◌≤ℤ◌ : ℤ → ℤ → Type 0
a ≤ℤ b = pos_part a + neg_part b ≤ pos_part b + neg_part a

abbrev pub leb_ℤ : ℤ → ℤ → Bool
leb_ℤ a b = leb (pos_part a + neg_part b) (pos_part b + neg_part a)

abbrev pub ltb_ℤ : ℤ → ℤ → Bool
ltb_ℤ a b = ltb (pos_part a + neg_part b) (pos_part b + neg_part a)

-- The largest value of an `int64`, 2^63 - 1; the smallest is its `negsuc`.
abbrev pub max_int64 : ℕ
max_int64 = 9223372036854775807

-- `x++` on an `int` of 64 bits.
abbrev pub inc64 : ℤ → ℤ
inc64 (pos n) = if n == max_int64 then negsuc max_int64 else pos (n + 1)
inc64 (negsuc n) = if n == 0 then pos 0 else negsuc (n - 1)

-- A difference held to the range of a `time.Duration`.
abbrev pub clamp64 : ℤ → ℤ
clamp64 (pos n) = if leb n max_int64 then pos n else pos max_int64
clamp64 (negsuc n) = if leb n max_int64 then negsuc n else negsuc max_int64

-- `now.Sub(t)`, in nanoseconds; `time.Since(t)` is this at the clock's `now`. A `time.Time` is the
-- number of nanoseconds since the zero time (year 1).
abbrev pub since : ℕ → ℕ → ℤ
since now t = clamp64 (sub_ℕ now t)
