-- ===== src/Prelude/Lists.antt =====
-- Lists measured by native numbers.
use Prim.Native.Nat.{ℕ, zero, suc, ◌+◌}
use mathlib.Core.Path.{◌≡◌}
use mathlib.Core.List.{List, [], ◌∷◌, ◌++◌}
use mathlib.Core.Option.{Option, none, some}
use native.Mathlib.Omega.{arith}

module _ {ℓ} {A : Type ℓ} where
  abbrev pub length : List A → ℕ
  length [] = 0
  length (x ∷ xs) = suc (length xs)

  abbrev pub get_elem? : List A → ℕ → Option A
  get_elem? [] i = none
  get_elem? (x ∷ xs) zero = some x
  get_elem? (x ∷ xs) (suc i) = get_elem? xs i

  pub length-append : (xs ys : List A) → length (xs ++ ys) ≡ length xs + length ys
  length-append [] ys = omega arith
  length-append (x ∷ xs) ys = omega (arith, length-append xs ys)

  -- Every element satisfies the predicate.
  abbrev pub All {κ} : (A → Type κ) → List A → Type κ
  All Q [] = Unit
  All Q (a ∷ rest) = Q a × All Q rest

  pub All-append {κ} :
      (Q : A → Type κ) (front back : List A) → All Q front → All Q back → All Q (front ++ back)
  All-append Q [] back none_left ends = ends
  All-append Q (a ∷ front) back (holds, remain) ends = (holds, All-append Q front back remain ends)

  pub All-front {κ} : (Q : A → Type κ) (front back : List A) → All Q (front ++ back) → All Q front
  All-front Q [] back holds = tt
  All-front Q (a ∷ front) back (holds, remain) = (holds, All-front Q front back remain)

  pub All-back {κ} : (Q : A → Type κ) (front back : List A) → All Q (front ++ back) → All Q back
  All-back Q [] back holds = holds
  All-back Q (a ∷ front) back (holds, remain) = All-back Q front back remain
