-- ===== src/Prelude/Entries.antt =====
-- The entries of a map in whatever order: Go's iteration over a map follows none.
use Prim.Native.String.{String}
use mathlib.Core.Path.{◌≡◌, refl, sym, subst}
use mathlib.Core.Logic.{inl, inr}
use mathlib.Core.Option.{none, some}
use mathlib.Core.List.Perm
use mathlib.Core.List.{[], ◌∷◌, Perm}
use native.Mathlib.Omega.{arith}
use text.Mathlib.Text.{◌==◌ as str_eq}
use text.Mathlib.TextEquality.{eq_iff}
use text.Mathlib.TextPositions.{eq_refl}
use backend_assessment.Prelude.Tests.{Bool-cases}
use backend_assessment.Prelude.Dict.{Dict, lookup, insert, delete, lookup-insert, lookup-delete}

module _ {ℓ} {V : Type ℓ} where
  -- No key stands twice.
  abbrev pub Distinct : Dict V → Type ℓ
  Distinct [] = Unit
  Distinct ((key, value) ∷ rest) = (lookup key rest ≡ none) × Distinct rest

  pub insert-Distinct :
      (key : String) (new : V) (m : Dict V) → Distinct m → Distinct (insert key new m)
  unfolding insert lookup
  insert-Distinct key new [] d = (refl, tt)
  insert-Distinct key new ((other, old) ∷ rest) (fresh, d) = elim (Bool-cases (str_eq other key)) [
    | inl same ↦ rw same (subst (λ k. lookup k rest ≡ none) ((eq_iff other key).0 same) fresh, d)
    | inr differ ↦ rw differ (
      ground (arith, lookup-insert key other new rest, eq_iff other key, eq_iff key other),
      insert-Distinct key new rest d,
    )
  ]

  delete-absent : (key : String) (m : Dict V) → lookup key m ≡ none → delete key m ≡ m
  unfolding delete lookup
  delete-absent key [] absent = refl
  delete-absent key ((other, old) ∷ rest) absent = ground (arith, delete-absent key rest)

  delete-Distinct : (key : String) (m : Dict V) → Distinct m → Distinct (delete key m)
  unfolding delete
  delete-Distinct key [] d = tt
  delete-Distinct key ((other, old) ∷ rest) (fresh, d) = elim (Bool-cases (str_eq other key)) [
    | inl same ↦ rw same (delete-Distinct key rest d)
    | inr differ ↦
        rw differ (ground (arith, lookup-delete key other rest), delete-Distinct key rest d)
  ]

  -- An entry can be brought to the front.
  take_out :
      (key : String) (value : V) (m : Dict V)
      → Distinct m
      → lookup key m ≡ some value
      → Perm m ((key, value) ∷ delete key m)
  unfolding delete lookup
  take_out key value [] d found = absurd (ground arith)
  take_out key value ((other, old) ∷ rest) (fresh, d) found = elim (Bool-cases (str_eq other key)) [
    | inl same ↦
        let e : (key, value) ∷ delete key rest ≡ (other, old) ∷ rest =
          ground (arith, delete-absent key rest, eq_iff other key) in
        rw same (subst (λ l. Perm ((other, old) ∷ rest) l) (sym e) (Perm.refl _))
    | inr differ ↦ rw differ (
        Perm.trans (Perm.cons (other, old) (take_out key value rest d (ground arith)))
          (Perm.swap (key, value) (other, old) (delete key rest)))
  ]

  -- Maps in which every key finds the same have the same entries.
  pub entries-Perm :
      (m n : Dict V)
      → Distinct m
      → Distinct n
      → ((key : String) → lookup key m ≡ lookup key n)
      → Perm m n
  unfolding lookup
  entries-Perm [] [] _ _ same = Perm.refl []
  entries-Perm [] ((key, value) ∷ rest) _ _ same = absurd (ground (arith, same key, eq_refl key))
  entries-Perm ((key, value) ∷ rest) n (fresh, d) d' same =
      let found : lookup key n ≡ some value = ground (arith, same key, eq_refl key) in
      let others : (k : String) → lookup k rest ≡ lookup k (delete key n) =
        λ k. ground (arith, same k, lookup-delete key k n, eq_iff key k, fresh) in
      Perm.trans
        (Perm.cons (key, value)
          (entries-Perm rest (delete key n) d (delete-Distinct key n d') others))
        (Perm.symm (take_out key value n d' found))
