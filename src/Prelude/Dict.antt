-- ===== src/Prelude/Dict.antt =====
-- Go's `map[string]V`, as an association list: a read of a missing key finds nothing, a write
-- replaces, and `delete` of a missing key does nothing.
use Prim.Native.String.{String}
use mathlib.Core.Path.{◌≡◌, refl}
use mathlib.Core.Option.{Option, none, some}
use mathlib.Core.List.{List, [], ◌∷◌}
use native.Mathlib.Omega.{arith}
use text.Mathlib.Text.{◌==◌ as str_eq}
use text.Mathlib.TextEquality.{eq_iff}
use backend_assessment.Prelude.Tests.{if◌then◌else◌}

abbrev pub Dict {ℓ} : Type ℓ → Type ℓ
Dict V = List (String × V)

module _ {ℓ} {V : Type ℓ} where
  unfoldable pub lookup : String → Dict V → Option V
  lookup key [] = none
  lookup key ((other, old) ∷ entries) = if str_eq other key then some old else lookup key entries

  unfoldable pub insert : String → V → Dict V → Dict V
  insert key new [] = (key, new) ∷ []
  insert key new ((other, old) ∷ entries) =
      if str_eq other key then (key, new) ∷ entries else (other, old) ∷ insert key new entries

  -- Every entry of the key goes, so that the law below needs no invariant.
  unfoldable pub delete : String → Dict V → Dict V
  delete key [] = []
  delete key ((other, old) ∷ entries) =
      let rest = delete key entries in if str_eq other key then rest else (other, old) ∷ rest

  pub lookup-insert :
      (written asked : String) (new : V) (entries : Dict V)
      → lookup asked (insert written new entries)
        ≡ (if str_eq written asked then some new else lookup asked entries)
  unfolding lookup insert
  lookup-insert written asked new [] = refl
  lookup-insert written asked new ((other, old) ∷ entries) =
      let below = lookup-insert written asked new entries in
      ground (arith, eq_iff other written, eq_iff other asked, eq_iff written asked, below)

  pub lookup-delete :
      (removed asked : String) (entries : Dict V)
      → lookup asked (delete removed entries)
        ≡ (if str_eq removed asked then none else lookup asked entries)
  unfolding lookup delete
  lookup-delete removed asked [] = ground arith
  lookup-delete removed asked ((other, old) ∷ entries) =
      let below = lookup-delete removed asked entries in
      ground (arith, eq_iff other removed, eq_iff other asked, eq_iff removed asked, below)
