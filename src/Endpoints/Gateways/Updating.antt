-- ===== src/Endpoints/Gateways/Updating.antt =====
-- The statement that UpdateGateway builds.
use Prim.Native.String.{◌++◌ as text_append}
use backend_assessment.Prelude.{
  ℕ, ◌+◌, ◌≡◌, refl, Bool, true, false, Option, none, some, String, List, [], ◌∷◌, ◌++◌, map,
  length,
}
use backend_assessment.Http.{GatewayUpdateRequest, Services}
use backend_assessment.Endpoints.Gateways.{set_clause, update_query}

abbrev pub given : String → Option String → List (String × String)
given column none = []
given column (some value) = (column, value) ∷ []

-- The columns that a request sets, with their values: none but these two.
abbrev pub fields : GatewayUpdateRequest → List (String × String)
fields body = given "name" body.name ++ given "location" body.location

abbrev pub is_present : Option String → Bool
is_present none = false
is_present (some value) = true

module _ {W : Type 0} (sv : Services W) where
  -- `column = $i`, with placeholders numbered in order.
  abbrev pub numbered : ℕ → List (String × String) → List String
  numbered i [] = []
  numbered i ((column, value) ∷ rest) =
      text_append column (text_append " = $" (sv.decimal i)) ∷ numbered (i + 1) rest

  set_clause_of :
      (name location : Option String)
      → let c = set_clause sv (record { name = name; location = location }) in
        let fs = fields (record { name = name; location = location }) in
        (c.set_parts ≡ numbered 1 fs) × (c.args ≡ map (λ f. f.1) fs) × (c.arg_index ≡ length fs + 1)
  unfolding set_clause
  set_clause_of none none = (refl, refl, refl)
  set_clause_of none (some l) = (refl, refl, refl)
  set_clause_of (some n) none = (refl, refl, refl)
  set_clause_of (some n) (some l) = (refl, refl, refl)

  -- The SET clause of an update has a part for each field that the request gives and no other, name
  -- before location; the parts' placeholders are numbered from 1 in the order of the arguments,
  -- which are the fields' values; and the number left for the gateway's id is the next one.
  pub set_clause_lem :
      (body : GatewayUpdateRequest)
      → let c = set_clause sv body in
        (c.set_parts ≡ numbered 1 (fields body))
        × (c.args ≡ map (λ f. f.1) (fields body))
        × (c.arg_index ≡ length (fields body) + 1)
  set_clause_lem body = set_clause_of body.name body.location

  query_of :
      (name name' location location' : Option String)
      → is_present name ≡ is_present name'
      → is_present location ≡ is_present location'
      → update_query sv (set_clause sv (record { name = name; location = location }))
        ≡ update_query sv (set_clause sv (record { name = name'; location = location' }))
  unfolding set_clause update_query
  query_of none none none none p q = refl
  query_of none none (some l) (some l') p q = refl
  query_of (some n) (some n') none none p q = refl
  query_of (some n) (some n') (some l) (some l') p q = refl
  query_of none (some n') location location' p q = cc
  query_of (some n) none location location' p q = cc
  query_of _ _ none (some l') p q = cc
  query_of _ _ (some l) none p q = cc

  -- The text of the update statement depends only on which fields a request gives: two requests that
  -- give the same fields lead to the same text, whatever values they give.
  pub update_query_fixed :
      (body other : GatewayUpdateRequest)
      → is_present body.name ≡ is_present other.name
      → is_present body.location ≡ is_present other.location
      → update_query sv (set_clause sv body) ≡ update_query sv (set_clause sv other)
  update_query_fixed body other p q = query_of body.name other.name body.location other.location p q
