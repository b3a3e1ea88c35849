-- ===== src/Http.antt =====
-- What the handlers use of net/http, gorilla/mux, encoding/json and the connection pool. A handler
-- takes a request and a world, on which the database acts, and gives the response that it wrote.
use backend_assessment.Prelude.{ℕ, Bool, Option, none, some, String, List, [], ◌∷◌}
use backend_assessment.Models.{Gateway, User, Organization}

pub record Request : Type 0 where
  -- The header X-User-ID, empty if it is missing.
  pub user_id : String
  -- The path variable `id` and the query parameter `search`, empty if missing.
  pub id : String
  pub search : String
  pub body : String

-- `http.Error` with a text and a status, a JSON document, or plain bytes with status 200.
pub data Response : Type 0 where
  failure : String → ℕ → Response
  json : String → Response
  bytes : String → Response

abbrev pub unauthorized : Response
unauthorized = failure "Unauthorized" 401

abbrev pub internal_error : Response
internal_error = failure "Internal server error" 500

-- What `QueryRow(...).Scan` gives: a row, or an error with its text.
pub data Scanned (A : Type 0) : Type 0 where
  row : A → Scanned A
  scan_error : String → Scanned A

-- The fields that a request to update a gateway may set; null and missing are `none`.
pub record GatewayUpdateRequest : Type 0 where
  pub name : Option String
  pub location : Option String

-- The pool: a query gives an error or its rows, of which some may not scan; `exec` says whether it
-- went through. The encoders of the JSON documents and the decoder of a body are parameters too,
-- and so is the decimal format of a number.
pub record Services (W : Type 0) : Type 0 where
  pub query_gateways : String → List String → W → Option (List (Option Gateway)) × W
  pub query_users : String → List String → W → Option (List (Option User)) × W
  pub query_organizations : String → List String → W → Option (List (Option Organization)) × W
  pub query_gateway : String → List String → W → Scanned Gateway × W
  pub query_user : String → List String → W → Scanned User × W
  pub exec : String → List String → W → Bool × W
  pub now : W → ℕ × W
  pub encode_gateways : List Gateway → String
  pub encode_gateway : Gateway → String
  pub encode_users : List User → String
  pub encode_user : User → String
  pub encode_organizations : List Organization → String
  pub decode_update : String → Option GatewayUpdateRequest
  pub decimal : ℕ → String

-- The loop over the rows: one that does not scan is logged and skipped.
unfoldable pub scan_all {ℓ} : {A : Type ℓ} → List (Option A) → List A
scan_all [] = []
scan_all (none ∷ rows) = scan_all rows
scan_all (some a ∷ rows) = a ∷ scan_all rows
