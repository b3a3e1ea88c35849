-- ===== src/Endpoints/Gateways.antt =====
-- internal/endpoints/gateways.go. The cache is a package variable behind its own lock, which holds it
-- for one read or one write at a time; here a handler runs alone and returns the new cache.
pub mod Caching
pub mod Updating
pub mod Rebooting
use Prim.Native.String.{◌++◌ as text_append}
use backend_assessment.Prelude.{
  ℕ, ◌+◌, Bool, true, false, Option, none, some, String, List, [], ◌∷◌, ◌++◌, pos, if◌then◌else◌,
  str_eq,
}
use backend_assessment.Prelude.Dict.{Dict, lookup, insert}
use backend_assessment.Models.{Gateway}
use backend_assessment.Http.{
  Request, Response, failure, json, bytes, unauthorized, internal_error, Scanned, row, scan_error,
  GatewayUpdateRequest, Services, scan_all,
}
use backend_assessment.Reliability.Breaker.{Error, default_breaker, call}

abbrev pub Cache : Type 0
Cache = Dict (List Gateway)

abbrev pub columns : String
columns =
    "id, serial, organization_id, site_id, name, health_status, last_seen, version, ip_address, location, created_at, updated_at"

abbrev pub select_gateways : String
select_gateways = text_append "SELECT " (text_append columns " FROM gateways")

abbrev pub cache_key : String → String
cache_key search = text_append "gateways_" search

-- The query and its arguments for a search text.
unfoldable pub list_query : String → String × List String
list_query search = if str_eq search "" then (select_gateways, []) else (
  text_append select_gateways " WHERE name LIKE $1 OR serial LIKE $1",
  text_append "%" (text_append search "%") ∷ [],
)

module _ {W : Type 0} (sv : Services W) where
  -- The rows of a query that went through are cached, also if some did not scan.
  unfoldable pub list_result :
      Cache → String → Option (List (Option Gateway)) × W → Response × Cache × W
  list_result cache key (none, w) = (internal_error, cache, w)
  list_result cache key (some rows, w) =
      let gateways = scan_all rows in
      (json (sv.encode_gateways gateways), insert key gateways cache, w)

  unfoldable pub list_uncached : Cache → String → W → Response × Cache × W
  list_uncached cache search w =
      let (query, args) = list_query search in
      list_result cache (cache_key search) (sv.query_gateways query args w)

  -- `ListGateways`
  unfoldable pub list_gateways : Cache → Request → W → Response × Cache × W
  list_gateways cache r w =
      if str_eq r.user_id ""
      then (unauthorized, cache, w)
      else elim (lookup (cache_key r.search) cache) [
        | some gateways ↦ (json (sv.encode_gateways gateways), cache, w)
        | none ↦ list_uncached cache r.search w
      ]

  unfoldable pub get_result : Scanned Gateway × W → Response × W
  get_result (row g, w) = (json (sv.encode_gateway g), w)
  get_result (scan_error e, w) = (
    if str_eq e "no rows in result set" then failure "Gateway not found" 404 else internal_error,
    w,
  )

  -- `GetGateway`
  unfoldable pub get_gateway : Request → W → Response × W
  get_gateway r w =
      if str_eq r.user_id ""
      then (unauthorized, w)
      else get_result
          (sv.query_gateway (text_append select_gateways " WHERE id = $1") (r.id ∷ []) w)

  -- The SET clause so far: its parts, its arguments, and the number of the next placeholder.
  pub record Clause : Type 0 where
    pub set_parts : List String
    pub args : List String
    pub arg_index : ℕ

  -- One `if body.X != nil`.
  unfoldable pub add_field : String → Option String → Clause → Clause
  add_field column none c = c
  add_field column (some value) c = record {
    set_parts =
        c.set_parts ++ text_append column (text_append " = $" (sv.decimal c.arg_index)) ∷ [];
    args = c.args ++ value ∷ [];
    arg_index = c.arg_index + 1;
  }

  unfoldable pub set_clause : GatewayUpdateRequest → Clause
  unfolding add_field
  set_clause body =
      add_field "location" body.location
        (add_field "name" body.name (record { set_parts = []; args = []; arg_index = 1 }))

  -- `strings.Join`
  unfoldable pub join : String → List String → String
  join sep [] = ""
  join sep (s ∷ []) = s
  join sep (s ∷ t ∷ rest) = text_append s (text_append sep (join sep (t ∷ rest)))

  unfoldable pub update_query : Clause → String
  update_query c =
      text_append "UPDATE gateways SET "
        (text_append (join ", " c.set_parts) (text_append " WHERE id = $" (sv.decimal c.arg_index)))

  unfoldable pub update_result : Bool × W → Response × W
  update_result (true, w) = (bytes "{\"status\":\"updated\"}", w)
  update_result (false, w) = (internal_error, w)

  unfoldable pub run_update : String → Clause → W → Response × W
  run_update id c w = elim c.set_parts [
    | [] ↦ (failure "No valid fields to update" 400, w)
    | part ∷ parts ↦ update_result (sv.exec (update_query c) (c.args ++ id ∷ []) w)
  ]

  -- `UpdateGateway`
  unfoldable pub update_gateway : Request → W → Response × W
  update_gateway r w =
      if str_eq r.user_id "" then (unauthorized, w) else elim (sv.decode_update r.body) [
        | none ↦ (failure "Invalid JSON" 400, w)
        | some body ↦ run_update r.id (set_clause body) w
      ]

  -- The function that a reboot runs through its breaker: it logs, and succeeds.
  abbrev pub send_reboot : W → Option Error × W
  send_reboot w = (none, w)

  unfoldable pub reboot_result : Option Error → Response
  reboot_result none = bytes "{\"status\":\"reboot_initiated\"}"
  reboot_result (some e) = failure "Service temporarily unavailable" 503

  -- `RebootGateway`: each request has a breaker of its own.
  unfoldable pub reboot_gateway : Request → W → Response × W
  reboot_gateway r w =
      if str_eq r.user_id ""
      then (unauthorized, w)
      else (let (err, breaker, w') = call (λ v. (sv.now v).0) send_reboot default_breaker w in
          (reboot_result err, w'))
