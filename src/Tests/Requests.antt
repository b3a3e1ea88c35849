-- ===== src/Tests/Requests.antt =====
-- Requests to the API, over a database that holds one gateway.
use backend_assessment.Prelude.{
  ℕ, ◌+◌, ◌-◌, ◌≡◌, ◌≢◌, refl, true, false, none, some, String, [], ◌∷◌, map, length, pos, eq_iff,
  arith, if◌then◌else◌, ◌==◌,
}
use backend_assessment.Prelude.Dict.{lookup}
use backend_assessment.Http.{
  Request, Response, json, unauthorized, Services, GatewayUpdateRequest, scan_error,
}
use backend_assessment.Api.Limiter.{Limiter}
use backend_assessment.Api.Limiter.Burst.{decisions, burst_passes}
use backend_assessment.Api.Limiter.Answers.{answers, Served, burst_answers}
use backend_assessment.Api.Router.{
  Server, handle, update_gateway_route, debug_vars, handle_anonymous,
}
use backend_assessment.Endpoints.Gateways.{
  list_gateways, set_clause, update_query, reboot_gateway, list_uncached, list_result, list_query,
  join,
}
use backend_assessment.Endpoints.Gateways.Caching.{list_gateways_again}
use backend_assessment.Endpoints.Gateways.Updating.{numbered, fields, set_clause_lem}
use backend_assessment.Tests.Numbers.{whole, whole-IsExact}

-- The world counts the queries; the clock stands still.
abbrev services : Services ℕ
services = record {
  query_gateways = λ q args w. (some (none ∷ []), w + 1);
  query_users = λ q args w. (some [], w + 1);
  query_organizations = λ q args w. (none, w + 1);
  query_gateway = λ q args w. (scan_error "no rows in result set", w + 1);
  query_user = λ q args w. (scan_error "closed pool", w + 1);
  exec = λ q args w. (true, w + 1);
  now = λ w. (100, w);
  encode_gateways = λ gs. "[]";
  encode_gateway = λ g. "{}";
  encode_users = λ us. "[]";
  encode_user = λ u. "{}";
  encode_organizations = λ os. "[]";
  decode_update = λ body. some (record { name = some body; location = none });
  decimal = λ n. if n == 1 then "1" else if n == 2 then "2" else "3";
}

abbrev request : String → String → Request
request user search = record { user_id = user; id = "g1"; search = search; body = "HQ" }

abbrev rename : GatewayUpdateRequest
rename = record { name = some "HQ"; location = none }

rename_query :
    update_query services (set_clause services rename)
    ≡ "UPDATE gateways SET name = $1 WHERE id = $2"
unfolding update_query set_clause join
rename_query = refl

set_clause_lem_example :
    let c = set_clause services rename in
    (c.set_parts ≡ numbered services 1 (fields rename))
    × (c.args ≡ map (λ f. f.1) (fields rename))
    × (c.arg_index ≡ length (fields rename) + 1)
set_clause_lem_example = set_clause_lem services rename

known : ◌≢◌ {A = String} "u1" ""
known = ground (arith, eq_iff "u1" "")

list_gateways_again_example :
    let kept = (list_gateways services [] (request "u1" "HQ") 0).1 in
    list_gateways services kept (request "u1" "HQ") 7 ≡ (json "[]", kept, 7)
unfolding list_gateways list_uncached list_result lookup list_query
list_gateways_again_example =
    list_gateways_again services [] (request "u1" "HQ") (request "u1" "HQ") 0 7 "[]" refl refl known

searches_differ : ◌≢◌ {A = String} "plant" "HQ"
searches_differ = ground (arith, eq_iff "plant" "HQ")

abbrev limiter : Limiter whole
limiter = record {
  rate_limit_rpm = pos 600;
  rate_limit_burst = pos 2;
  buckets = [];
  rl_dropped = 0;
}

burst_passes_example : decisions whole services.now 3 limiter "u1" 0 ≡ true ∷ true ∷ false ∷ []
unfolding lookup
burst_passes_example =
    burst_passes whole services.now (pos 600) 2 100 3 limiter "u1" 0 whole-IsExact (omega arith)
      (λ v. refl) refl refl refl

burst_answers_example :
    let (responses, l) =
      answers whole services.now (reboot_gateway services) 3 limiter (request "u1" "") 0 in
    Served whole services.now
      (reboot_gateway services)
      (request "u1" "")
      (true ∷ true ∷ false ∷ [])
      responses
    × (l.rl_dropped ≡ 0 + (3 - 2))
unfolding lookup
burst_answers_example =
    burst_answers whole services.now (reboot_gateway services) (pos 600) 2 100 3 limiter
      (request "u1" "") 0 whole-IsExact (omega arith) (λ v. refl) refl refl known refl

abbrev server : Server whole
server = record { limiter = limiter; gateway_cache = [] }

-- The page of expvar, here without its text.
abbrev serve_mux : ℕ → Request → ℕ → Response × ℕ
serve_mux rl_dropped r w = (json "{}", w)

handle_anonymous_example :
    handle whole services serve_mux update_gateway_route server (request "" "") 0
    ≡ (unauthorized, server, 0)
handle_anonymous_example =
    handle_anonymous whole services serve_mux update_gateway_route server (request "" "") 0
      (λ e. cc) (λ e. cc) refl

-- It is shown to anybody.
shown : (handle whole services serve_mux debug_vars server (request "" "") 0).0 ≡ json "{}"
unfolding handle
shown = refl
