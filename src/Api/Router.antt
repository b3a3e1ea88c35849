-- ===== src/Api/Router.antt =====
-- internal/api/server.go: `Router` and `healthCheck`. Which route a request takes is gorilla/mux's
-- work, so the route is given. The gateway cache, a variable of the package endpoints, is kept with
-- the server's state. The tracing wrappers are left out.
use backend_assessment.Prelude.{ℕ, ◌≡◌, ◌≢◌, refl, eq_iff, arith}
use backend_assessment.Floats.{Float64}
use backend_assessment.Http.{Request, Response, json, unauthorized, Services}
use backend_assessment.Api.Limiter.{Limiter, with_rate_limit}
use backend_assessment.Endpoints.Gateways.{
  Cache, list_gateways, get_gateway, update_gateway, reboot_gateway,
}
use backend_assessment.Endpoints.Users.{list_users, get_user}
use backend_assessment.Endpoints.Organizations.{list_organizations}

pub data Route : Type 0 where
  health list_gateways_route get_gateway_route update_gateway_route reboot_gateway_route : Route
  list_users_route get_user_route list_organizations_route debug_vars : Route

pub record Server (fl : Float64) : Type 0 where
  pub limiter : Limiter fl
  pub gateway_cache : Cache

-- `healthCheck`
unfoldable pub health_check : {W : Type 0} → Request → W → Response × W
health_check r w = (json "{\"status\":\"healthy\"}", w)

-- `serve_mux` is `http.DefaultServeMux`, where the package expvar has put its page: the variables,
-- with the count of the dropped requests. It answers whoever asks.
module _ (fl : Float64) {W : Type 0} (sv : Services W)
    (serve_mux : ℕ → Request → W → Response × W) where
  abbrev stateless : Server fl → Response × W → Response × Server fl × W
  stateless s (response, w) = (response, s, w)

  unfoldable pub handle : Route → Server fl → Request → W → Response × Server fl × W
  handle health s r w = stateless s (health_check r w)
  handle list_gateways_route s r w =
      let (response, cache, w') = list_gateways sv s.gateway_cache r w in
      (response, record s { gateway_cache = cache }, w')
  handle get_gateway_route s r w = stateless s (get_gateway sv r w)
  handle update_gateway_route s r w = stateless s (update_gateway sv r w)
  handle reboot_gateway_route s r w =
      let (response, l, w') = with_rate_limit fl sv.now (reboot_gateway sv) s.limiter r w in
      (response, record s { limiter = l }, w')
  handle list_users_route s r w = stateless s (list_users sv r w)
  handle get_user_route s r w = stateless s (get_user sv r w)
  handle list_organizations_route s r w = stateless s (list_organizations sv r w)
  handle debug_vars s r w = stateless s (serve_mux s.limiter.rl_dropped r w)

  -- On every route of the API, which the health check and /debug/vars are not, a request without the header X-User-ID gets 401: no
  -- statement reaches the database, no token is taken, nothing is cached.
  pub handle_anonymous :
      (route : Route) (s : Server fl) (r : Request) (w : W)
      → route ≢ health
      → route ≢ debug_vars
      → r.user_id ≡ ""
      → handle route s r w ≡ (unauthorized, s, w)
  unfolding handle list_gateways get_gateway update_gateway with_rate_limit list_users get_user
      list_organizations
  handle_anonymous health s r w checked served nobody = absurd (checked refl)
  handle_anonymous debug_vars s r w checked served nobody = absurd (served refl)
  handle_anonymous list_gateways_route s r w checked served nobody =
      ground (arith, eq_iff r.user_id "")
  handle_anonymous _ s r w checked served nobody = ground (arith, eq_iff r.user_id "")
