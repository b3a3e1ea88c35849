-- ===== src/Endpoints/Gateways/Rebooting.antt =====
-- A reboot and its breaker.
use backend_assessment.Prelude.{◌≡◌, ◌≢◌, eq_iff, arith}
use backend_assessment.Http.{Request, bytes, Services}
use backend_assessment.Reliability.Breaker.{default_breaker, call}
use backend_assessment.Endpoints.Gateways.{reboot_gateway, reboot_result}

-- The handler answers a known user with success, whatever the clock shows: the breaker is made for
-- this one request, closed, and what it guards does not fail.
pub reboot_never_refused :
    {W : Type 0} (sv : Services W) (r : Request) (w : W)
    → r.user_id ≢ ""
    → reboot_gateway sv r w ≡ (bytes "{\"status\":\"reboot_initiated\"}", w)
unfolding reboot_gateway reboot_result call default_breaker
reboot_never_refused sv r w known = ground (arith, eq_iff r.user_id "")
