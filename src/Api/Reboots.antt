-- ===== src/Api/Reboots.antt =====
-- The route of a reboot: the limiter, and behind it the handler with its breaker.
use backend_assessment.Prelude.{ℕ, ◌≡◌, ◌≢◌, ◌⊎◌, true, false}
use backend_assessment.Floats.{Float64}
use backend_assessment.Http.{Request, Response, bytes, failure, unauthorized, Services}
use backend_assessment.Api.Limiter.{Limiter, take_token}

module _ (fl : Float64) {W : Type 0} (sv : Services W)
    (serve_mux : ℕ → Request → W → Response × W) where
  abbrev Answered : Limiter fl → Request → W → Response → Type 0
  Answered l r w response =
      ((r.user_id ≡ "") × (response ≡ unauthorized))
      ⊎ (((r.user_id ≢ "")
            × ((take_token fl sv.now l r.user_id w).0 ≡ true)
            × (response ≡ bytes "{\"status\":\"reboot_initiated\"}"))
          ⊎ ((r.user_id ≢ "")
              × ((take_token fl sv.now l r.user_id w).0 ≡ false)
              × (response ≡ failure "Rate limit exceeded" 429)))
