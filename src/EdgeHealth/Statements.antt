-- ===== src/EdgeHealth/Statements.antt =====
-- The statements that one check executes.
use backend_assessment.Prelude.{
  ℕ, ◌≡◌, refl, ap, ◌∙◌, if◌then◌else◌, Bool, true, false, String, List, [], ◌∷◌, ◌++◌, ℤ, arith,
}
use backend_assessment.Prelude.Dict.{lookup}
use backend_assessment.Models.{Health, healthy, warning, critical, offline, health_text}
use backend_assessment.EdgeHealth.{
  HealthProcessor, HealthStatus, Statement, update_gateway, insert_history, insert_alert,
  is_pending, is_critical, alert_message, update_health_in_database, trigger_health_alert, report,
  check_gateway_health,
}
use backend_assessment.EdgeHealth.Checks.{new_status, check-settled}

module _ {W : Type 0} (now : W → ℕ × W) (exec : Statement → W → Bool × W) (decimal : ℤ → String)
    (log : W → List Statement) where
  -- The world keeps the statements, the newest first.
  pub record Logs : Type 0 where
    pub by_now : (v : W) → log (now v).1 ≡ log v
    pub by_exec : (s : Statement) (v : W) → log (exec s v).1 ≡ s ∷ log v

  abbrev pub history_of : HealthStatus → Bool → List Statement
  history_of s true =
      insert_history s.gateway_id (health_text s.status) s.error_count s.last_checked ∷ []
  history_of s false = []

  -- What is alerted of a status of a class.
  abbrev pub alert_of : HealthStatus → ℕ → Health → List Statement
  alert_of s time critical =
      insert_alert s.gateway_id "critical" (alert_message decimal s) time ∷ []
  alert_of s time healthy = []
  alert_of s time warning = []
  alert_of s time offline = []

  alert_if : HealthStatus → ℕ → Bool → List Statement
  alert_if s time true = insert_alert s.gateway_id "critical" (alert_message decimal s) time ∷ []
  alert_if s time false = []

  alert_if-is_critical :
      (s : HealthStatus) (time : ℕ) (class : Health)
      → alert_if s time (is_critical class) ≡ alert_of s time class
  unfolding alert_if
  alert_if-is_critical s time critical = refl
  alert_if-is_critical s time healthy = refl
  alert_if-is_critical s time warning = refl
  alert_if-is_critical s time offline = refl

  log-alert :
      (s : HealthStatus) (u : W) (b : Bool)
      → Logs
      → log (if b then trigger_health_alert now exec decimal s u else u)
        ≡ alert_if s (now u).0 b ++ log u
  unfolding alert_if trigger_health_alert
  log-alert s u true lg =
      let alert = insert_alert s.gateway_id "critical" (alert_message decimal s) (now u).0 in
      ground (arith, lg.by_now u, lg.by_exec alert (now u).1)
  log-alert s u false lg = refl

  log-update :
      (s : HealthStatus) (w : W)
      → Logs
      → let update = update_gateway (health_text s.status) (now w).0 s.gateway_id in
        log (update_health_in_database now exec decimal s w)
        ≡ history_of s (exec update (now w).1).0 ++ update ∷ log w
  unfolding update_health_in_database
  log-update s w lg =
      let update = update_gateway (health_text s.status) (now w).0 s.gateway_id in
      let row = insert_history s.gateway_id (health_text s.status) s.error_count s.last_checked in
      ground
        (arith, lg.by_now w, lg.by_exec update (now w).1, lg.by_exec row (exec update (now w).1).1)

  log-report :
      (s : HealthStatus) (w : W)
      → Logs
      → let u = update_health_in_database now exec decimal s w in
        log (report now exec decimal s w) ≡ alert_of s (now u).0 s.status ++ log u
  unfolding report
  log-report s w lg =
      let u = update_health_in_database now exec decimal s w in
      log-alert s u (is_critical s.status) lg
      ∙ ap (λ alerts. alerts ++ log u) (alert_if-is_critical s (now u).0 s.status)

  -- A check that is not skipped executes the update of the gateway, then the history row if the
  -- update went through, then an alert exactly if the class is critical (none if the gateway is offline).
  pub check_statements :
      (p : HealthProcessor) (id : String) (last_seen : ℕ) (w : W)
      → is_pending p id ≡ false
      → Logs
      → let v = (now (now w).1).1 in
        let s = new_status (lookup id p.health_cache) id last_seen (now w).0 (now (now w).1).0 in
        let update = update_gateway (health_text s.status) (now v).0 id in
        let u = update_health_in_database now exec decimal s v in
        log (check_gateway_health now exec decimal p id last_seen w).1
        ≡ alert_of s (now u).0 s.status
          ++ (history_of s (exec update (now v).1).0 ++ update ∷ log w)
  check_statements p id last_seen w free lg =
      let v = (now (now w).1).1 in
      let s = new_status (lookup id p.health_cache) id last_seen (now w).0 (now (now w).1).0 in
      rw (check-settled now exec decimal p id last_seen w free)
        (rw (log-report s v lg, log-update s v lg, lg.by_now (now w).1, lg.by_now w))
