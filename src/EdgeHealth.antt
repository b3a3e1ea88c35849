-- ===== src/EdgeHealth.antt =====
-- applications/edgehealth/processor.go, one call at a time. The clock and the database act on a world
-- `W`. A cached `*HealthStatus` is not changed once it is in the map, and `GetHealthStatus` copies
-- it, so the map holds values. Log lines are left out.
pub mod Checks
pub mod Statements
pub mod Threads
pub mod Loop
pub mod Cache
use Prim.Native.String.{◌++◌ as text_append}
use backend_assessment.Prelude.{
  ℕ, ◌*◌, Bool, true, false, Option, none, some, String, List, [], ◌∷◌, map, ℤ, pos, ltb_ℤ, inc64,
  since, if◌then◌else◌,
}
use backend_assessment.Prelude.Dict.{Dict, lookup, insert, delete}
use backend_assessment.Models.{Health, healthy, warning, critical, offline, health_text}

pub record HealthStatus : Type 0 where
  pub gateway_id : String
  pub status : Health
  pub last_checked : ℕ
  pub error_count : ℤ
  pub response_time : ℤ

-- The maps that the goroutines share.
pub record HealthProcessor : Type 0 where
  pub health_cache : Dict HealthStatus
  pub pending_checks : Dict Bool

unfoldable pub new_health_processor : HealthProcessor
new_health_processor = record { health_cache = []; pending_checks = [] }

-- The statements that the processor executes, with the arguments of their placeholders.
pub data Statement : Type 0 where
  update_gateway : String → ℕ → String → Statement
  insert_history : String → String → ℤ → ℕ → Statement
  insert_alert : String → String → String → ℕ → Statement

abbrev pub minutes : ℕ → ℤ
minutes n = pos (n * 60000000000)

-- The `switch` on the time since a gateway was seen.
unfoldable pub classify : ℤ → Health
classify elapsed =
    if ltb_ℤ elapsed (minutes 5)
    then healthy
    else if ltb_ℤ elapsed (minutes 15)
    then warning
    else if ltb_ℤ elapsed (minutes 30)
    then critical
    else offline

-- The error count of a check that follows a cached status.
unfoldable pub next_count : HealthStatus → Health → ℤ
next_count cached healthy = pos 0
next_count cached _ = inc64 cached.error_count

-- `determineHealthStatus`: the clock is read twice, and the map without a lock.
unfoldable pub determine_health_status :
    HealthProcessor → String → (last_seen checked now : ℕ) → HealthStatus
unfolding next_count
determine_health_status p id last_seen checked now =
    let status = classify (since now last_seen) in
    record {
      gateway_id = id;
      status = status;
      last_checked = checked;
      error_count = elim (lookup id p.health_cache) [ none ↦ pos 0 | some c ↦ next_count c status ];
      response_time = pos 0;
    }

-- `checkGatewayHealth` counts once more, from the status that it read under the lock.
unfoldable pub recount : Option HealthStatus → HealthStatus → HealthStatus
unfolding next_count
recount none s = s
recount (some cached) s = record s { error_count = next_count cached s.status }

-- A key that is not in the map reads as false.
unfoldable pub is_pending : HealthProcessor → String → Bool
is_pending p id = elim (lookup id p.pending_checks) [ none ↦ false | some b ↦ b ]

unfoldable pub mark_pending : HealthProcessor → String → HealthProcessor
mark_pending p id = record p { pending_checks = insert id true p.pending_checks }

unfoldable pub commit : HealthProcessor → String → HealthStatus → HealthProcessor
commit p id s = record p { health_cache = insert id s p.health_cache }

unfoldable pub clear_pending : HealthProcessor → String → HealthProcessor
clear_pending p id = record p { pending_checks = delete id p.pending_checks }

abbrev pub is_critical : Health → Bool
is_critical critical = true
is_critical _ = false

-- `fmt.Sprintf` with the decimal format of the count, which is a parameter.
unfoldable pub alert_message : (ℤ → String) → HealthStatus → String
unfolding health_text
alert_message decimal s = text_append "Gateway health is " (
    text_append (health_text s.status)
      (text_append " with " (text_append (decimal s.error_count) " consecutive errors")))

-- `now` reads the clock; `exec` says whether the statement went through.
module _ {W : Type 0} (now : W → ℕ × W) (exec : Statement → W → Bool × W)
    (decimal : ℤ → String) where
  -- `updateHealthInDatabase`: no history is written after a failed update.
  unfoldable pub update_health_in_database : HealthStatus → W → W
  update_health_in_database s w =
      let (time, w₁) = now w in
      let (updated, w₂) = exec (update_gateway (health_text s.status) time s.gateway_id) w₁ in
      if updated
      then (exec (insert_history s.gateway_id (health_text s.status) s.error_count s.last_checked)
          w₂).1
      else w₂

  unfoldable pub trigger_health_alert : HealthStatus → W → W
  trigger_health_alert s w =
      let (time, w₁) = now w in
      (exec (insert_alert s.gateway_id "critical" (alert_message decimal s) time) w₁).1

  -- What `checkGatewayHealth` does outside the locks after the commit.
  unfoldable pub report : HealthStatus → W → W
  report s w =
      let w₁ = update_health_in_database s w in
      if is_critical s.status then trigger_health_alert s w₁ else w₁

  -- `checkGatewayHealth` with no other goroutine at work; the flag is then the same at both tests.
  unfoldable pub check_gateway_health : HealthProcessor → String → ℕ → W → HealthProcessor × W
  check_gateway_health p id last_seen w =
      if is_pending p id
      then (p, w)
      else (let marked = mark_pending p id in
          let cached = lookup id marked.health_cache in
          let (checked, w₁) = now w in
          let (time, w₂) = now w₁ in
          let status = recount cached (determine_health_status marked id last_seen checked time) in
          let committed = commit marked id status in (clear_pending committed id, report status w₂))

-- `GetHealthStatus`: `none` is the error for a gateway that has no entry.
unfoldable pub get_health_status : HealthProcessor → String → Option HealthStatus
get_health_status p id = lookup id p.health_cache

-- `GetAllHealthStatuses`; the order of Go's iteration is not fixed.
unfoldable pub get_all_health_statuses : HealthProcessor → List HealthStatus
get_all_health_statuses p = map (λ e. e.1) p.health_cache

-- `ClearCache`
unfoldable pub clear_cache : HealthProcessor → HealthProcessor
clear_cache p = record p { health_cache = []; pending_checks = [] }
