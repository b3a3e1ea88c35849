-- ===== src/MessageProcessor.antt =====
-- applications/messageprocessor/worker.go: what a worker does with one message. The connection pool and
-- the clock act on a world `W`; `time.Parse` and `json.Marshal` are parameters. Tracing spans and
-- log lines are left out.
pub mod Leaks
pub mod Required
pub mod Statements
pub mod Queue
use backend_assessment.Prelude.{
  ℕ, Bool, true, false, Option, none, some, String, List, ℤ, pos, ltb_ℤ, since, if◌then◌else◌,
  str_eq,
}
use backend_assessment.Prelude.Dict.{Dict, lookup}
use backend_assessment.Models.{Health, healthy, warning, health_text}

-- A value of a JSON payload; the code only asks whether it is a string.
pub data Value : Type 0 where
  text : String → Value
  other : ℕ → Value

pub record GatewayMessage : Type 0 where
  pub gateway_id : String
  pub message_type : String
  pub timestamp : ℕ
  pub payload : Dict Value

-- The cases of the `switch` in `processMessage`.
pub data Kind : Type 0 where
  heartbeat app_status metrics alert deployment unknown : Kind

unfoldable pub kind_of : String → Kind
kind_of s =
    if str_eq s "heartbeat"
    then heartbeat
    else if str_eq s "app_status"
    then app_status
    else if str_eq s "metrics"
    then metrics
    else if str_eq s "alert"
    then alert
    else if str_eq s "deployment"
    then deployment
    else unknown

abbrev pub as_text : Option Value → Option String
as_text (some (text s)) = some s
as_text _ = none

-- `msg.Payload[key].(string)`
abbrev pub field : GatewayMessage → String → Option String
field msg key = as_text (lookup key msg.payload)

-- The statements, with the arguments of their placeholders.
pub data Statement : Type 0 where
  touch_gateway : ℕ → String → String → Statement
  upsert_app_status : String → String → String → ℕ → Statement
  insert_metrics : String → String → ℕ → Statement
  insert_alert : String → String → String → ℕ → Statement
  update_deployment : String → ℕ → String → String → Statement

-- The `DB` and `Conn` interfaces of the source, the clock, and two library functions.
pub record Services (W C : Type 0) : Type 0 where
  pub acquire : W → Option C × W
  pub exec : C → Statement → W → Bool × W
  pub release : C → W → W
  pub now : W → ℕ × W
  pub parse_time : String → Option ℕ
  pub marshal : Dict Value → Option String

module _ {W C : Type 0} (sv : Services W C) where
  -- A handler's `Acquire`, and its body with the deferred `Release`.
  unfoldable pub release_after : (C → W → W) → Option C × W → W
  release_after body (none, w) = w
  release_after body (some conn, w) = sv.release conn (body conn w)

  unfoldable pub with_connection : (C → W → W) → W → W
  with_connection body w = release_after body (sv.acquire w)

  abbrev pub five_minutes : ℤ
  five_minutes = pos 300000000000

  -- The clock is read only if there is a time to compare with.
  unfoldable pub heartbeat_status : Option ℕ → W → Health × W
  heartbeat_status none w = (healthy, w)
  heartbeat_status (some last_seen) w =
      let (time, w') = sv.now w in
      (if ltb_ℤ five_minutes (since time last_seen) then warning else healthy, w')

  abbrev pub parse_field : Option String → Option ℕ
  parse_field none = none
  parse_field (some s) = sv.parse_time s

  unfoldable pub process_heartbeat : GatewayMessage → C → W → W
  process_heartbeat msg conn w =
      let (status, w') = heartbeat_status (parse_field (field msg "last_seen")) w in
      (sv.exec conn (touch_gateway msg.timestamp (health_text status) msg.gateway_id) w').1

  unfoldable pub process_app_status : GatewayMessage → C → W → W
  process_app_status msg conn w = elim (field msg "app_id") [
    | none ↦ w
    | some app_id ↦ elim (field msg "status") [
      | none ↦ w
      | some status ↦
          (sv.exec conn (upsert_app_status msg.gateway_id app_id status msg.timestamp) w).1
    ]
  ]

  unfoldable pub process_metrics : GatewayMessage → C → W → W
  process_metrics msg conn w = elim (sv.marshal msg.payload) [
    | none ↦ w
    | some json ↦ (sv.exec conn (insert_metrics msg.gateway_id json msg.timestamp) w).1
  ]

  abbrev pub severity_of : Option String → String
  severity_of none = "info"
  severity_of (some s) = s

  unfoldable pub process_alert : GatewayMessage → C → W → W
  process_alert msg conn w =
      let severity = severity_of (field msg "severity") in
      elim (field msg "message") [
        | none ↦ w
        | some message ↦
            (sv.exec conn (insert_alert msg.gateway_id severity message msg.timestamp) w).1
      ]

  unfoldable pub process_deployment : GatewayMessage → C → W → W
  process_deployment msg conn w = elim (field msg "deployment_id") [
    | none ↦ w
    | some deployment_id ↦ elim (field msg "status") [
      | none ↦ w
      | some status ↦
          (sv.exec conn (update_deployment status msg.timestamp deployment_id msg.gateway_id) w).1
    ]
  ]

  -- The `switch`; an unknown type acquires nothing.
  unfoldable pub dispatch : Kind → GatewayMessage → W → W
  dispatch heartbeat msg w = with_connection (process_heartbeat msg) w
  dispatch app_status msg w = with_connection (process_app_status msg) w
  dispatch metrics msg w = with_connection (process_metrics msg) w
  dispatch alert msg w = with_connection (process_alert msg) w
  dispatch deployment msg w = with_connection (process_deployment msg) w
  dispatch unknown msg w = w

  -- `processMessage`
  unfoldable pub process_message : GatewayMessage → W → W
  process_message msg w = dispatch (kind_of msg.message_type) msg w
