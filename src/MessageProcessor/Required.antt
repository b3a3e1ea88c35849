-- ===== src/MessageProcessor/Required.antt =====
-- What a statement must say to answer a message.
use mathlib.Core.List.{map}
use backend_assessment.Prelude.{ℕ, ◌≡◌, some, String, List, [], ◌∷◌}
use backend_assessment.MessageProcessor.{
  GatewayMessage, Kind, heartbeat, app_status, metrics, alert, deployment, unknown, field,
  Statement, touch_gateway, upsert_app_status, insert_metrics, insert_alert, update_deployment,
}

-- The payload fields that a message of each kind must have as texts.
abbrev pub required : Kind → List String
required heartbeat = []
required app_status = "app_id" ∷ "status" ∷ []
required metrics = []
required alert = "message" ∷ []
required deployment = "deployment_id" ∷ "status" ∷ []
required unknown = []

-- The kind of message that a statement belongs to.
abbrev pub about : Statement → Kind
about (touch_gateway time status id) = heartbeat
about (upsert_app_status id app status time) = app_status
about (insert_metrics id json time) = metrics
about (insert_alert id severity message time) = alert
about (update_deployment status time deployment_id id) = deployment

abbrev pub gateway_of : Statement → String
gateway_of (touch_gateway time status id) = id
gateway_of (upsert_app_status id app status time) = id
gateway_of (insert_metrics id json time) = id
gateway_of (insert_alert id severity message time) = id
gateway_of (update_deployment status time deployment_id id) = id

abbrev pub time_of : Statement → ℕ
time_of (touch_gateway time status id) = time
time_of (upsert_app_status id app status time) = time
time_of (insert_metrics id json time) = time
time_of (insert_alert id severity message time) = time
time_of (update_deployment status time deployment_id id) = time

-- What a statement stores of the required fields, in their order.
abbrev pub stored : Statement → List String
stored (touch_gateway time status id) = []
stored (upsert_app_status id app status time) = app ∷ status ∷ []
stored (insert_metrics id json time) = []
stored (insert_alert id severity message time) = message ∷ []
stored (update_deployment status time deployment_id id) = deployment_id ∷ status ∷ []

-- A statement that does what a message of this kind asks for.
pub record Answers (k : Kind) (msg : GatewayMessage) (s : Statement) : Type 0 where
  pub same_kind : about s ≡ k
  pub same_gateway : gateway_of s ≡ msg.gateway_id
  pub same_time : time_of s ≡ msg.timestamp
  pub fields_stored : map (field msg) (required k) ≡ map some (stored s)
