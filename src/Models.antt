-- ===== src/Models.antt =====
-- internal/models/gateway.go: the records of the database rows, and the health states, which the
-- source keeps as strings. Times are in nanoseconds.
use backend_assessment.Prelude.{ℕ, String}

pub data Health : Type 0 where
  healthy warning critical offline : Health

-- The constants `HealthStatusHealthy` and so on, as the database sees them.
unfoldable pub health_text : Health → String
health_text healthy = "healthy"
health_text warning = "warning"
health_text critical = "critical"
health_text offline = "offline"

pub record Gateway : Type 0 where
  pub id : String
  pub serial : String
  pub organization_id : String
  pub site_id : String
  pub name : String
  pub health_status : String
  pub last_seen : ℕ
  pub version : String
  pub ip_address : String
  pub location : String
  pub created_at : ℕ
  pub updated_at : ℕ

pub record User : Type 0 where
  pub id : String
  pub email : String
  pub organization_id : String
  pub role : String
  pub created_at : ℕ
  pub updated_at : ℕ

pub record Organization : Type 0 where
  pub id : String
  pub name : String
  pub settings : String
  pub created_at : ℕ
  pub updated_at : ℕ
