-- ===== src/Migrate/Scripts.antt =====
-- The migrations of cmd/migrate/main.go. Their scripts are lists of commands with the texts that are
-- sent; comments and line breaks of the scripts are left out.
use Prim.Native.String.{◌++◌ as text_append}
use backend_assessment.Prelude.{String, List, [], ◌∷◌, pos}
use backend_assessment.Migrate.{Migration}

-- What a CREATE TABLE lists: columns, with the text behind the name, those that refer to the id of
-- another table, whose rows take theirs with them, and a key of two columns.
pub data Column : Type 0 where
  column : (name definition : String) → Column
  reference : (name definition table : String) → Column
  primary_key : (first second : String) → Column

pub data Command : Type 0 where
  create_table : String → List Column → Command
  create_index : (name table column : String) → Command
  drop_table : String → Command

unfoldable pub concat : List String → String
concat [] = ""
concat (s ∷ rest) = text_append s (concat rest)

unfoldable pub column_text : Column → String
unfolding concat
column_text (column name definition) = concat (name ∷ " " ∷ definition ∷ [])
column_text (reference name definition table) =
    concat (name ∷ " " ∷ definition ∷ " REFERENCES " ∷ table ∷ "(id) ON DELETE CASCADE" ∷ [])
column_text (primary_key first second) = concat ("PRIMARY KEY (" ∷ first ∷ ", " ∷ second ∷ ")" ∷ [])

unfoldable pub columns_text : List Column → String
unfolding column_text
columns_text [] = ""
columns_text (c ∷ []) = column_text c
columns_text (c ∷ d ∷ rest) =
    text_append (column_text c) (text_append ", " (columns_text (d ∷ rest)))

unfoldable pub command_text : Command → String
unfolding concat columns_text
command_text (create_table name columns) =
    concat ("CREATE TABLE IF NOT EXISTS " ∷ name ∷ " (" ∷ columns_text columns ∷ ");" ∷ [])
command_text (create_index name table indexed) =
    concat ("CREATE INDEX IF NOT EXISTS " ∷ name ∷ " ON " ∷ table ∷ "(" ∷ indexed ∷ ");" ∷ [])
command_text (drop_table name) = concat ("DROP TABLE IF EXISTS " ∷ name ∷ " CASCADE;" ∷ [])

unfoldable pub script_text : List Command → String
unfolding command_text
script_text [] = ""
script_text (c ∷ rest) = text_append (command_text c) (script_text rest)

abbrev pub initial_schema_up : List Command
initial_schema_up =
    create_table "organizations" (
      column "id" "UUID PRIMARY KEY DEFAULT gen_random_uuid()"
      ∷ column "name" "VARCHAR(255) NOT NULL"
      ∷ column "settings" "JSONB DEFAULT '{}'"
      ∷ column "created_at" "TIMESTAMP NOT NULL DEFAULT NOW()"
      ∷ column "updated_at" "TIMESTAMP NOT NULL DEFAULT NOW()"
      ∷ [])
    ∷ create_table "users" (
        column "id" "UUID PRIMARY KEY DEFAULT gen_random_uuid()"
        ∷ column "email" "VARCHAR(255) NOT NULL UNIQUE"
        ∷ reference "organization_id" "UUID NOT NULL" "organizations"
        ∷ column "role" "VARCHAR(50) NOT NULL DEFAULT 'user'"
        ∷ column "created_at" "TIMESTAMP NOT NULL DEFAULT NOW()"
        ∷ column "updated_at" "TIMESTAMP NOT NULL DEFAULT NOW()"
        ∷ [])
    ∷ create_table "sites" (
        column "id" "UUID PRIMARY KEY DEFAULT gen_random_uuid()"
        ∷ column "name" "VARCHAR(255) NOT NULL"
        ∷ reference "organization_id" "UUID NOT NULL" "organizations"
        ∷ column "location" "VARCHAR(500)"
        ∷ column "created_at" "TIMESTAMP NOT NULL DEFAULT NOW()"
        ∷ column "updated_at" "TIMESTAMP NOT NULL DEFAULT NOW()"
        ∷ [])
    ∷ create_table "gateways" (
        column "id" "UUID PRIMARY KEY DEFAULT gen_random_uuid()"
        ∷ column "serial" "VARCHAR(255) NOT NULL UNIQUE"
        ∷ reference "organization_id" "UUID NOT NULL" "organizations"
        ∷ reference "site_id" "UUID NOT NULL" "sites"
        ∷ column "name" "VARCHAR(255) NOT NULL"
        ∷ column "health_status" "VARCHAR(50) NOT NULL DEFAULT 'offline'"
        ∷ column "last_seen" "TIMESTAMP NOT NULL DEFAULT NOW()"
        ∷ column "version" "VARCHAR(50)"
        ∷ column "ip_address" "VARCHAR(50)"
        ∷ column "location" "VARCHAR(500)"
        ∷ column "created_at" "TIMESTAMP NOT NULL DEFAULT NOW()"
        ∷ column "updated_at" "TIMESTAMP NOT NULL DEFAULT NOW()"
        ∷ [])
    ∷ create_table "schema_migrations" (
        column "version" "INTEGER PRIMARY KEY"
        ∷ column "name" "VARCHAR(255) NOT NULL"
        ∷ column "applied_at" "TIMESTAMP NOT NULL DEFAULT NOW()"
        ∷ [])
    ∷ create_index "idx_users_organization_id" "users" "organization_id"
    ∷ create_index "idx_users_email" "users" "email"
    ∷ create_index "idx_sites_organization_id" "sites" "organization_id"
    ∷ create_index "idx_gateways_organization_id" "gateways" "organization_id"
    ∷ create_index "idx_gateways_site_id" "gateways" "site_id"
    ∷ create_index "idx_gateways_serial" "gateways" "serial"
    ∷ create_index "idx_gateways_health_status" "gateways" "health_status"
    ∷ create_index "idx_gateways_last_seen" "gateways" "last_seen"
    ∷ []

abbrev pub initial_schema_down : List Command
initial_schema_down =
    drop_table "gateways"
    ∷ drop_table "sites"
    ∷ drop_table "users"
    ∷ drop_table "organizations"
    ∷ drop_table "schema_migrations"
    ∷ []

abbrev pub worker_tables_up : List Command
worker_tables_up =
    create_table "deployments" (
      column "id" "UUID PRIMARY KEY DEFAULT gen_random_uuid()"
      ∷ reference "gateway_id" "UUID NOT NULL" "gateways"
      ∷ column "status" "VARCHAR(50) NOT NULL DEFAULT 'pending'"
      ∷ column "created_at" "TIMESTAMP NOT NULL DEFAULT NOW()"
      ∷ column "updated_at" "TIMESTAMP NOT NULL DEFAULT NOW()"
      ∷ [])
    ∷ create_table "gateway_app_status" (
        reference "gateway_id" "UUID NOT NULL" "gateways"
        ∷ column "app_id" "UUID NOT NULL"
        ∷ column "status" "VARCHAR(50) NOT NULL"
        ∷ column "updated_at" "TIMESTAMP NOT NULL DEFAULT NOW()"
        ∷ primary_key "gateway_id" "app_id"
        ∷ [])
    ∷ create_table "gateway_metrics" (
        column "id" "BIGSERIAL PRIMARY KEY"
        ∷ reference "gateway_id" "UUID NOT NULL" "gateways"
        ∷ column "metrics" "JSONB NOT NULL"
        ∷ column "timestamp" "TIMESTAMP NOT NULL"
        ∷ [])
    ∷ create_index "idx_gateway_metrics_gateway_id" "gateway_metrics" "gateway_id"
    ∷ create_index "idx_gateway_metrics_timestamp" "gateway_metrics" "timestamp"
    ∷ create_table "gateway_alerts" (
        column "id" "BIGSERIAL PRIMARY KEY"
        ∷ reference "gateway_id" "UUID NOT NULL" "gateways"
        ∷ column "severity" "VARCHAR(20) NOT NULL"
        ∷ column "message" "TEXT NOT NULL"
        ∷ column "timestamp" "TIMESTAMP NOT NULL"
        ∷ [])
    ∷ create_index "idx_gateway_alerts_gateway_id" "gateway_alerts" "gateway_id"
    ∷ create_index "idx_gateway_alerts_timestamp" "gateway_alerts" "timestamp"
    ∷ create_table "gateway_health_history" (
        column "id" "BIGSERIAL PRIMARY KEY"
        ∷ reference "gateway_id" "UUID NOT NULL" "gateways"
        ∷ column "status" "VARCHAR(50) NOT NULL"
        ∷ column "error_count" "INTEGER NOT NULL DEFAULT 0"
        ∷ column "checked_at" "TIMESTAMP NOT NULL"
        ∷ [])
    ∷ create_index "idx_gateway_health_history_gateway_id" "gateway_health_history" "gateway_id"
    ∷ create_index "idx_gateway_health_history_checked_at" "gateway_health_history" "checked_at"
    ∷ []

abbrev pub worker_tables_down : List Command
worker_tables_down =
    drop_table "gateway_health_history"
    ∷ drop_table "gateway_alerts"
    ∷ drop_table "gateway_metrics"
    ∷ drop_table "gateway_app_status"
    ∷ drop_table "deployments"
    ∷ []

abbrev pub initial_schema : Migration
initial_schema = record {
  version = pos 1;
  name = "initial_schema";
  up = script_text initial_schema_up;
  down = script_text initial_schema_down;
}

abbrev pub worker_tables : Migration
worker_tables = record {
  version = pos 2;
  name = "worker_tables";
  up = script_text worker_tables_up;
  down = script_text worker_tables_down;
}

abbrev pub migrations : List Migration
migrations = initial_schema ∷ worker_tables ∷ []
