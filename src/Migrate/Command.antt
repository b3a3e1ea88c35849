-- ===== src/Migrate/Command.antt =====
-- cmd/migrate/main.go: `main` and `showStatus`. What is logged is left out.
use Prim.Native.String.{◌++◌ as text_append}
use backend_assessment.Prelude.{
  Bool, true, false, Option, none, some, String, List, [], ◌∷◌, ℤ, if◌then◌else◌, str_eq,
}
use backend_assessment.Process.{Exit, exited, conclude}
use backend_assessment.Config.{load}
use backend_assessment.Datastore.{
  Driver, Connection, connected, parse_failed, connect_failed, ping_failed, new_postgres_connection,
}
use backend_assessment.Migrate.{Migration, Database, migrate_up, migrate_down}

-- A row of schema_migrations, its time as a text.
pub record Applied : Type 0 where
  pub version : ℤ
  pub name : String
  pub applied_at : String

-- The errors of `showStatus`.
pub data StatusFailure : Type 0 where
  exists_failed query_failed scan_failed : StatusFailure

-- The rest of the world: what is printed, and the two queries of `showStatus`, with `none` for an
-- error, also of a row that does not scan.
pub record Console (W : Type 0) : Type 0 where
  pub print : String → W → W
  pub decimal : ℤ → String
  pub table_exists : W → Option Bool × W
  pub applied : W → Option (List (Option Applied)) × W

abbrev pub usage : String
usage = "Usage: migrate <up|down|status>"

module _ {W : Type 0} (console : Console W) where
  unfoldable pub applied_line : Applied → String
  applied_line a = text_append "  " (
      text_append (console.decimal a.version) (
        text_append ": "
          (text_append a.name (text_append " (applied at " (text_append a.applied_at ")")))))

  -- The loop over the rows.
  unfoldable pub show_rows : List (Option Applied) → W → Option StatusFailure × W
  unfolding applied_line
  show_rows [] w = (none, w)
  show_rows (none ∷ rows) w = (some scan_failed, w)
  show_rows (some a ∷ rows) w = show_rows rows (console.print (applied_line a) w)

  unfoldable pub show_applied : Option (List (Option Applied)) × W → Option StatusFailure × W
  unfolding show_rows
  show_applied (none, w) = (some query_failed, w)
  show_applied (some rows, w) = show_rows rows (console.print "Applied migrations:" w)

  unfoldable pub show_existing : Option Bool × W → Option StatusFailure × W
  unfolding show_applied
  show_existing (none, w) = (some exists_failed, w)
  show_existing (some false, w) = (none, console.print "No migrations have been applied yet" w)
  show_existing (some true, w) = show_applied (console.applied w)

  -- `showStatus`
  unfoldable pub show_status : W → Option StatusFailure × W
  unfolding show_existing
  show_status w = show_existing (console.table_exists w)

module _ {W Conf P C T : Type 0} (atoi : String → Option ℤ) (parse_bool : String → Option Bool)
    (driver : Driver W Conf P C) (database_of : P → Database W T) (console : Console W)
    (migrations : List Migration) where
  -- The `switch` on the command.
  unfoldable pub perform : String → P → W → Exit × W
  unfolding show_status migrate_up migrate_down conclude
  perform command pool w =
      if str_eq command "up"
      then conclude (driver.close pool) (migrate_up (database_of pool) migrations w)
      else if str_eq command "down"
      then conclude (driver.close pool) (migrate_down (database_of pool) migrations w)
      else if str_eq command "status"
      then conclude (driver.close pool) (show_status console w)
      else (exited, console.print usage (console.print (text_append "Unknown command: " command) w))

  unfoldable pub perform_on : String → Connection P × W → Exit × W
  unfolding perform
  perform_on command (connected pool, w) = perform command pool w
  perform_on command (parse_failed, w) = (exited, w)
  perform_on command (connect_failed, w) = (exited, w)
  perform_on command (ping_failed, w) = (exited, w)

  -- `main`, on `os.Args`.
  unfoldable pub main : List String → (String → String) → W → Exit × W
  unfolding perform_on load new_postgres_connection
  main [] getenv w = (exited, console.print usage w)
  main (program ∷ []) getenv w = (exited, console.print usage w)
  main (program ∷ command ∷ rest) getenv w =
      let cfg = load atoi parse_bool getenv in
      perform_on command (new_postgres_connection driver cfg.database_url w)
