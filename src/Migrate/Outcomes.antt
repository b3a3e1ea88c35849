-- ===== src/Migrate/Outcomes.antt =====
-- What an exit with status 0 of the command `migrate` says.
use backend_assessment.Prelude.{
  ◌≡◌, refl, Bool, true, false, Option, none, some, String, List, [], ◌∷◌, ℤ, str_eq, eq_iff, arith,
  if◌then◌else◌,
}
use backend_assessment.Process.{Exit, returned, conclude}
use backend_assessment.Config.{load}
use backend_assessment.Datastore.{
  Driver, Connection, connected, parse_failed, connect_failed, ping_failed, new_postgres_connection,
}
use backend_assessment.Migrate.{Migration, Database, migrate_up, migrate_down}
use backend_assessment.Migrate.Command.{Console, show_status, perform, perform_on, main}

conclude-returned :
    {F W : Type 0} (close : W → W) (r : Option F × W)
    → (conclude close r).0 ≡ returned
    → (r.0 ≡ none) × ((conclude close r).1 ≡ close r.1)
unfolding conclude
conclude-returned close (none, w) e = (refl, refl)
conclude-returned close (some f, w) e = absurd (ground arith)

-- Of two ways to end, the one that was taken.
taken :
    {W : Type 0} (Q : W → Type 0) (b : Bool) (r s : Exit × W)
    → (b ≡ true → r.0 ≡ returned → Q r.1)
    → (b ≡ false → s.0 ≡ returned → Q s.1)
    → (if b then r else s).0 ≡ returned
    → Q (if b then r else s).1
taken Q true r s left right e = left refl e
taken Q false r s left right e = right refl e

module _ {W Conf P C T : Type 0} (atoi : String → Option ℤ) (parse_bool : String → Option Bool)
    (driver : Driver W Conf P C) (database_of : P → Database W T) (console : Console W)
    (migrations : List Migration) where
  -- A command's function went through, and the pool was closed after it.
  pub data Succeeded (command : String) (pool : P) (w w' : W) : Type 0 where
    migrated_up :
        command ≡ "up"
        → (migrate_up (database_of pool) migrations w).0 ≡ none
        → w' ≡ driver.close pool (migrate_up (database_of pool) migrations w).1
        → Succeeded command pool w w'
    migrated_down :
        command ≡ "down"
        → (migrate_down (database_of pool) migrations w).0 ≡ none
        → w' ≡ driver.close pool (migrate_down (database_of pool) migrations w).1
        → Succeeded command pool w w'
    shown :
        command ≡ "status"
        → (show_status console w).0 ≡ none
        → w' ≡ driver.close pool (show_status console w).1
        → Succeeded command pool w w'

  perform-Succeeded :
      (command : String) (pool : P) (w : W)
      → (perform atoi parse_bool driver database_of console migrations command pool w).0 ≡ returned
      → Succeeded command pool w
          (perform atoi parse_bool driver database_of console migrations command pool w).1
  unfolding perform
  perform-Succeeded command pool w =
      let Q : W → Type 0 = λ w'. Succeeded command pool w w' in
      let up = conclude (driver.close pool) (migrate_up (database_of pool) migrations w) in
      let down = conclude (driver.close pool) (migrate_down (database_of pool) migrations w) in
      let status = conclude (driver.close pool) (show_status console w) in
      taken Q (str_eq command "up") up _
        (λ named e.
          let (ok, same) = conclude-returned (driver.close pool) _ e in
          migrated_up ((eq_iff command "up").0 named) ok same)
        (λ _.
          taken Q (str_eq command "down") down _
            (λ named e.
              let (ok, same) = conclude-returned (driver.close pool) _ e in
              migrated_down ((eq_iff command "down").0 named) ok same)
            (λ _.
              taken Q (str_eq command "status") status _
                (λ named e.
                  let (ok, same) = conclude-returned (driver.close pool) _ e in
                  shown ((eq_iff command "status").0 named) ok same)
                (λ _ e. absurd (ground arith))))

  perform_on-Succeeded :
      (command : String) (r : Connection P × W)
      → let (exit, w') =
          perform_on atoi parse_bool driver database_of console migrations command r in
        exit ≡ returned
        → (pool : P) × (v : W) × (r ≡ (connected pool, v)) × Succeeded command pool v w'
  unfolding perform_on
  perform_on-Succeeded command (connected pool, v) e =
      (pool, v, refl, perform-Succeeded command pool v e)
  perform_on-Succeeded command (parse_failed, v) e = absurd (ground arith)
  perform_on-Succeeded command (connect_failed, v) e = absurd (ground arith)
  perform_on-Succeeded command (ping_failed, v) e = absurd (ground arith)

  -- `migrate` exits with status 0 only if a command was given, the database of the configuration
  -- was connected to, the command is up, down or status and its function gave no error; the pool is
  -- closed then. In every other case the status is 1.
  pub main-Succeeded :
      (args : List String) (getenv : String → String) (w : W)
      → let (exit, w') = main atoi parse_bool driver database_of console migrations args getenv w in
        exit ≡ returned
        → (program : String) × (command : String) × (rest : List String) × (pool : P) × (v : W)
          × (args ≡ program ∷ command ∷ rest)
          × (new_postgres_connection driver (load atoi parse_bool getenv).database_url w
              ≡ (connected pool, v))
          × Succeeded command pool v w'
  unfolding main
  main-Succeeded [] getenv w e = absurd (ground arith)
  main-Succeeded (program ∷ []) getenv w e = absurd (ground arith)
  main-Succeeded (program ∷ command ∷ rest) getenv w e =
      let cfg = load atoi parse_bool getenv in
      let (pool, v, made, done) =
        perform_on-Succeeded command (new_postgres_connection driver cfg.database_url w) e in
      (program, command, rest, pool, v, refl, made, done)
