-- ===== src/Tests/Commands.antt =====
-- The programs under cmd in a world of printed lines, on a database that has every migration.
use backend_assessment.Prelude.{
  ℕ, ◌≡◌, refl, true, none, some, String, List, [], ◌∷◌, ℤ, pos, Option, Bool,
}
use backend_assessment.Process.{returned, exited}
use backend_assessment.Config.{load}
use backend_assessment.Datastore.{Driver, connected, new_postgres_connection}
use backend_assessment.Migrate.{Database}
use backend_assessment.Migrate.Scripts.{migrations}
use backend_assessment.Migrate.Command.{Console, main}
use backend_assessment.Migrate.Outcomes.{Succeeded, main-Succeeded}

abbrev Lines : Type 0
Lines = List String

abbrev driver : Driver Lines ℕ ℕ ℕ
driver = record {
  parse_config = λ url. some 0;
  set_max_conns = λ n conf. n;
  set_min_conns = λ n conf. conf;
  connect = λ conf w. (some conf, w);
  ping = λ pool w. (true, w);
  close = λ pool w. "closed" ∷ w;
  acquire = λ pool w. (some 1, w);
  exec = λ conn s w. (some "UPDATE 1", w);
  release = λ conn w. w;
}

abbrev database : ℕ → Database Lines ℕ
database pool = record {
  count = λ v w. (some 1, w);
  create_table = λ w. (true, w);
  begin = λ w. (some 1, w);
  exec = λ tx s w. (true, w);
  commit = λ tx w. (true, w);
  rollback = λ tx w. w;
}

abbrev console : Console Lines
console = record {
  print = λ s w. s ∷ w;
  decimal = λ n. "1";
  table_exists = λ w. (some true, w);
  applied = λ w. (
    some (
        some (record { version = pos 1; name = "initial_schema"; applied_at = "today" })
        ∷ none
        ∷ []),
    w,
  );
}

abbrev atoi : String → Option ℤ
atoi s = none

abbrev parse_bool : String → Option Bool
parse_bool s = none

abbrev run : List String → Lines
run args = (main atoi parse_bool driver database console migrations args (λ v. "") []).1

up_closes :
    main atoi parse_bool driver database console migrations ("migrate" ∷ "up" ∷ []) (λ v. "") []
    ≡ (returned, "closed" ∷ [])
unfolding main
up_closes = refl

-- The row that does not scan ends the program; the pool is not closed.
status_exits :
    main atoi parse_bool driver database console migrations ("migrate" ∷ "status" ∷ []) (λ v. "") []
    ≡ (exited, "  1: initial_schema (applied at today)" ∷ "Applied migrations:" ∷ [])
unfolding main
status_exits = refl

main-Succeeded_example :
    (program : String) × (command : String) × (rest : List String) × (pool : ℕ) × (v : Lines)
    × ("migrate" ∷ "up" ∷ [] ≡ program ∷ command ∷ rest)
    × (new_postgres_connection driver (load atoi parse_bool (λ v. "")).database_url []
        ≡ (connected pool, v))
    × Succeeded atoi parse_bool driver database console migrations command pool v
        (run ("migrate" ∷ "up" ∷ []))
unfolding main
main-Succeeded_example =
    main-Succeeded atoi parse_bool driver database console migrations ("migrate" ∷ "up" ∷ [])
      (λ v. "") [] refl
