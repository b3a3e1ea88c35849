-- ===== src/Seed/Command.antt =====
-- `main` of cmd/seed/main.go, from the configuration to the summary.
use backend_assessment.Prelude.{Bool, Option, String, List, [], ◌∷◌, ℤ}
use backend_assessment.Process.{Exit, exited, conclude, print_all}
use backend_assessment.Config.{load}
use backend_assessment.Datastore.{
  Driver, Connection, connected, parse_failed, connect_failed, ping_failed, new_postgres_connection,
}
use backend_assessment.Seed.{Database, seed}

abbrev pub summary : List String
summary =
    "\nSeeded data summary:" ∷ "  - 3 organizations" ∷ "  - 4 users" ∷ "  - 5 sites"
    ∷ "  - 7 gateways" ∷ []

module _ {W Conf P C T : Type 0} (atoi : String → Option ℤ) (parse_bool : String → Option Bool)
    (driver : Driver W Conf P C) (database_of : P → Database W T) (print : String → W → W) where
  unfoldable pub seed_on : Connection P × W → Exit × W
  unfolding seed conclude print_all
  seed_on (connected pool, w) =
      conclude (λ w'. driver.close pool (print_all print summary w')) (seed (database_of pool) w)
  seed_on (parse_failed, w) = (exited, w)
  seed_on (connect_failed, w) = (exited, w)
  seed_on (ping_failed, w) = (exited, w)

  unfoldable pub main : (String → String) → W → Exit × W
  unfolding load new_postgres_connection seed_on
  main getenv w =
      seed_on (new_postgres_connection driver (load atoi parse_bool getenv).database_url w)
