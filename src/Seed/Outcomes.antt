-- ===== src/Seed/Outcomes.antt =====
-- What the exit of the seeding tells of the stored data.
use backend_assessment.Prelude.{
  ◌≡◌, refl, ap, subst, ◌∙◌, ◌⊎◌, inl, inr, Bool, Option, none, some, String, List, [], ◌∷◌, ◌++◌,
  ℤ,
}
use backend_assessment.Process.{Exit, returned, exited, conclude, print_all}
use backend_assessment.Config.{load}
use backend_assessment.Datastore.{
  Driver, Connection, connected, parse_failed, connect_failed, ping_failed, new_postgres_connection,
}
use backend_assessment.Seed.{Statement, Database, Result, commit_failed, seed}
use backend_assessment.Seed.Transaction.{Laws, all_data, AllOrNothing, seed-AllOrNothing}
use backend_assessment.Seed.Command.{summary, seed_on, main}

module _ {W Conf P C T : Type 0} (atoi : String → Option ℤ) (parse_bool : String → Option Bool)
    (driver : Driver W Conf P C) (database_of : P → Database W T) (print : String → W → W)
    (stored staged : W → List Statement) where
  -- The databases keep their laws, and nothing else changes what is stored.
  pub record Stores : Type 0 where
    pub by_database : (pool : P) → Laws (database_of pool) stored staged
    pub by_connection :
        (url : String) (w : W) → stored (new_postgres_connection driver url w).1 ≡ stored w
    pub by_close : (pool : P) (w : W) → stored (driver.close pool w) ≡ stored w
    pub by_print : (line : String) (w : W) → stored (print line w) ≡ stored w

  abbrev pub ExitTells : List Statement → Exit × W → Type 0
  ExitTells before (returned, w) = stored w ≡ all_data ++ before
  ExitTells before (exited, w) =
      (stored w ≡ before)
      ⊎ ((pool : P) × (v : W) × (seed (database_of pool) v ≡ (some commit_failed, w))
          × (stored w ≡ all_data ++ before))

  print_all-stored :
      (lines : List String) (w : W) → Stores → stored (print_all print lines w) ≡ stored w
  unfolding print_all
  print_all-stored [] w stores = refl
  print_all-stored (line ∷ lines) w stores =
      print_all-stored lines (print line w) stores ∙ stores.by_print line w

  conclude-ExitTells :
      (pool : P) (v : W) (r : Result (database_of pool)) (before : List Statement)
      → Stores
      → seed (database_of pool) v ≡ r
      → AllOrNothing (database_of pool) stored staged all_data before r
      → ExitTells before (conclude (λ w. driver.close pool (print_all print summary w)) r)
  unfolding conclude
  conclude-ExitTells pool v (none, w) before stores same h =
      stores.by_close pool _ ∙ print_all-stored summary w stores ∙ h
  conclude-ExitTells pool v (some e, w) before stores same h = elim h [
    | inl same' ↦ inl same'
    | inr (which, all) ↦ inr (pool, v, same ∙ ap (λ e'. (some e', w)) which, all)
  ]

  seed_on-ExitTells :
      (r : Connection P × W) (before : List Statement)
      → Stores
      → stored r.1 ≡ before
      → ExitTells before (seed_on atoi parse_bool driver database_of print r)
  unfolding seed_on
  seed_on-ExitTells (connected pool, w) before stores same =
      conclude-ExitTells pool w (seed (database_of pool) w) before stores refl (
        subst
          (λ b.
            AllOrNothing (database_of pool) stored staged all_data b (seed (database_of pool) w))
          same (seed-AllOrNothing (database_of pool) stored staged w (stores.by_database pool)))
  seed_on-ExitTells (parse_failed, w) before stores same = inl same
  seed_on-ExitTells (connect_failed, w) before stores same = inl same
  seed_on-ExitTells (ping_failed, w) before stores same = inl same

  -- The seeding is all or nothing: when it returns, the four statements are stored, organizations
  -- first, then users, sites and gateways; when it ends early, whatever failed, none of them is
  -- stored, unless it was the commit that failed: then all four may be.
  pub main-ExitTells :
      (getenv : String → String) (w : W)
      → Stores
      → ExitTells (stored w) (main atoi parse_bool driver database_of print getenv w)
  unfolding main
  main-ExitTells getenv w stores =
      let url = (load atoi parse_bool getenv).database_url in
      seed_on-ExitTells (new_postgres_connection driver url w) (stored w) stores
        (stores.by_connection url w)
