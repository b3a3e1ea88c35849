-- ===== src/Migrate/Tables.antt =====
-- Which tables the scripts of the migrations leave.
use backend_assessment.Prelude.{
  ◌≡◌, Bool, true, false, none, some, String, List, [], ◌∷◌, ℤ, pos, if◌then◌else◌, str_eq,
  Bool-cases, inl, inr, arith,
}
use backend_assessment.Migrate.{
  script, delete_record, Database, each_down, migrate_down, sort_by, place,
}
use backend_assessment.Migrate.Rollbacks.{IsSelfDropping, self_dropping_skipped}
use backend_assessment.Migrate.Scripts.{
  Command, create_table, create_index, drop_table, initial_schema_up, initial_schema_down,
  worker_tables_up, worker_tables_down, initial_schema, worker_tables, migrations,
}

-- Whether a table is there after some commands, from whether it was there before: a table that is
-- there is not created again, and one that is not there is dropped without an error.
abbrev pub after : String → List Command → Bool → Bool
after t [] present = present
after t (create_table name columns ∷ rest) present =
    after t rest (if str_eq name t then true else present)
after t (create_index name table indexed ∷ rest) present = after t rest present
after t (drop_table name ∷ rest) present = after t rest (if str_eq name t then false else present)

-- A `Down` script undoes its `Up` script: run after it, it leaves no table that the `Up` script
-- creates, and any other table as it was.
pub down_undoes_up :
    (t : String) (present : Bool)
    → (after t initial_schema_down (after t initial_schema_up present)
        ≡ (if after t initial_schema_up false then false else present))
      × (after t worker_tables_down (after t worker_tables_up present)
          ≡ (if after t worker_tables_up false then false else present))
down_undoes_up t present = (ground arith, ground arith)

module _ {W T : Type 0} (db : Database W T) (present : String → W → Bool) where
  -- The database runs the script command by command. A record is only deleted from a table that is
  -- there.
  pub record Runs : Type 0 where
    pub by_down :
        (tx : T) (w : W) (t : String)
        → (db.exec tx (script initial_schema.down) w).0 ≡ true
        → present t (db.exec tx (script initial_schema.down) w).1
          ≡ after t initial_schema_down (present t w)
    pub by_delete :
        (tx : T) (w : W) (version : ℤ)
        → (db.exec tx (delete_record version) w).0 ≡ true
        → present "schema_migrations" w ≡ true

  initial_schema-IsSelfDropping : Runs → IsSelfDropping db initial_schema
  initial_schema-IsSelfDropping runs tx w ok =
      let w' = (db.exec tx (script initial_schema.down) w).1 in
      let gone : present "schema_migrations" w' ≡ false =
        runs.by_down tx w "schema_migrations" ok in
      elim (Bool-cases (db.exec tx (delete_record (pos 1)) w').0) [
        | inl deleted ↦ absurd (ground (arith, gone, runs.by_delete tx w' (pos 1) deleted))
        | inr refused ↦ refused
      ]

  -- The first migration of the list cannot be rolled back: `migrate down` goes through only if, once
  -- the second one is rolled back or skipped, the first is not recorded and so is skipped too.
  -- Its `Down` script drops schema_migrations, from which its record would then be deleted.
  pub first_migration_stays :
      (w : W)
      → Runs
      → (migrate_down db migrations w).0 ≡ none
      → let w' = (each_down db (worker_tables ∷ []) w).1 in
        ((each_down db (worker_tables ∷ []) w).0 ≡ none) × ((db.count (pos 1) w').0 ≡ some 0)
  unfolding migrate_down sort_by place
  first_migration_stays w runs ok =
      self_dropping_skipped db (worker_tables ∷ []) initial_schema w
        (initial_schema-IsSelfDropping runs) ok
