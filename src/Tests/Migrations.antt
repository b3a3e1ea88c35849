-- ===== src/Tests/Migrations.antt =====
-- The migrations of the source on a database that keeps the records, what a transaction has staged,
-- which tables are there, and the open transactions.
use backend_assessment.Prelude.{
  ℕ, ◌+◌, ◌<◌, ◌≡◌, refl, ap, Bool, true, false, ◌&&◌, none, some, String, List, eq_refl,
  Bool-cases, inl, inr, [], ◌∷◌, ℤ, pos, negsuc, leb_ℤ, if◌then◌else◌, str_eq, All, arith,
}
use backend_assessment.Migrate.{
  Migration, Statement, script, insert_record, delete_record, Database, record_failed, migrate_up,
  migrate_down, each_down,
}
use backend_assessment.Migrate.Transactions.{Tracks, migrations_end}
use backend_assessment.Migrate.Records.{Laws, Keeps, migrate_up-AllDone}
use backend_assessment.Migrate.Scripts.{
  create_table, reference, column, primary_key, script_text, command_text, columns_text,
  column_text, concat, initial_schema_up, initial_schema_down, worker_tables_up, worker_tables_down,
  initial_schema, worker_tables, migrations,
}
use backend_assessment.Migrate.Tables.{after, Runs, down_undoes_up, first_migration_stays}

record World : Type 0 where
  rows : ℤ → ℕ
  staged : ℤ → ℕ
  -- The versions whose records the transaction has deleted.
  deleted : List ℤ
  tables : String → Bool
  transactions : List ℕ

abbrev drop_first : List ℕ → List ℕ
drop_first [] = []
drop_first (t ∷ ts) = ts

abbrev one_if : ℤ → ℤ → ℕ
one_if i j = if leb_ℤ i j && leb_ℤ j i then 1 else 0

one_if_self : (i : ℤ) → one_if i i ≡ 1
one_if_self (pos n) = ground arith
one_if_self (negsuc n) = ground arith

abbrev without : List ℤ → ℤ → ℕ → ℕ
without [] i n = n
without (v ∷ vs) i n = if leb_ℤ i v && leb_ℤ v i then 0 else without vs i n

abbrev execute : ℕ → Statement → World → Bool × World
execute tx (script s) w = (
  true,
  if str_eq s initial_schema.down
      then record w { tables = λ t. after t initial_schema_down (w.tables t) }
      else w,
)
execute tx (insert_record v name) w = (true, record w { staged = λ i. w.staged i + one_if i v })
execute tx (delete_record v) w = (
  w.tables "schema_migrations",
  record w { deleted = v ∷ w.deleted; staged = λ i. without (v ∷ []) i (w.staged i) },
)

abbrev database : Database World ℕ
database = record {
  count = λ v w. (some (w.rows v), w);
  create_table = λ w. (true, w);
  begin =
      λ w. (some 1, record w { transactions = 1 ∷ w.transactions; staged = λ i. 0; deleted = [] });
  exec = execute;
  commit = λ tx w. (
    true,
    record w {
      rows = λ i. without w.deleted i (w.rows i) + w.staged i;
      transactions = drop_first w.transactions;
    },
  );
  rollback = λ tx w. record w { transactions = drop_first w.transactions };
}

abbrev empty : World
empty = record {
  rows = λ i. 0;
  staged = λ i. 0;
  deleted = [];
  tables = λ t. true;
  transactions = [];
}

abbrev listed : List Migration
listed = worker_tables ∷ initial_schema ∷ []

both_recorded :
    (migrate_up database listed empty).1.rows (pos 1)
      + (migrate_up database listed empty).1.rows (pos 2)
    ≡ 2
unfolding migrate_up script_text
both_recorded = refl

down_fails :
    (migrate_down database listed (migrate_up database listed empty).1).0
    ≡ some (record_failed (pos 1))
unfolding migrate_up migrate_down script_text
down_fails = refl

execute-transactions :
    (tx : ℕ) (s : Statement) (w : World) → (execute tx s w).1.transactions ≡ w.transactions
execute-transactions tx (script s) w = ground arith
execute-transactions tx (insert_record v name) w = refl
execute-transactions tx (delete_record v) w = refl

database-Tracks : Tracks database (λ w. w.transactions)
database-Tracks = record {
  begun = λ w tx h. ground arith;
  not_begun = λ w h. ground arith;
  executes = execute-transactions;
  commits = λ tx w rest h. ap drop_first h;
  rolls_back = λ tx w rest h. ap drop_first h;
  counts = λ version w. refl;
  creates = λ w. refl;
}

migrations_end_example :
    ((migrate_up database listed empty).1.transactions ≡ [])
    × ((migrate_down database listed empty).1.transactions ≡ [])
migrations_end_example = migrations_end database (λ w. w.transactions) listed empty database-Tracks

abbrev Recorded : ℤ → World → Type 0
Recorded v w = 0 < w.rows v

abbrev Staged : ℕ → ℤ → World → Type 0
Staged tx v w = 0 < w.staged v

abbrev HasSome : List ℤ → Type 0
HasSome [] = ⊥
HasSome (v ∷ vs) = Unit

abbrev Deletes : ℕ → World → Type 0
Deletes tx w = HasSome w.deleted

without-none : (v : ℤ) (deleted : List ℤ) (n : ℕ) → ¬ HasSome deleted → without deleted v n ≡ n
without-none v [] n clean = refl
without-none v (d ∷ ds) n clean = absurd (clean tt)

execute-Recorded :
    (tx : ℕ) (s : Statement) (w : World)
    → Keeps database Recorded Staged Deletes w (execute tx s w).1
execute-Recorded tx (script s) w v known = ground arith
execute-Recorded tx (insert_record u name) w v known = known
execute-Recorded tx (delete_record u) w v known = known

script-Deletes :
    (tx : ℕ) (s : String) (w : World) → ¬ Deletes tx w → ¬ Deletes tx (execute tx (script s) w).1
script-Deletes tx s w clean = elim (Bool-cases (str_eq s initial_schema.down)) [
  | inl down ↦ rw down clean
  | inr other ↦ rw other clean
]

database-Laws : Laws database Recorded Staged Deletes
database-Laws = record {
  counted = λ v w n h. ground arith;
  stages = λ tx v name w h. ground (arith, one_if_self v);
  commits = λ tx v w staged h. omega (arith, staged);
  keeps_commit =
      λ tx w clean u known. omega (arith, known, without-none u w.deleted (w.rows u) clean);
  begins_empty = λ w tx began. λ h. h;
  inserts = λ tx v name w clean. clean;
  keeps_count = λ v w u known. known;
  keeps_create = λ w u known. known;
  keeps_begin = λ w u known. known;
  keeps_exec = execute-Recorded;
}

up_succeeds : (migrate_up database listed empty).0 ≡ none
unfolding migrate_up script_text
up_succeeds = refl

migrate_up-AllDone_example :
    All (λ m. 0 < (migrate_up database listed empty).1.rows m.version) listed
migrate_up-AllDone_example =
    migrate_up-AllDone database Recorded Staged Deletes listed empty database-Laws
      (
        λ tx w clean. script-Deletes tx worker_tables.up w clean,
        (λ tx w clean. script-Deletes tx initial_schema.up w clean, tt),
      )
      up_succeeds

database-Runs : Runs database (λ t w. w.tables t)
database-Runs = record {
  by_down = λ tx w t ok. ground (arith, eq_refl initial_schema.down);
  by_delete = λ tx w version ok. ok;
}

nothing_recorded : (migrate_down database migrations empty).0 ≡ none
unfolding migrate_down
nothing_recorded = refl

first_migration_stays_example :
    ((each_down database (worker_tables ∷ []) empty).0 ≡ none)
    × ((database.count (pos 1) (each_down database (worker_tables ∷ []) empty).1).0 ≡ some 0)
first_migration_stays_example =
    first_migration_stays database (λ t w. w.tables t) empty database-Runs nothing_recorded

down_undoes_up_example :
    (after "users" initial_schema_down (after "users" initial_schema_up false)
      ≡ (if after "users" initial_schema_up false then false else false))
    × (after "users" worker_tables_down (after "users" worker_tables_up false)
        ≡ (if after "users" worker_tables_up false then false else false))
down_undoes_up_example = down_undoes_up "users" false

-- The text that is sent for a command.
sent :
    command_text (
      create_table "t" (
        reference "gateway_id" "UUID NOT NULL" "gateways"
        ∷ column "n" "INTEGER"
        ∷ primary_key "gateway_id" "n"
        ∷ []))
    ≡ "CREATE TABLE IF NOT EXISTS t (gateway_id UUID NOT NULL REFERENCES gateways(id) ON DELETE CASCADE, n INTEGER, PRIMARY KEY (gateway_id, n));"
unfolding command_text columns_text column_text concat
sent = refl
