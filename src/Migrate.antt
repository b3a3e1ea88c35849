-- ===== src/Migrate.antt =====
-- cmd/migrate/main.go: `migrateUp` and `migrateDown`. The list of migrations, a variable of the
-- package, is given; `sort.Slice` puts it in the order of the versions. The database is a
-- parameter. The command line and `showStatus`, which prints, are left out.
pub mod Transactions
pub mod Sorting
pub mod Records
pub mod Rollbacks
pub mod Scripts
pub mod Tables
pub mod Command
pub mod Outcomes
use backend_assessment.Prelude.{
  ℕ, zero, suc, Bool, true, false, Option, none, some, String, List, [], ◌∷◌, ℤ, ltb_ℤ,
  if◌then◌else◌,
}

pub record Migration : Type 0 where
  pub version : ℤ
  pub name : String
  pub up : String
  pub down : String

-- What a transaction executes.
pub data Statement : Type 0 where
  script : String → Statement
  insert_record : ℤ → String → Statement
  delete_record : ℤ → Statement

-- The errors of the two commands, by what failed.
pub data Failure : Type 0 where
  create_failed check_failed start_failed : Failure
  script_failed record_failed commit_failed : ℤ → Failure

-- `count` is the query of schema_migrations, `none` its error; the others give `false` or `none` on
-- an error.
pub record Database (W T : Type 0) : Type 0 where
  pub count : ℤ → W → Option ℕ × W
  pub create_table : W → Bool × W
  pub begin : W → Option T × W
  pub exec : T → Statement → W → Bool × W
  pub commit : T → W → Bool × W
  pub rollback : T → W → W

-- The sorts, by the test that puts one version before another.
unfoldable pub place : (ℤ → ℤ → Bool) → Migration → List Migration → List Migration
place before m [] = m ∷ []
place before m (n ∷ rest) =
    let placed = place before m rest in
    if before n.version m.version then n ∷ placed else m ∷ n ∷ rest

unfoldable pub sort_by : (ℤ → ℤ → Bool) → List Migration → List Migration
unfolding place
sort_by before [] = []
sort_by before (m ∷ rest) = place before m (sort_by before rest)

module _ {W T : Type 0} (db : Database W T) where
  abbrev pub Result : Type 0
  Result = Option Failure × W

  unfoldable pub end_transaction : ℤ → Bool × W → Result
  end_transaction version (true, w) = (none, w)
  end_transaction version (false, w) = (some (commit_failed version), w)

  unfoldable pub second_statement : ℤ → T → Bool × W → Result
  unfolding end_transaction
  second_statement version tx (false, w) = (some (record_failed version), db.rollback tx w)
  second_statement version tx (true, w) = end_transaction version (db.commit tx w)

  unfoldable pub first_statement : ℤ → Statement → T → Bool × W → Result
  unfolding second_statement
  first_statement version record_change tx (false, w) =
      (some (script_failed version), db.rollback tx w)
  first_statement version record_change tx (true, w) =
      second_statement version tx (db.exec tx record_change w)

  -- One migration or rollback: the script and the change of the record, in one transaction.
  unfoldable pub in_transaction : ℤ → String → Statement → Option T × W → Result
  unfolding first_statement
  in_transaction version text record_change (none, w) = (some start_failed, w)
  in_transaction version text record_change (some tx, w) =
      first_statement version record_change tx (db.exec tx (script text) w)

  abbrev pub apply : Migration → W → Result
  apply m w = in_transaction m.version m.up (insert_record m.version m.name) (db.begin w)

  abbrev pub revert : Migration → W → Result
  revert m w = in_transaction m.version m.down (delete_record m.version) (db.begin w)

  unfoldable pub after_create : Migration → Bool × W → Result
  after_create m (false, w) = (some create_failed, w)
  after_create m (true, w) = apply m w

  -- The body of the loop of `migrateUp`, on what the query gave.
  unfoldable pub up_checked : Migration → Option ℕ × W → Result
  unfolding in_transaction after_create
  up_checked m (none, w) = after_create m (db.create_table w)
  up_checked m (some zero, w) = apply m w
  up_checked m (some (suc _), w) = (none, w)

  -- The body of the loop of `migrateDown`.
  unfoldable pub down_checked : Migration → Option ℕ × W → Result
  unfolding in_transaction
  down_checked m (none, w) = (some check_failed, w)
  down_checked m (some zero, w) = (none, w)
  down_checked m (some (suc _), w) = revert m w

  -- The next round of a loop, unless this one returned an error.
  unfoldable pub and_then : Result → (W → Result) → Result
  and_then (some e, w) rest = (some e, w)
  and_then (none, w) rest = rest w

  unfoldable pub each_up : List Migration → W → Result
  unfolding up_checked and_then
  each_up [] w = (none, w)
  each_up (m ∷ ms) w = and_then (up_checked m (db.count m.version w)) (λ w'. each_up ms w')

  unfoldable pub each_down : List Migration → W → Result
  unfolding down_checked and_then
  each_down [] w = (none, w)
  each_down (m ∷ ms) w = and_then (down_checked m (db.count m.version w)) (λ w'. each_down ms w')

  unfoldable pub migrate_up : List Migration → W → Result
  unfolding sort_by each_up
  migrate_up ms w = each_up (sort_by (λ i j. ltb_ℤ i j) ms) w

  unfoldable pub migrate_down : List Migration → W → Result
  unfolding sort_by each_down
  migrate_down ms w = each_down (sort_by (λ i j. ltb_ℤ j i) ms) w
