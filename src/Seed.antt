-- ===== src/Seed.antt =====
-- cmd/seed/main.go: the test data, in one transaction. The database is a parameter.
pub mod Rows
pub mod Transaction
pub mod Command
pub mod Outcomes
use backend_assessment.Prelude.{Bool, true, false, Option, none, some, List, [], ◌∷◌}
use backend_assessment.Seed.Rows.{
  OrganizationRow, UserRow, SiteRow, GatewayRow, organizations, users, sites, gateways,
}

-- The four statements; a row that stands there already is left alone.
pub data Statement : Type 0 where
  insert_organizations : List OrganizationRow → Statement
  insert_users : List UserRow → Statement
  insert_sites : List SiteRow → Statement
  insert_gateways : List GatewayRow → Statement

-- What the program ends on by `log.Fatalf`.
pub data Failure : Type 0 where
  start_failed organizations_failed users_failed sites_failed gateways_failed : Failure
  commit_failed : Failure

pub record Database (W T : Type 0) : Type 0 where
  pub begin : W → Option T × W
  pub exec : T → Statement → W → Bool × W
  pub commit : T → W → Bool × W
  pub rollback : T → W → W

module _ {W T : Type 0} (db : Database W T) where
  -- `none` when the data is seeded.
  abbrev pub Result : Type 0
  Result = Option Failure × W

  unfoldable pub after_commit : Bool × W → Result
  after_commit (true, w) = (none, w)
  after_commit (false, w) = (some commit_failed, w)

  -- What follows a statement: a rollback, or the next one.
  unfoldable pub proceed : T → Failure → Bool × W → (W → Result) → Result
  proceed tx failed (false, w) rest = (some failed, db.rollback tx w)
  proceed tx failed (true, w) rest = rest w

  unfoldable pub seed_in : Option T × W → Result
  unfolding proceed after_commit
  seed_in (none, w) = (some start_failed, w)
  seed_in (some tx, w) =
      proceed tx organizations_failed (db.exec tx (insert_organizations organizations) w) λ w₁.
        proceed tx users_failed (db.exec tx (insert_users users) w₁) λ w₂.
          proceed tx sites_failed (db.exec tx (insert_sites sites) w₂) λ w₃.
            proceed tx gateways_failed (db.exec tx (insert_gateways gateways) w₃)
              λ w₄. after_commit (db.commit tx w₄)

  -- `main` from the start of the transaction.
  unfoldable pub seed : W → Result
  unfolding seed_in
  seed w = seed_in (db.begin w)
