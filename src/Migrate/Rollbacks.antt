-- ===== src/Migrate/Rollbacks.antt =====
-- The rollback of a migration whose `Down` script drops schema_migrations, as that of version 1
-- does, which the rollbacks come to last.
use backend_assessment.Prelude.{
  ℕ, zero, suc, ◌≡◌, refl, Bool, true, false, Option, none, some, List, [], ◌∷◌, ◌++◌, arith,
}
use backend_assessment.Migrate.{
  Migration, script, delete_record, Failure, Database, Result, second_statement, first_statement,
  in_transaction, revert, down_checked, and_then, each_down,
}

module _ {W T : Type 0} (db : Database W T) where
  -- After the script the table is gone, and a deletion from it is an error.
  abbrev pub IsSelfDropping : Migration → Type 0
  IsSelfDropping m =
      (tx : T) (w : W)
      → (db.exec tx (script m.down) w).0 ≡ true
      → (db.exec tx (delete_record m.version) (db.exec tx (script m.down) w).1).0 ≡ false

  no_success : {A : Type 0} {e : Failure} → some e ≡ none → A
  no_success h = ground arith

  second_statement-fails :
      {A : Type 0} (m : Migration) (tx : T) (r : Bool × W)
      → r.0 ≡ false
      → (second_statement db m.version tx r).0 ≡ none
      → A
  unfolding second_statement
  second_statement-fails m tx (false, w) refused ok = no_success ok
  second_statement-fails m tx (true, w) refused ok = ground arith

  first_statement-fails :
      {A : Type 0} (m : Migration) (tx : T) (r : Bool × W)
      → (r.0 ≡ true → (db.exec tx (delete_record m.version) r.1).0 ≡ false)
      → (first_statement db m.version (delete_record m.version) tx r).0 ≡ none
      → A
  unfolding first_statement
  first_statement-fails m tx (false, w) refuses ok = no_success ok
  first_statement-fails m tx (true, w) refuses ok =
      second_statement-fails m tx (db.exec tx (delete_record m.version) w) (refuses refl) ok

  in_transaction-fails :
      {A : Type 0} (m : Migration) (r : Option T × W)
      → IsSelfDropping m
      → (in_transaction db m.version m.down (delete_record m.version) r).0 ≡ none
      → A
  unfolding in_transaction
  in_transaction-fails m (none, w) drops ok = no_success ok
  in_transaction-fails m (some tx, w) drops ok =
      first_statement-fails m tx (db.exec tx (script m.down) w) (drops tx w) ok

  and_then-ends : (r : Result db) → (and_then db r (λ w. (none, w))).0 ≡ none → r.0 ≡ none
  unfolding and_then
  and_then-ends (some e, w) ok = ok
  and_then-ends (none, w) ok = ok

  down_checked-skips :
      (m : Migration) (r : Option ℕ × W)
      → IsSelfDropping m
      → (and_then db (down_checked db m r) (λ w. (none, w))).0 ≡ none
      → r.0 ≡ some 0
  unfolding down_checked and_then
  down_checked-skips m (none, w) drops ok = no_success ok
  down_checked-skips m (some zero, w) drops ok = refl
  down_checked-skips m (some (suc n), w) drops ok =
      in_transaction-fails m (db.begin w) drops (and_then-ends (revert db m w) ok)

  -- The version is not recorded where the rollbacks so far lead.
  abbrev Skips : Migration → Result db → Type 0
  Skips m r = (r.0 ≡ none) × ((db.count m.version r.1).0 ≡ some 0)

  and_then-Skips :
      (m : Migration) (r : Result db) (all others : W → Result db)
      → ((w : W) → (all w).0 ≡ none → Skips m (others w))
      → (and_then db r all).0 ≡ none
      → Skips m (and_then db r others)
  unfolding and_then
  and_then-Skips m (some e, w) all others later ok = no_success ok
  and_then-Skips m (none, w) all others later ok = later w ok

  -- If the last rollback is one whose script drops schema_migrations, then the rollbacks can go
  -- through only when its migration was not recorded by then, so was skipped: it can never be rolled
  -- back.
  pub self_dropping_skipped :
      (ms : List Migration) (m : Migration) (w : W)
      → IsSelfDropping m
      → (each_down db (ms ++ m ∷ []) w).0 ≡ none
      → ((each_down db ms w).0 ≡ none) × ((db.count m.version (each_down db ms w).1).0 ≡ some 0)
  unfolding each_down
  self_dropping_skipped [] m w drops ok =
      (refl, down_checked-skips m (db.count m.version w) drops ok)
  self_dropping_skipped (n ∷ ms) m w drops ok =
      and_then-Skips m (down_checked db n (db.count n.version w)) _ _
        (λ w'. self_dropping_skipped ms m w' drops) ok
