-- ===== src/Migrate/Records.antt =====
-- What a successful `migrateUp` has achieved.
use backend_assessment.Prelude.{
  ℕ, zero, suc, ◌≡◌, refl, Bool, true, false, Option, none, some, String, List, [], ◌∷◌, ℤ, ltb_ℤ,
  All, arith,
}
use backend_assessment.Migrate.Sorting.{All-sort_by, sort_by-All}
use backend_assessment.Migrate.{
  Migration, Statement, insert_record, script, Failure, Database, Result, end_transaction,
  second_statement, first_statement, in_transaction, after_create, up_checked, and_then, each_up,
  migrate_up, sort_by, apply,
}

-- `Recorded` says that schema_migrations holds a version for everybody to see, `Staged` that a
-- transaction has inserted one that it has not committed yet, and `Deletes` that it has deleted one.
module _ {W T : Type 0} (db : Database W T) (Recorded : ℤ → W → Type 0)
    (Staged : T → ℤ → W → Type 0) (Deletes : T → W → Type 0) where
  abbrev pub Keeps : W → W → Type 0
  Keeps w w' = (v : ℤ) → Recorded v w → Recorded v w'

  -- The query counts records. A transaction begins empty, an insertion is staged and deletes
  -- nothing. What a transaction does is only seen once it is committed: then what is staged is
  -- recorded, and what was recorded stays so if the transaction has deleted nothing.
  pub record Laws : Type 0 where
    pub counted :
        (v : ℤ) (w : W) (n : ℕ) → (db.count v w).0 ≡ some (suc n) → Recorded v (db.count v w).1
    pub begins_empty : (w : W) (tx : T) → (db.begin w).0 ≡ some tx → ¬ Deletes tx (db.begin w).1
    pub stages :
        (tx : T) (v : ℤ) (name : String) (w : W)
        → (db.exec tx (insert_record v name) w).0 ≡ true
        → Staged tx v (db.exec tx (insert_record v name) w).1
    pub inserts :
        (tx : T) (v : ℤ) (name : String) (w : W)
        → ¬ Deletes tx w
        → ¬ Deletes tx (db.exec tx (insert_record v name) w).1
    pub commits :
        (tx : T) (v : ℤ) (w : W)
        → Staged tx v w
        → (db.commit tx w).0 ≡ true
        → Recorded v (db.commit tx w).1
    pub keeps_commit : (tx : T) (w : W) → ¬ Deletes tx w → Keeps w (db.commit tx w).1
    pub keeps_count : (v : ℤ) (w : W) → Keeps w (db.count v w).1
    pub keeps_create : (w : W) → Keeps w (db.create_table w).1
    pub keeps_begin : (w : W) → Keeps w (db.begin w).1
    pub keeps_exec : (tx : T) (s : Statement) (w : W) → Keeps w (db.exec tx s w).1

  -- The `Up` script of a migration deletes no record.
  abbrev pub IsHarmless : Migration → Type 0
  IsHarmless m = (tx : T) (w : W) → ¬ Deletes tx w → ¬ Deletes tx (db.exec tx (script m.up) w).1

  -- If there was no error, the version is recorded and no record is lost.
  abbrev Done : ℤ → W → Result db → Type 0
  Done v w r = r.0 ≡ none → Recorded v r.1 × Keeps w r.1

  no_success : {A : Type 0} {e : Failure} → some e ≡ none → A
  no_success h = ground arith

  end_transaction-Done :
      (v : ℤ) (r : Bool × W) (w : W)
      → (r.0 ≡ true → Recorded v r.1 × Keeps w r.1)
      → Done v w (end_transaction db v r)
  unfolding end_transaction
  end_transaction-Done v (true, w') w h = λ ok. h refl
  end_transaction-Done v (false, w') w h = λ ok. no_success ok

  second_statement-Done :
      (v : ℤ) (tx : T) (r : Bool × W) (w : W)
      → Laws
      → (r.0 ≡ true → Staged tx v r.1)
      → ¬ Deletes tx r.1
      → Keeps w r.1
      → Done v w (second_statement db v tx r)
  unfolding second_statement
  second_statement-Done v tx (false, w') w laws staged clean kept = λ ok. no_success ok
  second_statement-Done v tx (true, w') w laws staged clean kept =
      end_transaction-Done v (db.commit tx w') w λ ok. (
        laws.commits tx v w' (staged refl) ok,
        λ u known. laws.keeps_commit tx w' clean u (kept u known),
      )

  first_statement-Done :
      (v : ℤ) (name : String) (tx : T) (r : Bool × W) (w : W)
      → Laws
      → ¬ Deletes tx r.1
      → Keeps w r.1
      → Done v w (first_statement db v (insert_record v name) tx r)
  unfolding first_statement
  first_statement-Done v name tx (false, w') w laws clean kept = λ ok. no_success ok
  first_statement-Done v name tx (true, w') w laws clean kept =
      second_statement-Done v tx (db.exec tx (insert_record v name) w') w laws
        (laws.stages tx v name w') (laws.inserts tx v name w' clean)
        (λ u known. laws.keeps_exec tx (insert_record v name) w' u (kept u known))

  in_transaction-Done :
      (m : Migration) (r : Option T × W) (w : W)
      → Laws
      → IsHarmless m
      → ((tx : T) → r.0 ≡ some tx → ¬ Deletes tx r.1)
      → Keeps w r.1
      → Done m.version w (in_transaction db m.version m.up (insert_record m.version m.name) r)
  unfolding in_transaction
  in_transaction-Done m (none, w') w laws harmless begun kept = λ ok. no_success ok
  in_transaction-Done m (some tx, w') w laws harmless begun kept =
      first_statement-Done m.version m.name tx (db.exec tx (script m.up) w') w laws
        (harmless tx w' (begun tx refl))
        (λ u known. laws.keeps_exec tx (script m.up) w' u (kept u known))

  apply-Done :
      (m : Migration) (w w' : W)
      → Laws
      → IsHarmless m
      → Keeps w w'
      → Done m.version w (apply db m w')
  apply-Done m w w' laws harmless kept =
      in_transaction-Done m (db.begin w') w laws harmless (laws.begins_empty w')
        (λ u known. laws.keeps_begin w' u (kept u known))

  after_create-Done :
      (m : Migration) (r : Bool × W) (w : W)
      → Laws
      → IsHarmless m
      → Keeps w r.1
      → Done m.version w (after_create db m r)
  unfolding after_create
  after_create-Done m (false, w') w laws harmless kept = λ ok. no_success ok
  after_create-Done m (true, w') w laws harmless kept = apply-Done m w w' laws harmless kept

  up_checked-Done :
      (m : Migration) (r : Option ℕ × W) (w : W)
      → Laws
      → IsHarmless m
      → ((n : ℕ) → r.0 ≡ some (suc n) → Recorded m.version r.1)
      → Keeps w r.1
      → Done m.version w (up_checked db m r)
  unfolding up_checked
  up_checked-Done m (none, w') w laws harmless counted kept =
      after_create-Done m (db.create_table w') w laws harmless
        (λ u known. laws.keeps_create w' u (kept u known))
  up_checked-Done m (some zero, w') w laws harmless counted kept =
      apply-Done m w w' laws harmless kept
  up_checked-Done m (some (suc n), w') w laws harmless counted kept = λ ok. (counted n refl, kept)

  -- All the migrations of a list are recorded in the world that a run leaves, if it had no error.
  abbrev AllDone : List Migration → W → Result db → Type 0
  AllDone ms w r = r.0 ≡ none → All (λ m. Recorded m.version r.1) ms × Keeps w r.1

  and_then-AllDone :
      (m : Migration) (ms : List Migration) (r : Result db) (rest : W → Result db) (w : W)
      → Done m.version w r
      → ((w' : W) → AllDone ms w' (rest w'))
      → AllDone (m ∷ ms) w (and_then db r rest)
  unfolding and_then
  and_then-AllDone m ms (some e, w') rest w this later = λ ok. no_success ok
  and_then-AllDone m ms (none, w') rest w this later = λ ok.
      let (recorded, kept) = this refl in
      let (others, kept') = later w' ok in
      ((kept' m.version recorded, others), λ u known. kept' u (kept u known))

  each_up-AllDone :
      (ms : List Migration) (w : W) → Laws → All IsHarmless ms → AllDone ms w (each_up db ms w)
  unfolding each_up
  each_up-AllDone [] w laws harmless = λ ok. (tt, λ u known. known)
  each_up-AllDone (m ∷ ms) w laws (harmless, rest) =
      and_then-AllDone m ms (up_checked db m (db.count m.version w)) _ w
        (up_checked-Done m (db.count m.version w) w laws harmless (laws.counted m.version w)
          (laws.keeps_count m.version w))
        (λ w'. each_up-AllDone ms w' laws rest)

  -- When migrateUp returns without an error, every migration of the list is recorded in
  -- schema_migrations, in whatever order the list has them and whichever were applied before. Taken
  -- for granted is that no `Up` script of the list deletes a record.
  pub migrate_up-AllDone :
      (ms : List Migration) (w : W)
      → Laws
      → All IsHarmless ms
      → (migrate_up db ms w).0 ≡ none
      → All (λ m. Recorded m.version (migrate_up db ms w).1) ms
  unfolding migrate_up
  migrate_up-AllDone ms w laws harmless ok =
      let (recorded, kept) =
        each_up-AllDone (sort_by (λ i j. ltb_ℤ i j) ms) w laws
          (sort_by-All IsHarmless _ ms harmless) ok in
      All-sort_by (λ m. Recorded m.version _) _ ms recorded
