-- ===== src/Seed/Transaction.antt =====
-- All of the test data, or none of it.
use backend_assessment.Prelude.{
  ◌≡◌, refl, ◌∙◌, ap, ◌⊎◌, inl, inr, Bool, true, false, Option, none, some, List, [], ◌∷◌, ◌++◌,
}
use backend_assessment.Seed.Rows.{organizations, users, sites, gateways}
use backend_assessment.Seed.{
  Statement, insert_organizations, insert_users, insert_sites, insert_gateways, Failure,
  commit_failed, Database, Result, after_commit, proceed, seed_in, seed,
}

-- The newest first.
abbrev pub all_data : List Statement
all_data =
    insert_gateways gateways
    ∷ insert_sites sites
    ∷ insert_users users
    ∷ insert_organizations organizations
    ∷ []

module _ {W T : Type 0} (db : Database W T) (stored staged : W → List Statement) where
  -- What others see of the database, and what the transaction that runs has done so far, both with
  -- the newest first.
  pub record Laws : Type 0 where
    pub by_begin : (w : W) → stored (db.begin w).1 ≡ stored w
    pub begins_empty : (w : W) → staged (db.begin w).1 ≡ []
    pub by_exec : (tx : T) (s : Statement) (w : W) → stored (db.exec tx s w).1 ≡ stored w
    pub stages :
        (tx : T) (s : Statement) (w : W)
        → (db.exec tx s w).0 ≡ true
        → staged (db.exec tx s w).1 ≡ s ∷ staged w
    pub commits :
        (tx : T) (w : W)
        → (db.commit tx w).0 ≡ true
        → stored (db.commit tx w).1 ≡ staged w ++ stored w
    -- A commit that gives an error may have been carried out all the same.
    pub commit_fails :
        (tx : T) (w : W)
        → (db.commit tx w).0 ≡ false
        → (stored (db.commit tx w).1 ≡ stored w)
          ⊎ (stored (db.commit tx w).1 ≡ staged w ++ stored w)
    pub by_rollback : (tx : T) (w : W) → stored (db.rollback tx w) ≡ stored w

  -- The statements of a run: all of them are stored if it succeeds, or if only the commit failed,
  -- which leaves it open; and none of them otherwise.
  abbrev pub AllOrNothing : List Statement → List Statement → Result db → Type 0
  AllOrNothing done before (none, w) = stored w ≡ done ++ before
  AllOrNothing done before (some e, w) =
      (stored w ≡ before) ⊎ ((e ≡ commit_failed) × (stored w ≡ done ++ before))

  after_commit-AllOrNothing :
      (r : Bool × W) (done before : List Statement)
      → (r.0 ≡ true → stored r.1 ≡ done ++ before)
      → (r.0 ≡ false → (stored r.1 ≡ before) ⊎ (stored r.1 ≡ done ++ before))
      → AllOrNothing done before (after_commit db r)
  unfolding after_commit
  after_commit-AllOrNothing (true, w) done before kept lost = kept refl
  after_commit-AllOrNothing (false, w) done before kept lost = elim (lost refl) [
    | inl same ↦ inl same
    | inr all ↦ inr (refl, all)
  ]

  proceed-AllOrNothing :
      (tx : T) (failed : Failure) (r : Bool × W) (rest : W → Result db)
      (done so_far before : List Statement)
      → Laws
      → stored r.1 ≡ before
      → (r.0 ≡ true → staged r.1 ≡ so_far)
      → ((w : W) → stored w ≡ before → staged w ≡ so_far → AllOrNothing done before (rest w))
      → AllOrNothing done before (proceed db tx failed r rest)
  unfolding proceed
  proceed-AllOrNothing tx failed (false, w) rest done so_far before laws same staging later =
      inl (laws.by_rollback tx w ∙ same)
  proceed-AllOrNothing tx failed (true, w) rest done so_far before laws same staging later =
      later w same (staging refl)

  -- One statement more, if the rest keeps to it.
  exec-AllOrNothing :
      (tx : T) (failed : Failure) (s : Statement) (w : W) (rest : W → Result db)
      (done so_far before : List Statement)
      → Laws
      → stored w ≡ before
      → staged w ≡ so_far
      → ((w' : W)
          → stored w' ≡ before
          → staged w' ≡ s ∷ so_far
          → AllOrNothing done before (rest w'))
      → AllOrNothing done before (proceed db tx failed (db.exec tx s w) rest)
  exec-AllOrNothing tx failed s w rest done so_far before laws same begun later =
      proceed-AllOrNothing tx failed (db.exec tx s w) rest done (s ∷ so_far) before laws
        (laws.by_exec tx s w ∙ same) (λ ok. laws.stages tx s w ok ∙ ap (λ l. s ∷ l) begun) later

  commit-AllOrNothing :
      (tx : T) (w : W) (done before : List Statement)
      → Laws
      → stored w ≡ before
      → staged w ≡ done
      → AllOrNothing done before (after_commit db (db.commit tx w))
  commit-AllOrNothing tx w done before laws same all =
      after_commit-AllOrNothing (db.commit tx w) done before
        (λ ok. laws.commits tx w ok ∙ rw (all, same))
        (λ lost. elim (laws.commit_fails tx w lost) [
          | inl none_of_it ↦ inl (none_of_it ∙ same)
          | inr all_of_it ↦ inr (all_of_it ∙ rw (all, same))
        ])

  seed_in-AllOrNothing :
      (r : Option T × W) (before : List Statement)
      → Laws
      → stored r.1 ≡ before
      → staged r.1 ≡ []
      → AllOrNothing all_data before (seed_in db r)
  unfolding seed_in
  seed_in-AllOrNothing (none, w) before laws same begun = inl same
  seed_in-AllOrNothing (some tx, w) before laws same begun =
      exec-AllOrNothing tx _ (insert_organizations organizations) w _ all_data _ _ laws same begun
        λ w₁ s₁ g₁.
          exec-AllOrNothing tx _ (insert_users users) w₁ _ all_data _ _ laws s₁ g₁ λ w₂ s₂ g₂.
            exec-AllOrNothing tx _ (insert_sites sites) w₂ _ all_data _ _ laws s₂ g₂ λ w₃ s₃ g₃.
              exec-AllOrNothing tx _ (insert_gateways gateways) w₃ _ all_data _ _ laws s₃ g₃
                λ w₄ s₄ g₄. commit-AllOrNothing tx w₄ all_data _ laws s₄ g₄

  -- The seeding is all or nothing: when it ends without an error the four statements are stored,
  -- organizations first, then users, sites and gateways; when it ends with an error, wherever that
  -- was, the stored data is as before, unless it was the commit that failed: then all four may be
  -- stored too.
  pub seed-AllOrNothing : (w : W) → Laws → AllOrNothing all_data (stored w) (seed db w)
  unfolding seed
  seed-AllOrNothing w laws =
      seed_in-AllOrNothing (db.begin w) (stored w) laws (laws.by_begin w) (laws.begins_empty w)
