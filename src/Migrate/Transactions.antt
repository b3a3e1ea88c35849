-- ===== src/Migrate/Transactions.antt =====
-- The transactions of `migrateUp` and `migrateDown`, on every path of their bodies.
use backend_assessment.Prelude.{
  ℕ, zero, suc, ◌≡◌, ◌∙◌, Bool, true, false, Option, none, some, String, List, [], ◌∷◌, ℤ, refl,
}
use backend_assessment.Migrate.{
  Migration, Statement, script, Database, Result, end_transaction, second_statement,
  first_statement, in_transaction, after_create, up_checked, down_checked, and_then, each_up,
  each_down, migrate_up, migrate_down,
}

module _ {W T : Type 0} (db : Database W T) (active : W → List T) where
  -- Beginning opens a transaction; a commit, gone through or not, and a rollback end it.
  pub record Tracks : Type 0 where
    pub begun : (w : W) (tx : T) → (db.begin w).0 ≡ some tx → active (db.begin w).1 ≡ tx ∷ active w
    pub not_begun : (w : W) → (db.begin w).0 ≡ none → active (db.begin w).1 ≡ active w
    pub executes : (tx : T) (s : Statement) (w : W) → active (db.exec tx s w).1 ≡ active w
    pub commits :
        (tx : T) (w : W) (rest : List T) → active w ≡ tx ∷ rest → active (db.commit tx w).1 ≡ rest
    pub rolls_back :
        (tx : T) (w : W) (rest : List T) → active w ≡ tx ∷ rest → active (db.rollback tx w) ≡ rest
    pub counts : (version : ℤ) (w : W) → active (db.count version w).1 ≡ active w
    pub creates : (w : W) → active (db.create_table w).1 ≡ active w

  end_transaction-active :
      (version : ℤ) (r : Bool × W) → active (end_transaction db version r).1 ≡ active r.1
  unfolding end_transaction
  end_transaction-active version (true, w) = refl
  end_transaction-active version (false, w) = refl

  second_statement-active :
      (version : ℤ) (tx : T) (r : Bool × W) (rest : List T)
      → Tracks
      → active r.1 ≡ tx ∷ rest
      → active (second_statement db version tx r).1 ≡ rest
  unfolding second_statement
  second_statement-active version tx (false, w) rest tracks h = tracks.rolls_back tx w rest h
  second_statement-active version tx (true, w) rest tracks h =
      end_transaction-active version (db.commit tx w) ∙ tracks.commits tx w rest h

  first_statement-active :
      (version : ℤ) (s : Statement) (tx : T) (r : Bool × W) (rest : List T)
      → Tracks
      → active r.1 ≡ tx ∷ rest
      → active (first_statement db version s tx r).1 ≡ rest
  unfolding first_statement
  first_statement-active version s tx (false, w) rest tracks h = tracks.rolls_back tx w rest h
  first_statement-active version s tx (true, w) rest tracks h =
      second_statement-active version tx (db.exec tx s w) rest tracks (tracks.executes tx s w ∙ h)

  in_transaction-active :
      (version : ℤ) (text : String) (s : Statement) (r : Option T × W) (before : List T)
      → Tracks
      → ((tx : T) → r.0 ≡ some tx → active r.1 ≡ tx ∷ before)
      → (r.0 ≡ none → active r.1 ≡ before)
      → active (in_transaction db version text s r).1 ≡ before
  unfolding in_transaction
  in_transaction-active version text s (none, w) before tracks opened same = same refl
  in_transaction-active version text s (some tx, w) before tracks opened same =
      first_statement-active version s tx (db.exec tx (script text) w) before tracks
        (tracks.executes tx (script text) w ∙ opened tx refl)

  begin-active :
      (version : ℤ) (text : String) (s : Statement) (w : W)
      → Tracks
      → active (in_transaction db version text s (db.begin w)).1 ≡ active w
  begin-active version text s w tracks =
      in_transaction-active version text s (db.begin w) (active w) tracks (λ tx. tracks.begun w tx)
        (tracks.not_begun w)

  after_create-active :
      (m : Migration) (r : Bool × W) → Tracks → active (after_create db m r).1 ≡ active r.1
  unfolding after_create
  after_create-active m (false, w) tracks = refl
  after_create-active m (true, w) tracks = begin-active _ _ _ w tracks

  up_checked-active :
      (m : Migration) (r : Option ℕ × W) → Tracks → active (up_checked db m r).1 ≡ active r.1
  unfolding up_checked
  up_checked-active m (none, w) tracks =
      after_create-active m (db.create_table w) tracks ∙ tracks.creates w
  up_checked-active m (some zero, w) tracks = begin-active _ _ _ w tracks
  up_checked-active m (some (suc _), w) tracks = refl

  down_checked-active :
      (m : Migration) (r : Option ℕ × W) → Tracks → active (down_checked db m r).1 ≡ active r.1
  unfolding down_checked
  down_checked-active m (none, w) tracks = refl
  down_checked-active m (some zero, w) tracks = refl
  down_checked-active m (some (suc _), w) tracks = begin-active _ _ _ w tracks

  and_then-active :
      (r : Result db) (rest : W → Result db) (before : List T)
      → active r.1 ≡ before
      → ((w : W) → active (rest w).1 ≡ active w)
      → active (and_then db r rest).1 ≡ before
  unfolding and_then
  and_then-active (some e, w) rest before h keeps = h
  and_then-active (none, w) rest before h keeps = keeps w ∙ h

  each_up-active : (ms : List Migration) (w : W) → Tracks → active (each_up db ms w).1 ≡ active w
  unfolding each_up
  each_up-active [] w tracks = refl
  each_up-active (m ∷ ms) w tracks =
      and_then-active _ _ (active w)
        (up_checked-active m (db.count m.version w) tracks ∙ tracks.counts m.version w)
        (λ w'. each_up-active ms w' tracks)

  each_down-active :
      (ms : List Migration) (w : W) → Tracks → active (each_down db ms w).1 ≡ active w
  unfolding each_down
  each_down-active [] w tracks = refl
  each_down-active (m ∷ ms) w tracks =
      and_then-active _ _ (active w)
        (down_checked-active m (db.count m.version w) tracks ∙ tracks.counts m.version w)
        (λ w'. each_down-active ms w' tracks)

  -- Whatever fails on the way, migrateUp and migrateDown leave exactly the transactions open that
  -- were open before: each one that they begin is committed or rolled back.
  pub migrations_end :
      (ms : List Migration) (w : W)
      → Tracks
      → (active (migrate_up db ms w).1 ≡ active w) × (active (migrate_down db ms w).1 ≡ active w)
  unfolding migrate_up migrate_down
  migrations_end ms w tracks = (each_up-active _ w tracks, each_down-active _ w tracks)
