-- ===== src/Tests/Seeds.antt =====
-- The test data: what its rows refer to, and its storage in a database that keeps what is stored
-- and what is staged.
use mathlib.Core.Bool.{◌&&◌}
use backend_assessment.Prelude.{
  ℕ, ◌≡◌, refl, Bool, true, false, none, some, String, List, [], ◌∷◌, ◌++◌, map, str_eq,
  if◌then◌else◌, length,
}
use backend_assessment.Seed.Rows.{SiteRow, GatewayRow, organizations, users, sites, gateways}
use backend_assessment.Seed.{Statement, insert_sites, Database, seed, seed_in, proceed}
use backend_assessment.Process.{Exit, returned}
use backend_assessment.Datastore.{
  Driver, new_postgres_connection, connect_parsed, after_connect, after_ping,
}
use backend_assessment.Seed.Command.{main, seed_on}
use backend_assessment.Seed.Outcomes.{Stores, ExitTells, main-ExitTells}
use backend_assessment.Seed.Transaction.{Laws, all_data}

is_in : String → List String → Bool
is_in id [] = false
is_in id (i ∷ rest) = let later = is_in id rest in if str_eq i id then true else later

all_in : List String → List String → Bool
all_in [] ids = true
all_in (i ∷ rest) ids = is_in i ids && all_in rest ids

distinct : List String → Bool
distinct [] = true
distinct (i ∷ rest) = let later = distinct rest in if is_in i rest then false else later

-- A gateway stands at a site of its own organization.
at_own_site : List SiteRow → GatewayRow → Bool
at_own_site [] g = false
at_own_site (s ∷ rest) g =
    let later = at_own_site rest g in
    if str_eq s.id g.site_id then str_eq s.organization_id g.organization_id else later

all_at_own_site : List GatewayRow → Bool
all_at_own_site [] = true
all_at_own_site (g ∷ rest) = at_own_site sites g && all_at_own_site rest

references :
    (all_in (map (λ u. u.organization_id) users) (map (λ o. o.id) organizations) ≡ true)
    × (all_in (map (λ s. s.organization_id) sites) (map (λ o. o.id) organizations) ≡ true)
    × (all_at_own_site gateways ≡ true)
unfolding all_in is_in at_own_site all_at_own_site
references = (refl, refl, refl)

unique :
    (distinct (map (λ u. u.email) users) ≡ true) × (distinct (map (λ g. g.serial) gateways) ≡ true)
unfolding distinct is_in
unique = (refl, refl)

-- The summary that the program prints.
summary_counts :
    (length organizations ≡ 3) × (length users ≡ 4) × (length sites ≡ 5) × (length gateways ≡ 7)
summary_counts = (refl, refl, refl, refl)

record World : Type 0 where
  stored : List Statement
  staged : List Statement
  -- Whether the next statement goes through.
  works : Bool

abbrev database : Database World ℕ
database = record {
  begin = λ w. (some 1, record w { staged = [] });
  exec = λ tx s w. (w.works, record w { staged = s ∷ w.staged; works = true });
  commit = λ tx w. (true, record w { stored = w.staged ++ w.stored });
  rollback = λ tx w. record w { staged = [] };
}

database-Laws : Laws database (λ w. w.stored) (λ w. w.staged)
database-Laws = record {
  by_begin = λ w. refl;
  begins_empty = λ w. refl;
  by_exec = λ tx s w. refl;
  stages = λ tx s w ok. refl;
  commits = λ tx w ok. refl;
  commit_fails = λ tx w lost. absurd (cc (lost));
  by_rollback = λ tx w. refl;
}

abbrev sound : World
sound = record { stored = insert_sites [] ∷ []; staged = []; works = true }

-- No pool fails, and nothing is kept of what is printed.
abbrev driver : Driver World ℕ ℕ ℕ
driver = record {
  parse_config = λ url. some 0;
  set_max_conns = λ n conf. n;
  set_min_conns = λ n conf. conf;
  connect = λ conf w. (some conf, w);
  ping = λ pool w. (true, w);
  close = λ pool w. w;
  acquire = λ pool w. (none, w);
  exec = λ conn s w. (none, w);
  release = λ conn w. w;
}

abbrev run : World → Exit × World
run w = main (λ s. none) (λ s. none) driver (λ pool. database) (λ line v. v) (λ v. "") w

world-Stores :
    Stores
      (λ s. none)
      (λ s. none)
      driver
      (λ pool. database)
      (λ line v. v)
      (λ w. w.stored)
      (λ w. w.staged)
unfolding new_postgres_connection connect_parsed after_connect after_ping
world-Stores = record {
  by_database = λ pool. database-Laws;
  by_connection = λ url w. refl;
  by_close = λ pool w. refl;
  by_print = λ line w. refl;
}

main-ExitTells_example :
    ExitTells
      (λ s. none)
      (λ s. none)
      driver
      (λ pool. database)
      (λ line v. v)
      (λ w. w.stored)
      (λ w. w.staged)
      (insert_sites [] ∷ [])
      (run sound)
main-ExitTells_example =
    main-ExitTells (λ s. none) (λ s. none) driver (λ pool. database) (λ line v. v) (λ w. w.stored)
      (λ w. w.staged) (λ v. "") sound world-Stores

stores_all :
    run sound
    ≡ (returned, record sound { stored = all_data ++ insert_sites [] ∷ []; staged = all_data })
unfolding main seed_on seed seed_in proceed
stores_all = refl

fails : (seed database (record sound { works = false })).1.stored ≡ insert_sites [] ∷ []
unfolding seed seed_in proceed
fails = refl
