-- ===== src/Datastore.antt =====
-- internal/datastore/postgres.go: the pool of connections, and the connection as the message worker
-- takes it. The driver, pgx, is a parameter.
pub mod Pools
use backend_assessment.Prelude.{ℕ, Bool, true, false, Option, none, some, String}
use backend_assessment.Prelude.Dict.{Dict}
use backend_assessment.MessageProcessor.{Value, Statement, Services}

-- What pgxpool gives: a configuration from a URL with its limits set, a pool from a configuration,
-- and a pool's `Ping`. `none` and `false` are errors. Of a command's result only the error counts,
-- `none` once more, else the command tag.
pub record Driver (W Conf P C : Type 0) : Type 0 where
  pub parse_config : String → Option Conf
  pub set_max_conns : ℕ → Conf → Conf
  pub set_min_conns : ℕ → Conf → Conf
  pub connect : Conf → W → Option P × W
  pub ping : P → W → Bool × W
  pub close : P → W → W
  pub acquire : P → W → Option C × W
  pub exec : C → Statement → W → Option String × W
  pub release : C → W → W

-- The pool, or what failed.
pub data Connection (P : Type 0) : Type 0 where
  connected : P → Connection P
  parse_failed connect_failed ping_failed : Connection P

module _ {W Conf P C : Type 0} (driver : Driver W Conf P C) where
  unfoldable pub after_ping : P → Bool × W → Connection P × W
  after_ping pool (true, w) = (connected pool, w)
  after_ping pool (false, w) = (ping_failed, w)

  unfoldable pub after_connect : Option P × W → Connection P × W
  unfolding after_ping
  after_connect (none, w) = (connect_failed, w)
  after_connect (some pool, w) = after_ping pool (driver.ping pool w)

  -- `NewPostgresConnection`, on what the URL was parsed to.
  unfoldable pub connect_parsed : Option Conf → W → Connection P × W
  unfolding after_connect
  connect_parsed none w = (parse_failed, w)
  connect_parsed (some conf) w =
      after_connect (driver.connect (driver.set_min_conns 5 (driver.set_max_conns 25 conf)) w)

  unfoldable pub new_postgres_connection : String → W → Connection P × W
  unfolding connect_parsed
  new_postgres_connection url w = connect_parsed (driver.parse_config url) w

  -- `pgxConnWrapper.Exec` drops the command tag.
  abbrev pub went_through : Option String → Bool
  went_through none = false
  went_through (some tag) = true

  unfoldable pub wrapped_exec : C → Statement → W → Bool × W
  wrapped_exec conn s w = let (tag, w') = driver.exec conn s w in (went_through tag, w')

  -- A pool as the worker sees it, with `Acquire` and the wrapped connections.
  unfoldable pub worker_services :
      P → (W → ℕ × W) → (String → Option ℕ) → (Dict Value → Option String) → Services W C
  unfolding wrapped_exec
  worker_services pool now parse_time marshal = record {
    acquire = driver.acquire pool;
    exec = wrapped_exec;
    release = driver.release;
    now = now;
    parse_time = parse_time;
    marshal = marshal;
  }
