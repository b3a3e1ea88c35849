-- ===== src/Datastore/Pools.antt =====
-- Which pools and which connections are open, through NewPostgresConnection and the worker.
use backend_assessment.Prelude.{
  ◌≡◌, refl, ◌∙◌, Bool, true, false, Option, none, some, String, List, ◌∷◌,
}
use backend_assessment.Datastore.{
  Driver, Connection, connected, parse_failed, connect_failed, ping_failed, after_ping,
  after_connect, connect_parsed, new_postgres_connection,
}

module _ {W Conf P C : Type 0} (driver : Driver W Conf P C) (pools : W → List P) where
  -- Connecting opens one pool, and a ping none.
  pub record Opens : Type 0 where
    pub by_connect :
        (conf : Conf) (w : W) (pool : P)
        → (driver.connect conf w).0 ≡ some pool
        → pools (driver.connect conf w).1 ≡ pool ∷ pools w
    pub by_failure :
        (conf : Conf) (w : W)
        → (driver.connect conf w).0 ≡ none
        → pools (driver.connect conf w).1 ≡ pools w
    pub by_ping : (pool : P) (w : W) → pools (driver.ping pool w).1 ≡ pools w

  -- The open pools after an attempt, by its result.
  pub data Outcome (before after : List P) : Connection P → Type 0 where
    usable : (pool : P) → after ≡ pool ∷ before → Outcome before after (connected pool)
    unparsed : after ≡ before → Outcome before after parse_failed
    unconnected : after ≡ before → Outcome before after connect_failed
    leaked : (pool : P) → after ≡ pool ∷ before → Outcome before after ping_failed

  after_ping-Outcome :
      (pool : P) (r : Bool × W) (before : List P)
      → pools r.1 ≡ pool ∷ before
      → Outcome before (pools (after_ping driver pool r).1) (after_ping driver pool r).0
  unfolding after_ping
  after_ping-Outcome pool (true, w) before e = usable pool e
  after_ping-Outcome pool (false, w) before e = leaked pool e

  after_connect-Outcome :
      (r : Option P × W) (before : List P)
      → Opens
      → ((pool : P) → r.0 ≡ some pool → pools r.1 ≡ pool ∷ before)
      → (r.0 ≡ none → pools r.1 ≡ before)
      → Outcome before (pools (after_connect driver r).1) (after_connect driver r).0
  unfolding after_connect
  after_connect-Outcome (none, w) before opens opened same = unconnected (same refl)
  after_connect-Outcome (some pool, w) before opens opened same =
      after_ping-Outcome pool (driver.ping pool w) before (opens.by_ping pool w ∙ opened pool refl)

  connect_parsed-Outcome :
      (conf : Option Conf) (w : W)
      → Opens
      → Outcome (pools w) (pools (connect_parsed driver conf w).1) (connect_parsed driver conf w).0
  unfolding connect_parsed
  connect_parsed-Outcome none w opens = unparsed refl
  connect_parsed-Outcome (some conf) w opens =
      let limited = driver.set_min_conns 5 (driver.set_max_conns 25 conf) in
      after_connect-Outcome (driver.connect limited w) (pools w) opens
        (λ pool. opens.by_connect limited w pool) (opens.by_failure limited w)

  -- NewPostgresConnection hands out the one pool that it opened, and opens none if the URL does not
  -- parse or the pool cannot be made. But when the ping fails it gives an error and leaves the pool
  -- open: nobody holds it any more, so nobody can close it.
  pub new_postgres_connection-Outcome :
      (url : String) (w : W)
      → Opens
      → let (result, w') = new_postgres_connection driver url w in
        Outcome (pools w) (pools w') result
  unfolding new_postgres_connection
  new_postgres_connection-Outcome url w opens =
      connect_parsed-Outcome (driver.parse_config url) w opens
