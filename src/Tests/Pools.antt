-- ===== src/Tests/Pools.antt =====
-- A driver whose world holds the open pools by number, and whose database does not answer.
use backend_assessment.Prelude.{ℕ, ◌+◌, ◌≡◌, refl, false, none, some, List, [], ◌∷◌}
use backend_assessment.Datastore.{
  Driver, ping_failed, new_postgres_connection, connect_parsed, after_connect, after_ping,
}
use backend_assessment.Datastore.Pools.{Opens, Outcome, new_postgres_connection-Outcome}

-- The configuration is its two limits.
abbrev deaf : Driver (List ℕ) (ℕ × ℕ) ℕ ℕ
deaf = record {
  parse_config = λ url. some (4, 0);
  set_max_conns = λ n conf. (n, conf.1);
  set_min_conns = λ n conf. (conf.0, n);
  connect = λ conf w. (some (conf.0 + conf.1), (conf.0 + conf.1) ∷ w);
  ping = λ pool w. (false, w);
  close = λ pool w. [];
  acquire = λ pool w. (none, w);
  exec = λ conn s w. (none, w);
  release = λ conn w. w;
}

deaf-Opens : Opens deaf (λ w. w)
deaf-Opens = record {
  by_connect = λ conf w pool h. cc;
  by_failure = λ conf w h. cc;
  by_ping = λ pool w. refl;
}

new_postgres_connection-Outcome_example :
    let (result, w) = new_postgres_connection deaf "postgres://" [] in
    Outcome deaf (λ v. v) [] w result
new_postgres_connection-Outcome_example =
    new_postgres_connection-Outcome deaf (λ w. w) "postgres://" [] deaf-Opens

-- The pool, made with the limits 25 and 5, is left open.
left_open : new_postgres_connection deaf "postgres://" [] ≡ (ping_failed, 30 ∷ [])
unfolding new_postgres_connection connect_parsed after_connect after_ping
left_open = refl
