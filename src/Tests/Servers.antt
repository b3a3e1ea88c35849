-- ===== src/Tests/Servers.antt =====
-- A start and an end of the server, in a world that is the stack of what is open.
use backend_assessment.Prelude.{
  ℕ, ◌≡◌, refl, Bool, true, false, none, some, Option, String, List, [], ◌∷◌, ℤ, str_eq, ap,
  if◌then◌else◌,
}
use backend_assessment.Process.{returned}
use backend_assessment.Datastore.{
  Driver, new_postgres_connection, connect_parsed, after_connect, after_ping,
}
use backend_assessment.Serve.{Host, main}
use backend_assessment.Serve.Release.{Stacks, main-opened}
use backend_assessment.Tests.Numbers.{whole}

abbrev pub Stack : Type 0
Stack = List (Option ℕ)

abbrev pub pop : Stack → Stack
pop [] = []
pop (x ∷ rest) = rest

abbrev pub driver : Driver Stack ℕ ℕ ℕ
driver = record {
  parse_config = λ url. some 0;
  set_max_conns = λ n conf. n;
  set_min_conns = λ n conf. conf;
  connect = λ conf w. (some conf, some conf ∷ w);
  ping = λ pool w. (true, w);
  close = λ pool w. pop w;
  acquire = λ pool w. (some 1, w);
  exec = λ conn s w. (some "UPDATE 1", w);
  release = λ conn w. w;
}

abbrev pub host : Host whole Stack
host = record {
  set_level = λ l w. w;
  serve = λ address server w. (true, w);
  shutdown = λ w. (false, w);
  new_exporter = λ url w. (true, w);
  start_tracer = λ service environment w. none ∷ w;
  stop_tracer = λ w. (true, pop w);
  decimal = λ n. "8080";
}

abbrev pub atoi : String → Option ℤ
atoi s = none

abbrev pub parse_bool : String → Option Bool
parse_bool s = some true

-- Tracing is switched on, and every other setting has its default.
abbrev pub getenv : String → String
getenv v = if str_eq v "TRACING_ENABLED" then "1" else ""

abbrev open_at_end : Stack
open_at_end = (main whole atoi parse_bool driver host getenv []).1

driver-Stacks : Stacks whole atoi parse_bool driver host (λ w. w)
unfolding new_postgres_connection connect_parsed after_connect after_ping
driver-Stacks = record {
  by_connect = λ url w pool e. cc;
  by_close = λ pool w rest e. ap pop e;
  by_start = λ service environment w. refl;
  by_stop = λ w rest e. ap pop e;
  by_level = λ l w. refl;
  by_serve = λ address server w. refl;
  by_shutdown = λ w. refl;
  by_exporter = λ url w. refl;
}

returns : (main whole atoi parse_bool driver host getenv []).0 ≡ returned
unfolding main
returns = refl

main-opened_example : open_at_end ≡ []
main-opened_example =
    main-opened whole atoi parse_bool driver host (λ w. w) getenv [] driver-Stacks returns
