-- ===== src/Serve/Release.antt =====
-- What the server has open, a stack: pools of connections and tracers.
use backend_assessment.Prelude.{
  ◌≡◌, refl, ap, ◌∙◌, Bool, true, false, Option, none, some, String, List, ◌∷◌, ℤ, arith,
  if◌then◌else◌,
}
use backend_assessment.Floats.{Float64}
use backend_assessment.Process.{returned}
use backend_assessment.Config.{Config, load}
use backend_assessment.Datastore.{
  Driver, Connection, connected, parse_failed, connect_failed, ping_failed, new_postgres_connection,
}
use backend_assessment.Api.Router.{Server}
use backend_assessment.Serve.{
  Level, level_of, Tracing, disabled, running, Host, after_exporter, init_tracing, stop_tracing,
  finish, run_server, on_connection, main,
}

module _ (fl : Float64) {W Conf P C : Type 0} (atoi : String → Option ℤ)
    (parse_bool : String → Option Bool) (driver : Driver W Conf P C) (host : Host fl W) where
  -- A tracer is `none`.
  abbrev pub Opened : Type 0
  Opened = List (Option P)

  module _ (opened : W → Opened) where
    -- A pool, and a tracer, is only released when it was opened last.
    pub record Stacks : Type 0 where
      pub by_connect :
          (url : String) (w : W) (pool : P)
          → (new_postgres_connection driver url w).0 ≡ connected pool
          → opened (new_postgres_connection driver url w).1 ≡ some pool ∷ opened w
      pub by_close :
          (pool : P) (w : W) (rest : Opened)
          → opened w ≡ some pool ∷ rest
          → opened (driver.close pool w) ≡ rest
      pub by_start :
          (service environment : String) (w : W)
          → opened (host.start_tracer service environment w) ≡ none ∷ opened w
      pub by_stop :
          (w : W) (rest : Opened) → opened w ≡ none ∷ rest → opened (host.stop_tracer w).1 ≡ rest
      pub by_level : (l : Level) (w : W) → opened (host.set_level l w) ≡ opened w
      pub by_serve :
          (address : String) (server : Server fl) (w : W)
          → opened (host.serve address server w).1 ≡ opened w
      pub by_shutdown : (w : W) → opened (host.shutdown w).1 ≡ opened w
      pub by_exporter : (url : String) (w : W) → opened (host.new_exporter url w).1 ≡ opened w

    abbrev Holds : Tracing → Opened → Opened
    Holds disabled rest = rest
    Holds running rest = none ∷ rest

    stop_tracing-opened :
        (tracing : Tracing) (w : W) (rest : Opened)
        → Stacks
        → opened w ≡ Holds tracing rest
        → opened (stop_tracing fl atoi parse_bool driver host tracing w) ≡ rest
    unfolding stop_tracing
    stop_tracing-opened disabled w rest stacks e = e
    stop_tracing-opened running w rest stacks e = stacks.by_stop w rest e

    finish-opened :
        (pool : P) (tracing : Tracing) (r : Bool × W) (rest : Opened)
        → Stacks
        → opened r.1 ≡ Holds tracing (some pool ∷ rest)
        → (finish fl atoi parse_bool driver host pool tracing r).0 ≡ returned
        → opened (finish fl atoi parse_bool driver host pool tracing r).1 ≡ rest
    unfolding finish
    finish-opened pool tracing (false, w) rest stacks e ok = absurd (ground arith)
    finish-opened pool tracing (true, w) rest stacks e ok = stacks.by_close pool _ rest (
        stop_tracing-opened tracing (host.shutdown w).1 (some pool ∷ rest) stacks
          (stacks.by_shutdown w ∙ e))

    run_server-opened :
        (cfg : Config) (pool : P) (r : Option Tracing × W) (rest : Opened)
        → Stacks
        → ((tracing : Tracing) → r.0 ≡ some tracing → opened r.1 ≡ Holds tracing (some pool ∷ rest))
        → (run_server fl atoi parse_bool driver host cfg pool r).0 ≡ returned
        → opened (run_server fl atoi parse_bool driver host cfg pool r).1 ≡ rest
    unfolding run_server
    run_server-opened cfg pool (none, w) rest stacks holds ok = absurd (ground arith)
    run_server-opened cfg pool (some tracing, w) rest stacks holds ok =
        finish-opened pool tracing _ rest stacks (stacks.by_serve _ _ w ∙ holds tracing refl) ok

    after_exporter-opened :
        (cfg : Config) (r : Bool × W) (tracing : Tracing)
        → Stacks
        → (after_exporter fl atoi parse_bool driver host cfg r).0 ≡ some tracing
        → opened (after_exporter fl atoi parse_bool driver host cfg r).1
          ≡ Holds tracing (opened r.1)
    unfolding after_exporter
    after_exporter-opened cfg (false, w) tracing stacks e = absurd (ground arith)
    after_exporter-opened cfg (true, w) disabled stacks e = absurd (ground arith)
    after_exporter-opened cfg (true, w) running stacks e = stacks.by_start _ _ w

    -- With tracing on or off.
    switched-opened :
        (b : Bool) (cfg : Config) (w : W) (tracing : Tracing)
        → Stacks
        → let exported =
            after_exporter fl atoi parse_bool driver host cfg
              (host.new_exporter cfg.jaeger_endpoint w) in
          (if b then exported else (some disabled, w)).0 ≡ some tracing
          → opened (if b then exported else (some disabled, w)).1 ≡ Holds tracing (opened w)
    switched-opened true cfg w tracing stacks e =
        after_exporter-opened cfg (host.new_exporter cfg.jaeger_endpoint w) tracing stacks e
        ∙ ap (Holds tracing) (stacks.by_exporter cfg.jaeger_endpoint w)
    switched-opened false cfg w disabled stacks e = refl
    switched-opened false cfg w running stacks e = absurd (ground arith)

    init_tracing-opened :
        (cfg : Config) (w : W) (tracing : Tracing)
        → Stacks
        → (init_tracing fl atoi parse_bool driver host cfg w).0 ≡ some tracing
        → opened (init_tracing fl atoi parse_bool driver host cfg w).1 ≡ Holds tracing (opened w)
    unfolding init_tracing
    init_tracing-opened cfg w tracing stacks e =
        switched-opened cfg.tracing_enabled cfg w tracing stacks e

    on_connection-opened :
        (cfg : Config) (r : Connection P × W) (rest : Opened)
        → Stacks
        → ((pool : P) → r.0 ≡ connected pool → opened r.1 ≡ some pool ∷ rest)
        → (on_connection fl atoi parse_bool driver host cfg r).0 ≡ returned
        → opened (on_connection fl atoi parse_bool driver host cfg r).1 ≡ rest
    unfolding on_connection
    on_connection-opened cfg (connected pool, w) rest stacks holds ok =
        run_server-opened cfg pool (init_tracing fl atoi parse_bool driver host cfg w) rest stacks
          (λ t e. init_tracing-opened cfg w t stacks e ∙ ap (Holds t) (holds pool refl)) ok
    on_connection-opened cfg (parse_failed, w) rest stacks holds ok = absurd (ground arith)
    on_connection-opened cfg (connect_failed, w) rest stacks holds ok = absurd (ground arith)
    on_connection-opened cfg (ping_failed, w) rest stacks holds ok = absurd (ground arith)

    -- When the server's main returns, it has released what it opened, the tracer if there was one
    -- and the pool, each as the last that was still open.
    pub main-opened :
        (getenv : String → String) (w : W)
        → Stacks
        → (main fl atoi parse_bool driver host getenv w).0 ≡ returned
        → opened (main fl atoi parse_bool driver host getenv w).1 ≡ opened w
    unfolding main
    main-opened getenv w stacks ok =
        let cfg = load atoi parse_bool getenv in
        let w' = host.set_level (level_of cfg.log_level) w in
        on_connection-opened cfg (new_postgres_connection driver cfg.database_url w') (opened w)
          stacks
          (λ pool e.
            stacks.by_connect cfg.database_url w' pool e
            ∙ ap (λ l. some pool ∷ l) (stacks.by_level (level_of cfg.log_level) w))
          ok
