-- ===== src/Serve.antt =====
-- cmd/server/main.go and internal/observability/tracing.go: how the server starts and ends. The HTTP
-- server and the tracing exporter are parameters. The timeouts and the log format are left out.
pub mod Release
use Prim.Native.String.{◌++◌ as text_append}
use backend_assessment.Prelude.{
  Bool, true, false, Option, none, some, String, [], ℤ, if◌then◌else◌, str_eq,
}
use backend_assessment.Floats.{Float64}
use backend_assessment.Process.{Exit, returned, exited}
use backend_assessment.Config.{Config, load}
use backend_assessment.Datastore.{
  Driver, Connection, connected, parse_failed, connect_failed, ping_failed, new_postgres_connection,
}
use backend_assessment.Api.Limiter.{new_limiter}
use backend_assessment.Api.Router.{Server}

pub data Level : Type 0 where
  debug info warn : Level

-- The level of `setupLogging`.
unfoldable pub level_of : String → Level
level_of s = if str_eq s "debug" then debug else if str_eq s "info" then info else warn

-- `NewServer`
unfoldable pub new_server : (fl : Float64) → Config → Server fl
new_server fl cfg = record {
  limiter = new_limiter fl cfg.rate_limit_rpm cfg.rate_limit_burst;
  gateway_cache = [];
}

-- What `InitTracing` gives to shut down: nothing, or a tracer that runs.
pub data Tracing : Type 0 where
  disabled running : Tracing

-- `serve` listens at an address until a signal comes, and gives `false` if it could not listen.
-- `new_exporter` says whether an exporter could be made; `start_tracer` starts it for a service in
-- an environment.
pub record Host (fl : Float64) (W : Type 0) : Type 1 where
  pub set_level : Level → W → W
  pub serve : String → Server fl → W → Bool × W
  pub shutdown : W → Bool × W
  pub new_exporter : String → W → Bool × W
  pub start_tracer : String → String → W → W
  pub stop_tracer : W → Bool × W
  pub decimal : ℤ → String

module _ (fl : Float64) {W Conf P C : Type 0} (atoi : String → Option ℤ)
    (parse_bool : String → Option Bool) (driver : Driver W Conf P C) (host : Host fl W) where
  unfoldable pub after_exporter : Config → Bool × W → Option Tracing × W
  after_exporter cfg (false, w) = (none, w)
  after_exporter cfg (true, w) =
      (some running, host.start_tracer cfg.service_name cfg.environment w)

  -- `InitTracing`
  unfoldable pub init_tracing : Config → W → Option Tracing × W
  unfolding after_exporter
  init_tracing cfg w =
      if cfg.tracing_enabled
      then after_exporter cfg (host.new_exporter cfg.jaeger_endpoint w)
      else (some disabled, w)

  -- The function that `InitTracing` returns; its error is only logged.
  unfoldable pub stop_tracing : Tracing → W → W
  stop_tracing disabled w = w
  stop_tracing running w = (host.stop_tracer w).1

  -- After the signal: the shutdown, whose error is only logged, and the deferred calls.
  unfoldable pub finish : P → Tracing → Bool × W → Exit × W
  unfolding stop_tracing
  finish pool tracing (false, w) = (exited, w)
  finish pool tracing (true, w) =
      (returned, driver.close pool (stop_tracing tracing (host.shutdown w).1))

  unfoldable pub run_server : Config → P → Option Tracing × W → Exit × W
  unfolding finish new_server
  run_server cfg pool (none, w) = (exited, w)
  run_server cfg pool (some tracing, w) =
      finish pool tracing
        (host.serve (text_append ":" (host.decimal cfg.port)) (new_server fl cfg) w)

  unfoldable pub on_connection : Config → Connection P × W → Exit × W
  unfolding run_server init_tracing
  on_connection cfg (connected pool, w) = run_server cfg pool (init_tracing cfg w)
  on_connection cfg (parse_failed, w) = (exited, w)
  on_connection cfg (connect_failed, w) = (exited, w)
  on_connection cfg (ping_failed, w) = (exited, w)

  -- `main`
  unfoldable pub main : (String → String) → W → Exit × W
  unfolding load level_of new_postgres_connection on_connection
  main getenv w =
      let cfg = load atoi parse_bool getenv in
      on_connection cfg (
        new_postgres_connection driver cfg.database_url (host.set_level (level_of cfg.log_level) w))
