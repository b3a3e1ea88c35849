-- ===== src/Cli/Command.antt =====
-- cmd/cli/main.go, and `runWorkerLoadImpl` of cmd/cli/worker_load.go around its loop. The package
-- flag is a parameter: it changes the defaults by the arguments, `none` where it ends the process.
-- A queue of size 0 or less is not modelled: the one has no buffer, the other panics.
pub mod Targets
use Prim.Native.String.{◌++◌ as text_append}
use backend_assessment.Prelude.{
  ℕ, suc, ◌≡◌, Bool, true, false, Option, none, some, String, List, [], ◌∷◌, ℤ, pos, if◌then◌else◌,
  str_eq,
}
use backend_assessment.Floats.{Float64}
use backend_assessment.Process.{Exit, returned, exited, print_all}
use backend_assessment.Config.{Config, load}
use backend_assessment.Datastore.{
  Driver, Connection, connected, parse_failed, connect_failed, ping_failed, new_postgres_connection,
}
use backend_assessment.Serve.{Tracing, Host, init_tracing, stop_tracing}
use backend_assessment.MessageProcessor.{Services}
use backend_assessment.Cli.{Sources, fetch_ids}
use backend_assessment.Cli.Run.{Run, reported, start, Reach}

pub record Flags : Type 0 where
  pub rate_per_sec : ℤ
  pub duration_sec : ℤ
  pub queue_size : ℤ
  pub worker_id : ℤ

abbrev pub default_flags : Flags
default_flags = record {
  rate_per_sec = pos 10;
  duration_sec = pos 30;
  queue_size = pos 100;
  worker_id = pos 1;
}

-- `printHelp`
abbrev pub help : List String
help =
    "Backend Assessment CLI" ∷ "\nUsage:" ∷ "  cli <command> [options]" ∷ "\nAvailable Commands:"
    ∷ "  help     - Show this help message" ∷ "  version  - Show version information"
    ∷ "  worker-load - Run message worker under synthetic load" ∷ []

-- What a command line asks for: an end, or the load with its flags.
pub data Dispatch (V : Type 0) : Type 0 where
  ended : Exit → V → Dispatch V
  worker_load : Flags → V → Dispatch V

module _ {V : Type 0} (print : String → V → V) (parse : Flags → List String → Option Flags) where
  -- `runWorkerLoad`
  unfoldable pub run_worker_load : Option Flags → V → Dispatch V
  run_worker_load none v = ended exited v
  run_worker_load (some flags) v = worker_load flags v

  -- `main`, on `os.Args`, but for what `runWorkerLoadImpl` does.
  unfoldable pub dispatch : List String → V → Dispatch V
  unfolding print_all run_worker_load
  dispatch [] v = ended exited (print_all print help v)
  dispatch (program ∷ []) v = ended exited (print_all print help v)
  dispatch (program ∷ command ∷ rest) v =
      if str_eq command "help"
      then ended returned (print_all print help v)
      else if str_eq command "version"
      then ended returned (print "Backend Assessment CLI v1.0.0" v)
      else if str_eq command "worker-load"
      then run_worker_load (parse default_flags rest) v
      else ended exited (
          print_all print help
            (print (text_append "Unknown command: " (text_append command "\n")) v))

-- What `runWorkerLoadImpl` has when it starts the worker.
pub record Ready (P : Type 0) : Type 0 where
  pub pool : P
  pub tracing : Tracing
  pub gateway_ids : List String

unfoldable pub with_ids : {P : Type 0} → P → Tracing → Option (List String) → Option (Ready P)
with_ids pool tracing none = none
with_ids pool tracing (some []) = none
with_ids pool tracing (some (id ∷ ids)) =
    some (record { pool = pool; tracing = tracing; gateway_ids = id ∷ ids })

-- `fetchGatewayIDs`
unfoldable pub fetch_gateway_ids : Option (List (Option String)) → Option (List String)
unfolding fetch_ids
fetch_gateway_ids none = none
fetch_gateway_ids (some rows) = fetch_ids rows

module _ {V Conf P C : Type 0} (fl : Float64) (atoi : String → Option ℤ)
    (parse_bool : String → Option Bool) (driver : Driver V Conf P C) (host : Host fl V)
    (query_ids : P → V → Option (List (Option String)) × V) where
  unfoldable pub with_tracing : P → Option Tracing × V → Option (Ready P) × V
  unfolding with_ids fetch_gateway_ids
  with_tracing pool (none, v) = (none, v)
  with_tracing pool (some tracing, v) =
      let (rows, v') = query_ids pool v in (with_ids pool tracing (fetch_gateway_ids rows), v')

  unfoldable pub with_connection : Config → Connection P × V → Option (Ready P) × V
  unfolding with_tracing
  with_connection cfg (connected pool, v) =
      with_tracing pool (init_tracing fl atoi parse_bool driver host cfg v)
  with_connection cfg (parse_failed, v) = (none, v)
  with_connection cfg (connect_failed, v) = (none, v)
  with_connection cfg (ping_failed, v) = (none, v)

  -- `runWorkerLoadImpl` up to the start of the worker; `none` where it ends by `Fatalf`.
  unfoldable pub prepare : (String → String) → V → Option (Ready P) × V
  unfolding with_connection
  prepare getenv v =
      let cfg = load atoi parse_bool getenv in
      with_connection cfg (new_postgres_connection driver cfg.database_url v)

  -- The deferred calls.
  unfoldable pub close_all : Ready P → V → V
  close_all ready v =
      driver.close ready.pool (stop_tracing fl atoi parse_bool driver host ready.tracing v)

  module _ {W : Type 0} (services : P → Services V C) (sources : Sources W) where
    -- `runWorkerLoadImpl`, from the worlds at its start, and what it leaves to the database.
    pub data WorkerLoad (getenv : String → String) (flags : Flags) (v : V) (w : W) (exit : Exit)
        (v' : V) : Type 0 where
      given_up :
          (prepare getenv v).0 ≡ none
          → exit ≡ exited
          → v' ≡ (prepare getenv v).1
          → WorkerLoad getenv flags v w exit v'
      completed :
          (ready : Ready P) (v₁ : V) (size : ℕ) (a : Run (services ready.pool) W)
          (produced left : ℕ)
          → prepare getenv v ≡ (some ready, v₁)
          → flags.queue_size ≡ pos (suc size)
          → Reach
              (services ready.pool)
              sources
              ready.gateway_ids
              flags.rate_per_sec
              (start (services ready.pool) (suc size) w v₁)
              a
          → a.phase ≡ reported produced left
          → exit ≡ returned
          → v' ≡ close_all ready a.system.world
          → WorkerLoad getenv flags v w exit v'
