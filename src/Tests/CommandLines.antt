-- ===== src/Tests/CommandLines.antt =====
-- The command line of cmd/cli, and a load of one message on the database of the server's test.
use backend_assessment.Prelude.{
  ℕ, ◌≡◌, refl, false, some, none, Option, List, [], ◌∷◌, String, pos, All, arith,
}
use backend_assessment.Config.{load}
use backend_assessment.Process.{returned, exited}
use backend_assessment.Datastore.{worker_services, new_postgres_connection}
use backend_assessment.MessageProcessor.{GatewayMessage, Services, process_message}
use backend_assessment.MessageProcessor.Queue.{
  process_all, enqueue_message, new_worker, get_queue_size,
}
use backend_assessment.Serve.{disabled, init_tracing}
use backend_assessment.Cli.{random_gateway_message, max}
use backend_assessment.Cli.Run.{
  Run, sending, reported, send_next, start, process, tick, send, sent, time_up, stop, join, Reach,
  here, next,
}
use backend_assessment.Cli.Command.{
  Flags, default_flags, ended, worker_load, dispatch, Ready, prepare, close_all, WorkerLoad,
  completed,
}
use backend_assessment.Cli.Command.Targets.{IsTarget, WorkerLoad-Targets}
use backend_assessment.Tests.Numbers.{whole}
use backend_assessment.Tests.Loads.{highest}
use backend_assessment.Tests.Servers.{Stack, driver, host, atoi, parse_bool}

abbrev print : String → List String → List String
print line lines = line ∷ lines

abbrev parse : Flags → List String → Option Flags
parse flags [] = some flags
parse flags (arg ∷ args) = none

defaults : dispatch print parse ("cli" ∷ "worker-load" ∷ []) [] ≡ worker_load default_flags []
unfolding dispatch
defaults = refl

version :
    dispatch print parse ("cli" ∷ "version" ∷ []) []
    ≡ ended returned ("Backend Assessment CLI v1.0.0" ∷ [])
unfolding dispatch
version = refl

bad_flag : dispatch print parse ("cli" ∷ "worker-load" ∷ "-rte" ∷ []) [] ≡ ended exited []
unfolding dispatch
bad_flag = refl

abbrev query_ids : ℕ → Stack → Option (List (Option String)) × Stack
query_ids pool v = (some (some "g1" ∷ some "g2" ∷ []), v)

abbrev services : ℕ → Services Stack ℕ
services pool = worker_services driver pool (λ v. (0, v)) (λ s. none) (λ m. none)

abbrev ready : Ready ℕ
ready = record { pool = 25; tracing = disabled; gateway_ids = "g1" ∷ "g2" ∷ [] }

abbrev unset : String → String
unset v = ""

abbrev one_a_second : Flags
one_a_second = record default_flags { rate_per_sec = pos 1 }

abbrev begun : Run (services 25) ℕ
begun = start (services 25) 100 77 (some 25 ∷ [])

abbrev sent_one : Run (services 25) ℕ
sent_one =
    send_next (services 25) highest ("g1" ∷ "g2" ∷ []) (pos 1) (record begun { phase = sending 1 })
      0

abbrev message : GatewayMessage
message = (random_gateway_message highest ("g1" ∷ "g2" ∷ []) 77).0

abbrev processed_one : Run (services 25) ℕ
processed_one = record sent_one {
  system = record (sent_one.system) {
    worker = record (sent_one.system.worker) { message_queue = [] };
    world = process_message (services 25) message (some 25 ∷ []);
  };
}

abbrev at_end : Run (services 25) ℕ
at_end = record processed_one {
  system = record (processed_one.system) { running = false };
  phase = reported 1 0;
}

to_processed : Reach (services 25) highest ("g1" ∷ "g2" ∷ []) (pos 1) begun processed_one
unfolding start max send_next enqueue_message new_worker
to_processed =
    next (next (next here (tick refl refl)) (send 0 refl refl)) (process message [] refl refl refl)

to_end : Reach (services 25) highest ("g1" ∷ "g2" ∷ []) (pos 1) begun at_end
unfolding start send_next enqueue_message new_worker get_queue_size
to_end =
    next
      (next (next (next to_processed (sent refl refl)) (time_up refl refl)) (stop refl refl refl))
      (join refl refl refl)

abbrev left_behind : Stack
left_behind = close_all whole atoi parse_bool driver host query_ids ready at_end.system.world

one_message :
    WorkerLoad whole atoi parse_bool driver host query_ids services highest unset one_a_second [] 77
      returned left_behind
unfolding prepare new_postgres_connection init_tracing load
one_message = completed ready (some 25 ∷ []) 99 at_end 1 0 refl refl to_end refl refl refl

WorkerLoad-Targets_example :
    (ready : Ready ℕ) × (v₁ : Stack) × (done : List GatewayMessage) × (prepare whole atoi parse_bool
        driver host query_ids unset []
      ≡ (some ready, v₁))
    × All (IsTarget ready.gateway_ids) done
    × (left_behind
        ≡ close_all whole atoi parse_bool driver host query_ids ready
            (process_all (services ready.pool) done v₁))
WorkerLoad-Targets_example =
    WorkerLoad-Targets whole atoi parse_bool driver host query_ids services highest unset
      one_a_second [] 77 left_behind (λ n u some_n. omega arith) one_message
