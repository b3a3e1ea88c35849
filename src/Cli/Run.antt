-- ===== src/Cli/Run.antt =====
-- The loop of `runWorkerLoadImpl` in cmd/cli/worker_load.go, step by step beside the loop of the
-- worker that it started: `select` on the ticker and the end, the messages of a tick one by one, and
-- `Stop`, `Wait` and the report at the end. A tick and the end may come whenever the loop waits. The
-- case of a context that is done is left out: it is only cancelled at the end.
pub mod Feeding
pub mod Report
use backend_assessment.Prelude.{
  ℕ, zero, suc, ◌+◌, ◌≡◌, Bool, true, false, List, [], ◌∷◌, ◌++◌, String, ℤ, pos, pos_part,
}
use backend_assessment.MessageProcessor.{GatewayMessage, Services, process_message}
use backend_assessment.MessageProcessor.Queue
use backend_assessment.MessageProcessor.Queue.{Worker, System, enqueue_message, get_queue_size}
use backend_assessment.Cli.{Sources, random_gateway_message, max}

-- Where the loop is: in its `select`, with so many messages of a tick to send, in `worker.Stop`, in
-- `wg.Wait`, or after the report of the messages produced and of the size of the queue.
pub data Phase : Type 0 where
  waiting : Phase
  sending : ℕ → Phase
  stopping joining : Phase
  reported : (produced queue_size : ℕ) → Phase

module _ {V C : Type 0} (sv : Services V C) where
  -- What a call of EnqueueMessage makes of the system.
  abbrev pub after_enqueue : System sv → GatewayMessage → Worker × Bool → System sv
  after_enqueue a msg (worker, true) = record a {
    worker = worker;
    accepted = a.accepted ++ msg ∷ [];
  }
  after_enqueue a msg (worker, false) = record a { worker = worker }

  -- The worker with its world, the world of the random numbers and the clock, and the count.
  pub record Run (W : Type 0) : Type 0 where
    pub system : System sv
    pub world : W
    pub phase : Phase
    pub produced : ℕ

  unfoldable pub start : {W : Type 0} → ℕ → W → V → Run W
  start queue_size w v = record {
    system = Queue.start sv queue_size v;
    world = w;
    phase = waiting;
    produced = 0;
  }

  module _ {W : Type 0} (sources : Sources W) (gateway_ids : List String) (rate_per_sec : ℤ) where
    -- One message of a tick, with n more to send.
    unfoldable pub send_next : Run W → ℕ → Run W
    send_next a n =
        let (msg, w) = random_gateway_message sources gateway_ids a.world in
        record {
          system = after_enqueue a.system msg (enqueue_message a.system.worker msg);
          world = w;
          phase = sending n;
          produced = a.produced + 1;
        }

    pub data Step (a b : Run W) : Type 0 where
      process :
          (msg : GatewayMessage) (rest : List GatewayMessage)
          → a.system.running ≡ true
          → a.system.worker.message_queue ≡ msg ∷ rest
          → b ≡ record a {
            system = record (a.system) {
              worker = record (a.system.worker) { message_queue = rest };
              world = process_message sv msg a.system.world;
            };
          }
          → Step a b
      tick :
          a.phase ≡ waiting
          → b ≡ record a { phase = sending (pos_part (max (pos 1) rate_per_sec)) }
          → Step a b
      send : (n : ℕ) → a.phase ≡ sending (suc n) → b ≡ send_next a n → Step a b
      sent : a.phase ≡ sending 0 → b ≡ record a { phase = waiting } → Step a b
      time_up : a.phase ≡ waiting → b ≡ record a { phase = stopping } → Step a b
      stop :
          a.phase ≡ stopping
          → a.system.running ≡ true
          → b ≡ record a { system = record (a.system) { running = false }; phase = joining }
          → Step a b
      join :
          a.phase ≡ joining
          → a.system.running ≡ false
          → b ≡ record a { phase = reported a.produced (get_queue_size a.system.worker) }
          → Step a b

    pub data Reach (a : Run W) : Run W → Type 0 where
      here : Reach a a
      next : {b c : Run W} → Reach a b → Step b c → Reach a c
