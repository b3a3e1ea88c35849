-- ===== src/Tests/Loads.antt =====
-- The load generator with fixed draws, and the worker of the test of the messages.
use backend_assessment.Prelude.{ℕ, ◌≡◌, ◌≢◌, refl, true, some, none, List, [], ◌∷◌, ◌-◌, pos, arith}
use backend_assessment.MessageProcessor.{unknown, kind_of, Statement, Services, process_message}
use backend_assessment.MessageProcessor.Statements.{Logs}
use backend_assessment.MessageProcessor.Required.{Answers}
use backend_assessment.MessageProcessor.Queue.{new_worker, get_queue_size, enqueue_message}
use backend_assessment.Cli.{
  Sources, Load, fetch_ids, stamp, layout, hex, slice, change, get, generate_uuid_v4, or_fill, fill,
  pick, payload_of, random_gateway_message, produce, tick, max,
}
use backend_assessment.Cli.Messages.{random_gateway_message-Answers}

-- Each draw gives the highest number, and crypto/rand fails.
abbrev pub highest : Sources ℕ
highest = record {
  intn = λ n w. (n - 1, w);
  percent = λ w. (99, w);
  crypto = λ n w. (none, w);
  now = λ w. (w, w);
  format_time = λ t. "then";
}

uuid : (generate_uuid_v4 highest 0).0 ≡ "ffffffff-ffff-4fff-bfff-ffffffffffff"
unfolding generate_uuid_v4 or_fill fill stamp change layout hex slice get
uuid = refl

abbrev pub statements : Services (List Statement) ℕ
statements = record {
  acquire = λ w. (some 1, w);
  exec = λ conn s w. (true, s ∷ w);
  release = λ conn w. w;
  now = λ w. (1000, w);
  parse_time = λ s. none;
  marshal = λ m. some "{}";
}

statements-Logs : Logs statements (λ w. w)
statements-Logs = record {
  by_acquire = λ w. refl;
  by_exec = λ conn s w. refl;
  by_now = λ w. refl;
  by_release = λ conn w. refl;
}

random_gateway_message-Answers_example :
    let msg = (random_gateway_message highest ("g1" ∷ "g2" ∷ []) 77).0 in
    (kind_of msg.message_type ≢ unknown)
    × ((s : Statement) × Answers (kind_of msg.message_type) msg s
        × (process_message statements msg [] ≡ s ∷ []))
random_gateway_message-Answers_example =
    random_gateway_message-Answers highest statements (λ w. w) ("g1" ∷ "g2" ∷ []) 77 [] 1
      (λ n u h. omega arith) (λ cpu mem e. ground (arith, e)) statements-Logs refl

-- A tick of 5 into a queue of 3: what does not fit is lost, and counted.
abbrev fresh : Load
fresh = record { worker = new_worker 3; produced = 0 }

tick_overflows :
    let load = (tick highest ("g1" ∷ []) (pos 5) fresh 77).0 in
    (get_queue_size load.worker ≡ 3) × (load.produced ≡ 5)
unfolding tick produce max get_queue_size enqueue_message new_worker random_gateway_message pick
    payload_of kind_of
tick_overflows = (refl, refl)

scan_error : fetch_ids (some "g1" ∷ none ∷ some "g2" ∷ []) ≡ none
unfolding fetch_ids
scan_error = refl
