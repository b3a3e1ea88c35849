-- ===== src/Tests/Messages.antt =====
-- A worker over a small pool, in a world that keeps what is held and what was executed.
use backend_assessment.Prelude.{ℕ, ◌≡◌, refl, true, false, some, List, [], ◌∷◌, ap}
use backend_assessment.Prelude.Dict.{lookup}
use backend_assessment.MessageProcessor.{
  GatewayMessage, text, alert, kind_of, Statement, insert_alert, Services, process_message,
  dispatch, with_connection, release_after, process_alert,
}
use backend_assessment.MessageProcessor.Leaks.{Tracks, process_message-held}
use backend_assessment.MessageProcessor.Statements.{Logs, Effect, process_message-Effect}
use backend_assessment.MessageProcessor.Queue.{
  System, Step, accept, process, here, next, start, Inv, queue_is_fifo, stop_drops_queued,
  enqueue_message, new_worker,
}

record World : Type 0 where
  held : List ℕ
  executed : List Statement

abbrev drop_first : List ℕ → List ℕ
drop_first [] = []
drop_first (c ∷ cs) = cs

abbrev services : Services World ℕ
services = record {
  acquire = λ w. (some 1, record w { held = 1 ∷ w.held });
  exec = λ conn s w. (true, record w { executed = s ∷ w.executed });
  release = λ conn w. record w { held = drop_first w.held };
  now = λ w. (1000, w);
  parse_time = λ s. some 5;
  marshal = λ m. some "{}";
}

abbrev disk_full : GatewayMessage
disk_full = record {
  gateway_id = "g1";
  message_type = "alert";
  timestamp = 9;
  payload = ("message", text "disk full") ∷ [];
}

abbrev quiet : World
quiet = record { held = []; executed = [] }

alert_stored :
    process_message services disk_full quiet
    ≡ record { held = []; executed = insert_alert "g1" "info" "disk full" 9 ∷ [] }
unfolding process_message kind_of dispatch with_connection release_after process_alert lookup
alert_stored = refl

tracks : Tracks services (λ w. w.held)
tracks = record {
  by_acquire = λ w conn got. cc;
  by_failure = λ w failed. cc;
  by_exec = λ conn s w. refl;
  by_now = λ w. refl;
  by_release = λ conn w rest e. ap drop_first e;
}

process_message-held_example : (process_message services disk_full quiet).held ≡ []
process_message-held_example = process_message-held services (λ w. w.held) disk_full quiet tracks

logs : Logs services (λ w. w.executed)
logs = record {
  by_acquire = λ w. refl;
  by_exec = λ conn s w. refl;
  by_now = λ w. refl;
  by_release = λ conn w. refl;
}

process_message-Effect_example :
    Effect services
      (λ w. w.executed)
      alert
      disk_full
      []
      (process_message services disk_full quiet).executed
unfolding kind_of
process_message-Effect_example =
    process_message-Effect services (λ w. w.executed) disk_full quiet 1 logs refl

-- One message accepted by a queue of one, and then processed.
abbrev queued : System services
queued = record {
  worker = record { message_queue = disk_full ∷ []; queue_size = 1 };
  running = true;
  world = quiet;
  accepted = disk_full ∷ [];
}

abbrev handled : System services
handled = record queued {
  worker = record { message_queue = []; queue_size = 1 };
  world = process_message services disk_full quiet;
}

accepted : Step services (start services 1 quiet) queued
unfolding new_worker enqueue_message
accepted = accept disk_full refl refl

processed : Step services queued handled
processed = process disk_full [] refl refl refl

queue_is_fifo_example : Inv services 1 quiet handled
queue_is_fifo_example = queue_is_fifo services 1 quiet handled (next (next here accepted) processed)

stop_drops_queued_example :
    Step services queued (record queued { running = false }) × (queued.world ≡ quiet)
stop_drops_queued_example =
    stop_drops_queued services queued (record queued { running = false }) refl here
