-- ===== src/Tests/Runs.antt =====
-- A whole run of the load generator: three messages in one tick for a queue of one. The first is
-- processed, the second stays in the queue, and the third is refused.
use backend_assessment.Prelude.{ℕ, ◌≤◌, ◌≡◌, refl, false, List, [], ◌∷◌, length, pos}
use backend_assessment.MessageProcessor.{GatewayMessage, process_message}
use backend_assessment.MessageProcessor.Queue.{
  process_all, enqueue_message, new_worker, get_queue_size,
}
use backend_assessment.Cli.{random_gateway_message, max}
use backend_assessment.Cli.Run.{
  Run, sending, reported, send_next, start, process, tick, send, sent, time_up, stop, join, Reach,
  here, next,
}
use backend_assessment.Cli.Run.Feeding.{Feeds}
use backend_assessment.Cli.Run.Report.{made, report_adds_up}
use backend_assessment.Tests.Loads.{highest, statements}

abbrev LoadRun : Type 0
LoadRun = Run statements ℕ

abbrev begun : LoadRun
begun = start statements 1 77 []

abbrev ticked : LoadRun
ticked = record begun { phase = sending 3 }

abbrev sent_one : LoadRun
sent_one = send_next statements highest ("g1" ∷ []) (pos 3) ticked 2

abbrev message : GatewayMessage
message = (random_gateway_message highest ("g1" ∷ []) 77).0

abbrev processed_one : LoadRun
processed_one = record sent_one {
  system = record (sent_one.system) {
    worker = record (sent_one.system.worker) { message_queue = [] };
    world = process_message statements message [];
  };
}

abbrev sent_two : LoadRun
sent_two = send_next statements highest ("g1" ∷ []) (pos 3) processed_one 1

abbrev sent_three : LoadRun
sent_three = send_next statements highest ("g1" ∷ []) (pos 3) sent_two 0

abbrev ended : LoadRun
ended = record sent_three {
  system = record (sent_three.system) { running = false };
  phase = reported 3 1;
}

to_ticked : Reach statements highest ("g1" ∷ []) (pos 3) begun ticked
unfolding start max
to_ticked = next here (tick refl refl)

to_sent_one : Reach statements highest ("g1" ∷ []) (pos 3) begun sent_one
to_sent_one = next to_ticked (send 2 refl refl)

to_processed : Reach statements highest ("g1" ∷ []) (pos 3) begun processed_one
unfolding start send_next enqueue_message new_worker
to_processed = next to_sent_one (process message [] refl refl refl)

to_sent_three : Reach statements highest ("g1" ∷ []) (pos 3) begun sent_three
unfolding send_next
to_sent_three = next (next to_processed (send 1 refl refl)) (send 0 refl refl)

to_ended : Reach statements highest ("g1" ∷ []) (pos 3) begun ended
unfolding start send_next enqueue_message new_worker get_queue_size
to_ended =
    next
      (next (next (next to_sent_three (sent refl refl)) (time_up refl refl)) (stop refl refl refl))
      (join refl refl refl)

report_adds_up_example :
    (ended.world ≡ (made statements highest ("g1" ∷ []) (pos 3) 3 77).1)
    × (length ended.system.worker.message_queue ≡ 1)
    × (1 ≤ 1)
    × (done : List GatewayMessage) × Feeds 1
        (made statements highest ("g1" ∷ []) (pos 3) 3 77).0
        done
        ended.system.worker.message_queue
    × (ended.system.world ≡ process_all statements done [])
report_adds_up_example =
    report_adds_up statements highest ("g1" ∷ []) (pos 3) 1 77 [] ended 3 1 to_ended refl
