-- ===== src/Cli/Run/Feeding.antt =====
-- A queue of messages, from what was put in to what came of it.
use backend_assessment.Prelude.{
  ℕ, ◌≤◌, ◌<◌, ltb, Bool-cases, inl, inr, ◌≡◌, true, List, [], ◌∷◌, ◌++◌, length, length-append,
  All, All-append, All-front, All-back, arith,
}
use backend_assessment.MessageProcessor.{GatewayMessage}
use backend_assessment.MessageProcessor.Queue.{Worker, enqueue_message}

-- What a queue of a size can make of messages that are put into it one after another: which of them
-- are done, in their order, and which still wait. A message is lost only if the queue is full.
pub data Feeds (size : ℕ) : (made done queued : List GatewayMessage) → Type 0 where
  begun : Feeds size [] [] []
  put :
      {made done queued : List GatewayMessage} (msg : GatewayMessage)
      → Feeds size made done queued
      → length queued < size
      → Feeds size (made ++ msg ∷ []) done (queued ++ msg ∷ [])
  lost :
      {made done queued : List GatewayMessage} (msg : GatewayMessage)
      → Feeds size made done queued
      → length queued ≡ size
      → Feeds size (made ++ msg ∷ []) done queued
  taken :
      {made done queued : List GatewayMessage} (msg : GatewayMessage)
      → Feeds size made done (msg ∷ queued)
      → Feeds size made (done ++ msg ∷ []) queued

-- EnqueueMessage on a queue that is not over its size.
pub enqueue-Feeds :
    (size : ℕ) (worker : Worker) (msg : GatewayMessage) (made done : List GatewayMessage)
    → worker.queue_size ≡ size
    → length worker.message_queue ≤ size
    → Feeds size made done worker.message_queue
    → let worker' = (enqueue_message worker msg).0 in
      (worker'.queue_size ≡ size)
      × (length worker'.message_queue ≤ size)
      × Feeds size (made ++ msg ∷ []) done worker'.message_queue
unfolding enqueue_message
enqueue-Feeds size worker msg made done same fits f =
    elim (Bool-cases (ltb (length worker.message_queue) worker.queue_size)) [
      | inl room ↦ rw room (
        same,
        omega (arith, roomy room, length-append worker.message_queue (msg ∷ [])),
        put msg f (roomy room),
      )
      | inr full ↦ rw full (same, fits, lost msg f (ground (arith, full, same, fits)))
    ]
  where
    roomy :
        ltb (length worker.message_queue) worker.queue_size ≡ true
        → length worker.message_queue < size
    roomy h = ground (arith, h, same)

-- What holds of every message holds of those that were done and of those that wait.
pub Feeds-All :
    (Q : GatewayMessage → Type 0) {size : ℕ} {made done queued : List GatewayMessage}
    → Feeds size made done queued
    → All Q made
    → All Q done × All Q queued
Feeds-All Q begun h = (tt, tt)
Feeds-All Q (put {made} {done} {queued} msg f room) h =
    let (was_done, waits) = Feeds-All Q f (All-front Q made _ h) in
    (was_done, All-append Q queued (msg ∷ []) waits (All-back Q made _ h))
Feeds-All Q (lost {made} msg f full) h = Feeds-All Q f (All-front Q made _ h)
Feeds-All Q (taken {made} {done} {queued} msg f) h =
    let (was_done, waits) = Feeds-All Q f h in
    (All-append Q done (msg ∷ []) was_done (waits.0, tt), waits.1)
