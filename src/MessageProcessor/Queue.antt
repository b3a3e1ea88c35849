-- ===== src/MessageProcessor/Queue.antt =====
-- The queue between EnqueueMessage and the loop of Start: a buffered channel, so of a capacity above
-- 0. Start's `select` chooses between a message and a stop when both are ready, and Stop hands its
-- signal over to a loop that waits in the `select`.
use mathlib.Core.List.{append_assoc}
use backend_assessment.Prelude.{
  ℕ, ◌≤◌, ◌<◌, ◌≡◌, refl, sym, ap, ◌∙◌, Bool, true, false, List, [], ◌∷◌, ◌++◌, if◌then◌else◌, ltb,
  length, length-append, arith,
}
use backend_assessment.MessageProcessor.{GatewayMessage, Services, process_message}

pub record Worker : Type 0 where
  pub message_queue : List GatewayMessage
  pub queue_size : ℕ

unfoldable pub new_worker : ℕ → Worker
new_worker queue_size = record { message_queue = []; queue_size = queue_size }

-- `EnqueueMessage`; `false` is the error that the queue is full.
unfoldable pub enqueue_message : Worker → GatewayMessage → Worker × Bool
enqueue_message w msg =
    if ltb (length w.message_queue) w.queue_size
    then (record w { message_queue = w.message_queue ++ msg ∷ [] }, true)
    else (w, false)

-- `GetQueueSize`
unfoldable pub get_queue_size : Worker → ℕ
get_queue_size w = length w.message_queue

enqueue-accepts :
    (w : Worker) (msg : GatewayMessage)
    → (enqueue_message w msg).1 ≡ true
    → ((enqueue_message w msg).0 ≡ record w { message_queue = w.message_queue ++ msg ∷ [] })
      × (length w.message_queue < w.queue_size)
unfolding enqueue_message
enqueue-accepts w msg h = ground arith

enqueue-refuses :
    (w : Worker) (msg : GatewayMessage)
    → (enqueue_message w msg).1 ≡ false
    → (enqueue_message w msg).0 ≡ w
unfolding enqueue_message
enqueue-refuses w msg h = ground arith

module _ {W C : Type 0} (sv : Services W C) where
  -- The worker, whether its loop runs, the world, and the messages accepted so far.
  pub record System : Type 0 where
    pub worker : Worker
    pub running : Bool
    pub world : W
    pub accepted : List GatewayMessage

  pub data Step (a b : System) : Type 0 where
    accept :
        (msg : GatewayMessage)
        → (enqueue_message a.worker msg).1 ≡ true
        → b ≡ record a {
          worker = (enqueue_message a.worker msg).0;
          accepted = a.accepted ++ msg ∷ [];
        }
        → Step a b
    refuse :
        (msg : GatewayMessage)
        → (enqueue_message a.worker msg).1 ≡ false
        → b ≡ record a { worker = (enqueue_message a.worker msg).0 }
        → Step a b
    process :
        (msg : GatewayMessage) (rest : List GatewayMessage)
        → a.running ≡ true
        → a.worker.message_queue ≡ msg ∷ rest
        → b ≡ record a {
          worker = record (a.worker) { message_queue = rest };
          world = process_message sv msg a.world;
        }
        → Step a b
    stop : a.running ≡ true → b ≡ record a { running = false } → Step a b

  pub data Reach (a : System) : System → Type 0 where
    here : Reach a a
    next : {b c : System} → Reach a b → Step b c → Reach a c

  abbrev pub start : ℕ → W → System
  start queue_size w = record {
    worker = new_worker queue_size;
    running = true;
    world = w;
    accepted = [];
  }

  -- The messages one after another.
  unfoldable pub process_all : List GatewayMessage → W → W
  process_all [] w = w
  process_all (msg ∷ msgs) w = process_all msgs (process_message sv msg w)

  pub process_all-append :
      (xs ys : List GatewayMessage) (w : W)
      → process_all (xs ++ ys) w ≡ process_all ys (process_all xs w)
  unfolding process_all
  process_all-append [] ys w = refl
  process_all-append (x ∷ xs) ys w = process_all-append xs ys (process_message sv x w)

  pub record Inv (size : ℕ) (w₀ : W) (a : System) : Type 0 where
    pub done : List GatewayMessage
    pub in_order : a.accepted ≡ done ++ a.worker.message_queue
    pub effect : a.world ≡ process_all done w₀
    pub same_size : a.worker.queue_size ≡ size
    pub bounded : length a.worker.message_queue ≤ size

  Step-Inv : (size : ℕ) (w₀ : W) (a b : System) → Step a b → Inv size w₀ a → Inv size w₀ b
  Step-Inv size w₀ a b (accept msg ok e) v =
      let (put, room) = enqueue-accepts a.worker msg ok in
      rw e (
        rw put (record {
          done = v.done;
          in_order =
              ap (λ l. l ++ msg ∷ []) v.in_order
              ∙ append_assoc v.done a.worker.message_queue (msg ∷ []);
          effect = v.effect;
          same_size = v.same_size;
          bounded =
              omega (arith, room, v.same_size, length-append a.worker.message_queue (msg ∷ []));
        }))
  Step-Inv size w₀ a b (refuse msg full e) v = rw e (
      rw (enqueue-refuses a.worker msg full) (record {
        done = v.done;
        in_order = v.in_order;
        effect = v.effect;
        same_size = v.same_size;
        bounded = v.bounded;
      }))
  Step-Inv size w₀ a b (process msg rest on q e) v = rw e (record {
    done = v.done ++ msg ∷ [];
    in_order = v.in_order ∙ ap (λ l. v.done ++ l) q ∙ sym (append_assoc v.done (msg ∷ []) rest);
    effect = ap (process_message sv msg) v.effect ∙ sym (processed v.done);
    same_size = v.same_size;
    bounded = omega (arith, v.bounded, ap length q);
  })
    where
      processed :
          (msgs : List GatewayMessage)
          → process_all (msgs ++ msg ∷ []) w₀ ≡ process_message sv msg (process_all msgs w₀)
      processed msgs = unfold process_all in process_all-append msgs (msg ∷ []) w₀
  Step-Inv size w₀ a b (stop on e) v = rw e (record {
    done = v.done;
    in_order = v.in_order;
    effect = v.effect;
    same_size = v.same_size;
    bounded = v.bounded;
  })

  -- In every interleaving of callers of EnqueueMessage with the loop of Start, on a new worker: the
  -- messages accepted so far are the processed ones, in the order in which they were
  -- accepted, followed by those in the queue; the world is that of the processed messages one after
  -- another; and the queue holds at most its size.
  pub queue_is_fifo : (size : ℕ) (w₀ : W) (a : System) → Reach (start size w₀) a → Inv size w₀ a
  unfolding new_worker process_all
  queue_is_fifo size w₀ a here = record {
    done = [];
    in_order = refl;
    effect = refl;
    same_size = refl;
    bounded = omega arith;
  }
  queue_is_fifo size w₀ a (next {b = b} r st) = Step-Inv size w₀ b a st (queue_is_fifo size w₀ b r)

  stopped-world :
      (a b : System) → a.running ≡ false → Reach a b → (b.running ≡ false) × (b.world ≡ a.world)
  stopped-world a b off here = (off, refl)
  stopped-world a b off (next {b = c} r st) =
      let (still, same) = stopped-world a c off r in stopped_step c b st still same
    where
      stopped_step :
          (c d : System)
          → Step c d
          → c.running ≡ false
          → c.world ≡ a.world
          → (d.running ≡ false) × (d.world ≡ a.world)
      stopped_step c d (accept msg ok e) still same = rw e (still, same)
      stopped_step c d (refuse msg full e) still same = rw e (still, same)
      stopped_step c d (process msg rest on q e) still same = cc
      stopped_step c d (stop on e) still same = cc

  -- Stop does not drain the queue: a running loop can stop at any moment, whatever is queued, and
  -- from then on no message has an effect any more, neither one that was queued nor a later one.
  pub stop_drops_queued :
      (a c : System)
      → a.running ≡ true
      → Reach (record a { running = false }) c
      → Step a (record a { running = false }) × (c.world ≡ a.world)
  stop_drops_queued a c on r =
      (stop on refl, (stopped-world (record a { running = false }) c refl r).1)
