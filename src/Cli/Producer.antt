-- ===== src/Cli/Producer.antt =====
-- The producer of cmd/cli/worker_load.go against the worker's queue.
use backend_assessment.Prelude.{
  ℕ, zero, suc, ◌+◌, ◌≤◌, ◌<◌, ◌≡◌, refl, sym, ap, ◌∙◌, subst, List, [], ◌∷◌, ◌++◌, String, ℤ, pos,
  pos_part, length, length-append, Bool-cases, inl, inr, if◌then◌else◌, ltb, arith,
}
use backend_assessment.MessageProcessor.{GatewayMessage, Services}
use backend_assessment.MessageProcessor.Queue.{
  Worker, enqueue_message, System, Step, Reach, here, next, accept, refuse,
}
use backend_assessment.Cli.{Sources, Load, random_gateway_message, produce, tick, max}

abbrev pub smaller : ℕ → ℕ → ℕ
smaller a b = if ltb a b then a else b

enqueue-length :
    (w : Worker) (msg : GatewayMessage)
    → length w.message_queue ≤ w.queue_size
    → let w' = (enqueue_message w msg).0 in
      (w'.queue_size ≡ w.queue_size)
      × (length w'.message_queue ≡ smaller (length w.message_queue + 1) w.queue_size)
unfolding enqueue_message
enqueue-length w msg fits = ground (arith, length-append w.message_queue (msg ∷ []))

module _ {W V C : Type 0} (sources : Sources W) (sv : Services V C) where
  -- What a run of the producer alone leaves of a system: the steps of the queue, the same world and
  -- loop, and the queue filled up as far as it goes.
  pub record Fills (a : System sv) (n : ℕ) (worker : Worker) : Type 0 where
    pub end : System sv
    pub steps : Reach sv a end
    pub same_worker : end.worker ≡ worker
    pub same_world : end.world ≡ a.world
    pub same_loop : end.running ≡ a.running
    pub same_size : worker.queue_size ≡ a.worker.queue_size
    pub filled :
        length worker.message_queue
        ≡ smaller (length a.worker.message_queue + n) a.worker.queue_size

  before : {a b c : System sv} → Step sv a b → Reach sv b c → Reach sv a c
  before st here = next here st
  before st (next r last) = next (before st r) last

  -- One message first.
  enqueue-Fills :
      (a b : System sv) (msg : GatewayMessage) (n : ℕ) (worker : Worker)
      → length a.worker.message_queue ≤ a.worker.queue_size
      → Step sv a b
      → b.worker ≡ (enqueue_message a.worker msg).0
      → b.world ≡ a.world
      → b.running ≡ a.running
      → Fills b n worker
      → Fills a (suc n) worker
  enqueue-Fills a b msg n worker fits st same world loop f =
      let (size, long) = enqueue-length a.worker msg fits in
      let size' = ap (λ (x : Worker). x.queue_size) same in
      let long' = ap (λ (x : Worker). length x.message_queue) same in
      record {
        end = f.end;
        steps = before st f.steps;
        same_worker = f.same_worker;
        same_world = f.same_world ∙ world;
        same_loop = f.same_loop ∙ loop;
        same_size = f.same_size ∙ size' ∙ size;
        filled = ground (arith, f.filled, size, long, size', long');
      }

  enqueue_next :
      (a : System sv) (msg : GatewayMessage)
      → (b : System sv) × Step sv a b
        × (b.worker ≡ (enqueue_message a.worker msg).0)
        × (b.world ≡ a.world)
        × (b.running ≡ a.running)
  enqueue_next a msg = elim (Bool-cases (enqueue_message a.worker msg).1) [
    | inl room ↦ (
      record a { worker = (enqueue_message a.worker msg).0; accepted = a.accepted ++ msg ∷ [] },
      accept msg room refl,
      refl,
      refl,
      refl,
    )
    | inr full ↦ (
      record a { worker = (enqueue_message a.worker msg).0 },
      refuse msg full refl,
      refl,
      refl,
      refl,
    )
  ]

  produce-Fills :
      (ids : List String) (n : ℕ) (a : System sv) (load : Load) (w : W)
      → a.worker ≡ load.worker
      → length load.worker.message_queue ≤ load.worker.queue_size
      → let end = (produce sources ids n load w).0 in
        Fills a n end.worker × (end.produced ≡ load.produced + n)
  unfolding produce
  produce-Fills ids zero a load w same fits =
      let size = ap (λ (x : Worker). x.queue_size) same in
      let long = ap (λ (x : Worker). length x.message_queue) same in
      (
        record {
          end = a;
          steps = here;
          same_worker = same;
          same_world = refl;
          same_loop = refl;
          same_size = sym size;
          filled = ground (arith, size, long);
        },
        omega arith,
      )
  produce-Fills ids (suc n) a load w same fits =
      let (msg, w') = random_gateway_message sources ids w in
      let (b, st, put, world, loop) = enqueue_next a msg in
      let (size, long) = enqueue-length load.worker msg fits in
      let fits' = subst (λ (x : Worker). length x.message_queue ≤ x.queue_size) (sym same) fits in
      let put' = put ∙ ap (λ x. (enqueue_message x msg).0) same in
      let load' : Load = record {
        worker = (enqueue_message load.worker msg).0;
        produced = load.produced + 1;
      } in
      let (f, counted) = produce-Fills ids n b load' w' put' (ground (arith, size, long)) in
      (enqueue-Fills a b msg n _ fits' st put world loop f, omega (arith, counted))

  -- A tick of the load generator is a sequence of steps of the worker's queue, accepting and
  -- refusing, for as many messages as the rate says and at least one. With the loop of the worker
  -- not running meanwhile, it fills the queue up to its size and no further; what does not fit is
  -- lost, but counted as produced all the same.
  pub tick-Fills :
      (ids : List String) (rate : ℤ) (a : System sv) (produced : ℕ) (w : W)
      → length a.worker.message_queue ≤ a.worker.queue_size
      → let n = pos_part (max (pos 1) rate) in
        let load : Load = record { worker = a.worker; produced = produced } in
        let end = (tick sources ids rate load w).0 in
        (0 < n) × Fills a n end.worker × (end.produced ≡ produced + n)
  unfolding tick max
  tick-Fills ids rate a produced w fits =
      let load : Load = record { worker = a.worker; produced = produced } in
      let (f, counted) = produce-Fills ids (pos_part (max (pos 1) rate)) a load w refl fits in
      (ground arith, f, counted)
