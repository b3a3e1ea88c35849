-- ===== src/Cli/Run/Report.antt =====
-- What the report of the load generator says, and that it can always be reached.
use backend_assessment.Prelude.{
  ℕ, zero, suc, ◌+◌, ◌≤◌, ◌≡◌, refl, sym, ap, subst, ◌∙◌, Bool, true, false, List, [], ◌∷◌, ◌++◌,
  String, ℤ, length, arith,
}
use backend_assessment.MessageProcessor.{GatewayMessage, Services, process_message}
use backend_assessment.MessageProcessor.Queue.{
  Worker, System, enqueue_message, get_queue_size, new_worker, process_all, process_all-append,
}
use backend_assessment.Cli.{Sources, random_gateway_message}
use backend_assessment.Cli.Run.Feeding.{Feeds, begun, taken, enqueue-Feeds}
use backend_assessment.Cli.Run.{
  Phase, waiting, sending, stopping, joining, reported, after_enqueue, send_next, Run, start, Step,
  process, tick, send, sent, time_up, stop, join, Reach, here, next,
}

module _ {V C : Type 0} (sv : Services V C) where
  -- Whether the worker runs, and the numbers of the report.
  abbrev Fits : Phase → System sv → ℕ → Type 0
  Fits waiting s produced = s.running ≡ true
  Fits (sending n) s produced = s.running ≡ true
  Fits stopping s produced = s.running ≡ true
  Fits joining s produced = s.running ≡ false
  Fits (reported n q) s produced =
      (s.running ≡ false) × (n ≡ produced) × (q ≡ length s.worker.message_queue)

  -- While the worker runs, its work changes nothing of this.
  running-Fits :
      (phase : Phase) (s t : System sv) (produced : ℕ)
      → s.running ≡ true
      → t.running ≡ true
      → Fits phase s produced
      → Fits phase t produced
  running-Fits waiting s t produced on on' f = on'
  running-Fits (sending n) s t produced on on' f = on'
  running-Fits stopping s t produced on on' f = on'
  running-Fits joining s t produced on on' f = absurd (ground (arith, on, f))
  running-Fits (reported n q) s t produced on on' f = absurd (ground (arith, on, f.0))

  after_enqueue-worker :
      (a : System sv) (msg : GatewayMessage) (r : Worker × Bool)
      → (after_enqueue sv a msg r).worker ≡ r.0
  after_enqueue-worker a msg (worker, true) = refl
  after_enqueue-worker a msg (worker, false) = refl

  after_enqueue-world :
      (a : System sv) (msg : GatewayMessage) (r : Worker × Bool)
      → (after_enqueue sv a msg r).world ≡ a.world
  after_enqueue-world a msg (worker, true) = refl
  after_enqueue-world a msg (worker, false) = refl

  after_enqueue-running :
      (a : System sv) (msg : GatewayMessage) (r : Worker × Bool)
      → (after_enqueue sv a msg r).running ≡ a.running
  after_enqueue-running a msg (worker, true) = refl
  after_enqueue-running a msg (worker, false) = refl

  module _ {W : Type 0} (sources : Sources W) (ids : List String) (rate : ℤ) where
    -- So many messages made up one after another.
    abbrev pub made : ℕ → W → List GatewayMessage × W
    made zero w = ([], w)
    made (suc n) w =
        let (msgs, w₁) = made n w in
        let (msg, w₂) = random_gateway_message sources ids w₁ in (msgs ++ msg ∷ [], w₂)

    made-next :
        (n : ℕ) (w w' : W)
        → w' ≡ (made n w).1
        → let (msg, w₂) = random_gateway_message sources ids w' in
          made (n + 1) w ≡ ((made n w).0 ++ msg ∷ [], w₂)
    made-next n w w' e =
        let one_more : n + 1 ≡ suc n = omega arith in
        let snoc : W → List GatewayMessage × W = λ x.
          let (msg, w₂) = random_gateway_message sources ids x in ((made n w).0 ++ msg ∷ [], w₂) in
        ap (λ k. made k w) one_more ∙ ap snoc (sym e)

    pub record Inv (size : ℕ) (w₀ : W) (v₀ : V) (a : Run sv W) : Type 0 where
      pub done : List GatewayMessage
      pub fed : Feeds size (made a.produced w₀).0 done a.system.worker.message_queue
      pub effect : a.system.world ≡ process_all sv done v₀
      pub same_size : a.system.worker.queue_size ≡ size
      pub bounded : length a.system.worker.message_queue ≤ size
      pub same_world : a.world ≡ (made a.produced w₀).1
      pub fits : Fits a.phase a.system a.produced

    -- A step that leaves the queue and the worlds alone.
    quiet-Inv :
        (size : ℕ) (w₀ : W) (v₀ : V) (a : Run sv W) (phase : Phase) (running : Bool)
        → Inv size w₀ v₀ a
        → Fits phase (record (a.system) { running = running }) a.produced
        → Inv size w₀ v₀
            (record a { system = record (a.system) { running = running }; phase = phase })
    quiet-Inv size w₀ v₀ a phase running v f = record {
      done = v.done;
      fed = v.fed;
      effect = v.effect;
      same_size = v.same_size;
      bounded = v.bounded;
      same_world = v.same_world;
      fits = f;
    }

    at-Fits :
        {phase : Phase} (a : Run sv W)
        → a.phase ≡ phase
        → Fits a.phase a.system a.produced
        → Fits phase a.system a.produced
    at-Fits a e f = subst (λ x. Fits x a.system a.produced) e f

    send_next-Inv :
        (size : ℕ) (w₀ : W) (v₀ : V) (a : Run sv W) (n : ℕ)
        → Inv size w₀ v₀ a
        → a.system.running ≡ true
        → Inv size w₀ v₀ (send_next sv sources ids rate a n)
    unfolding send_next
    send_next-Inv size w₀ v₀ a n v on =
        let msg = (random_gateway_message sources ids a.world).0 in
        let r = enqueue_message a.system.worker msg in
        let more = made-next a.produced w₀ a.world v.same_world in
        let (size_kept, bound_kept, fed) =
          enqueue-Feeds size a.system.worker msg (made a.produced w₀).0 v.done v.same_size v.bounded
            v.fed in
        let worker = sym (after_enqueue-worker a.system msg r) in
        record {
          done = v.done;
          fed =
              subst (λ (x : Worker). Feeds size (made (a.produced + 1) w₀).0 v.done x.message_queue)
                worker
                (subst (λ ms. Feeds size ms v.done r.0.message_queue) (sym (ap (λ m. m.0) more))
                  fed);
          effect = after_enqueue-world a.system msg r ∙ v.effect;
          same_size = subst (λ (x : Worker). x.queue_size ≡ size) worker size_kept;
          bounded = subst (λ (x : Worker). length x.message_queue ≤ size) worker bound_kept;
          same_world = sym (ap (λ m. m.1) more);
          fits = after_enqueue-running a.system msg r ∙ on;
        }

    Step-Inv :
        (size : ℕ) (w₀ : W) (v₀ : V) (a b : Run sv W)
        → Step sv sources ids rate a b
        → Inv size w₀ v₀ a
        → Inv size w₀ v₀ b
    Step-Inv size w₀ v₀ a b (process msg rest on q e) v = rw e (record {
      done = v.done ++ msg ∷ [];
      fed = taken msg (subst (Feeds size (made a.produced w₀).0 v.done) q v.fed);
      effect =
          ap (process_message sv msg) v.effect
          ∙ sym (unfold process_all in process_all-append sv v.done (msg ∷ []) v₀);
      same_size = v.same_size;
      bounded = omega (arith, v.bounded, ap length q);
      same_world = v.same_world;
      fits = running-Fits a.phase a.system _ a.produced on on v.fits;
    })
    Step-Inv size w₀ v₀ a b (tick at e) v =
        rw e (quiet-Inv size w₀ v₀ a _ a.system.running v (at-Fits a at v.fits))
    Step-Inv size w₀ v₀ a b (send n at e) v =
        rw e (send_next-Inv size w₀ v₀ a n v (at-Fits a at v.fits))
    Step-Inv size w₀ v₀ a b (sent at e) v =
        rw e (quiet-Inv size w₀ v₀ a _ a.system.running v (at-Fits a at v.fits))
    Step-Inv size w₀ v₀ a b (time_up at e) v =
        rw e (quiet-Inv size w₀ v₀ a _ a.system.running v (at-Fits a at v.fits))
    Step-Inv size w₀ v₀ a b (stop at on e) v = rw e (quiet-Inv size w₀ v₀ a joining false v refl)
    Step-Inv size w₀ v₀ a b (join at off e) v =
        rw e
          (quiet-Inv size w₀ v₀ a _ a.system.running v (off, refl, unfold get_queue_size in refl))

    Reach-Inv :
        (size : ℕ) (w₀ : W) (v₀ : V) (a : Run sv W)
        → Reach sv sources ids rate (start sv size w₀ v₀) a
        → Inv size w₀ v₀ a
    unfolding start
    Reach-Inv size w₀ v₀ a here =
        unfold new_worker in
        (unfold process_all in
          (record {
            done = [];
            fed = begun;
            effect = refl;
            same_size = refl;
            bounded = omega arith;
            same_world = refl;
            fits = refl;
          }))
    Reach-Inv size w₀ v₀ a (next {b = b} r st) =
        Step-Inv size w₀ v₀ b a st (Reach-Inv size w₀ v₀ b r)

    -- Whatever the interleaving of the producer with the worker: at its report, the load generator
    -- has drawn as many messages from its sources as it says. A queue of its size can make of these,
    -- put in one after another and lost only while it is full, what the worker processed, in that
    -- order, and what is left in the queue, as many as the report says and at most its size.
    pub report_adds_up :
        (size : ℕ) (w₀ : W) (v₀ : V) (a : Run sv W) (produced left : ℕ)
        → Reach sv sources ids rate (start sv size w₀ v₀) a
        → a.phase ≡ reported produced left
        → let queued = a.system.worker.message_queue in
          (a.world ≡ (made produced w₀).1)
          × (length queued ≡ left)
          × (left ≤ size)
          × (done : List GatewayMessage) × Feeds size (made produced w₀).0 done queued
          × (a.system.world ≡ process_all sv done v₀)
    report_adds_up size w₀ v₀ a produced left r at =
        let v = Reach-Inv size w₀ v₀ a r in
        let (off, said, long) = at-Fits a at v.fits in
        let queued = a.system.worker.message_queue in
        (
          subst (λ n. a.world ≡ (made n w₀).1) (sym said) v.same_world,
          sym long,
          omega (arith, v.bounded, long),
          v.done,
          subst (λ n. Feeds size (made n w₀).0 v.done queued) (sym said) v.fed,
          v.effect,
        )

    onwards :
        {a b c : Run sv W}
        → Step sv sources ids rate a b
        → Reach sv sources ids rate b c
        → Reach sv sources ids rate a c
    onwards st here = next here st
    onwards st (next r last) = next (onwards st r) last

    -- A run from here to a report.
    abbrev Reports : Run sv W → Type 0
    Reports a =
        (b : Run sv W) × Reach sv sources ids rate a b
        × (produced : ℕ) × (left : ℕ) × (b.phase ≡ reported produced left)

    by_step : {a b : Run sv W} → Step sv sources ids rate a b → Reports b → Reports a
    by_step st (c, r, n, q, said) = (c, onwards st r, n, q, said)

    joining-Reports : (a : Run sv W) → a.phase ≡ joining → a.system.running ≡ false → Reports a
    joining-Reports a at off = by_step (join at off refl) (_, here, _, _, refl)

    stopping-Reports : (a : Run sv W) → a.phase ≡ stopping → a.system.running ≡ true → Reports a
    stopping-Reports a at on = by_step (stop at on refl) (joining-Reports _ refl refl)

    waiting-Reports : (a : Run sv W) → a.phase ≡ waiting → a.system.running ≡ true → Reports a
    waiting-Reports a at on = by_step (time_up at refl) (stopping-Reports _ refl on)

    sending-Reports :
        (n : ℕ) (a : Run sv W) → a.phase ≡ sending n → a.system.running ≡ true → Reports a
    sending-Reports zero a at on = by_step (sent at refl) (waiting-Reports _ refl on)
    sending-Reports (suc n) a at on = by_step (send n at refl) (
        sending-Reports n (send_next sv sources ids rate a n) (unfold send_next in refl)
          (unfold send_next in after_enqueue-running a.system _ _ ∙ on))

    phase-Reports :
        (phase : Phase) (a : Run sv W)
        → a.phase ≡ phase
        → Fits phase a.system a.produced
        → Reports a
    phase-Reports waiting a at f = waiting-Reports a at f
    phase-Reports (sending n) a at f = sending-Reports n a at f
    phase-Reports stopping a at f = stopping-Reports a at f
    phase-Reports joining a at f = joining-Reports a at f
    phase-Reports (reported n q) a at f = (a, here, n, q, at)

    -- Wherever the load generator is, it can go on to its report: neither the sending of messages
    -- nor the stop of the worker can block it for good.
    pub run_can_report :
        (size : ℕ) (w₀ : W) (v₀ : V) (a : Run sv W)
        → Reach sv sources ids rate (start sv size w₀ v₀) a
        → (b : Run sv W) × Reach sv sources ids rate a b
          × (produced : ℕ) × (left : ℕ) × (b.phase ≡ reported produced left)
    run_can_report size w₀ v₀ a r = phase-Reports a.phase a refl (Reach-Inv size w₀ v₀ a r).fits
