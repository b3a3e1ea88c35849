-- ===== src/EdgeHealth/Threads/Races.antt =====
-- The first test of pendingChecks in checkGatewayHealth, which takes no lock.
use backend_assessment.Prelude.{
  ℕ, ◌≡◌, refl, false, Option, some, String, List, [], ◌∷◌, map, arith,
}
use backend_assessment.EdgeHealth.{HealthProcessor, is_pending}
use backend_assessment.EdgeHealth.Threads.{
  started, want_mark, in_mark, Thread, Shared, advance, System, Step, run, Reach, here, next, Row,
  scan_rows, thread_of, launch,
}

passes_test :
    (id : String) (last_seen : ℕ) (s : Shared)
    → is_pending s.processor id ≡ false
    → advance id last_seen 0 0 started s ≡ some (s, want_mark)
unfolding advance
passes_test id last_seen s free = ground arith

takes_lock :
    (id : String) (last_seen : ℕ) (p : HealthProcessor)
    → advance id last_seen 0 0 want_mark (record { processor = p; writers = 0; readers = 0 })
      ≡ some (record { processor = p; writers = 1; readers = 0 }, in_mark)
unfolding advance
takes_lock id last_seen p = refl

-- With two gateways in a round, neither of which is pending, a state is reached in which the first
-- goroutine holds the lock to write to pendingChecks, while the goroutine of the second stands
-- before its read of that map, which does not wait for the lock: the step is possible at once.
pub unlocked_read_meets_write :
    (p : HealthProcessor) (g h : Row) (rows : List (Option Row))
    → is_pending p g.id ≡ false
    → is_pending p h.id ≡ false
    → let others = map thread_of (scan_rows rows) in
      let writing = record (thread_of g) { pc = in_mark } in
      (b : System) × (c : System) × Reach (launch p (some g ∷ some h ∷ rows)) b
      × Step b c
      × (b.shared.writers ≡ 1)
      × (b.threads ≡ writing ∷ thread_of h ∷ others)
      × (c.threads ≡ writing ∷ record (thread_of h) { pc = want_mark } ∷ others)
unfolding launch scan_rows
unlocked_read_meets_write p g h rows free free' =
    let others = map thread_of (scan_rows rows) in
    let idle : Shared = record { processor = p; writers = 0; readers = 0 } in
    let held : Shared = record { processor = p; writers = 1; readers = 0 } in
    let wanting : Thread = record (thread_of g) { pc = want_mark } in
    let writing : Thread = record (thread_of g) { pc = in_mark } in
    (
      record { shared = held; threads = writing ∷ thread_of h ∷ others },
      record {
        shared = held;
        threads = writing ∷ record (thread_of h) { pc = want_mark } ∷ others;
      },
      next
          (next {c = record { shared = idle; threads = wanting ∷ thread_of h ∷ others }} here (
            run [] (thread_of h ∷ others) (thread_of g) 0 0 idle want_mark refl
              (passes_test g.id g.seen idle free) refl refl))
          (run [] (thread_of h ∷ others) wanting 0 0 held in_mark refl (takes_lock g.id g.seen p)
            refl refl),
      run (writing ∷ []) others (thread_of h) 0 0 held want_mark refl
          (passes_test h.id h.seen held free') refl refl,
      refl,
      refl,
      refl,
    )
