-- ===== src/Tests/Threads.antt =====
-- Two goroutines that check the same gateway.
use backend_assessment.Prelude.{
  ℕ, ◌≤◌, ◌≡◌, ◌↔◌, ◌⊎◌, refl, true, false, Option, none, some, String, List, [], ◌∷◌, arith, map,
}
use backend_assessment.Prelude.Dict.{lookup, insert}
use backend_assessment.EdgeHealth.{
  HealthProcessor, HealthStatus, is_pending, mark_pending, new_health_processor,
}
use backend_assessment.EdgeHealth.Threads.{
  Thread, Row, System, Step, run, Reach, here, next, launch, started, want_mark, want_read, in_mark,
  advance, thread_of, scan_rows,
}
use backend_assessment.EdgeHealth.Loop
use backend_assessment.EdgeHealth.Loop.{
  waiting, in_round, stopped, Excludes, start-Excludes, stop_returns,
}
use backend_assessment.EdgeHealth.Threads.Races.{unlocked_read_meets_write}
use backend_assessment.EdgeHealth.Threads.Locks.{total}
use backend_assessment.EdgeHealth.Threads.Exclusion.{active, one_check_at_a_time}
use backend_assessment.EdgeHealth.Threads.Commits.{commits_are_atomic}
use backend_assessment.EdgeHealth.Threads.Current.{IsResult}
use backend_assessment.EdgeHealth.Threads.Progress.{no_deadlock}

abbrev rows : List (Option Row)
rows = some (record { id = "g1"; seen = 5 }) ∷ none ∷ some (record { id = "g1"; seen = 7 }) ∷ []

abbrev second : Thread
second = record { gateway = "g1"; last_seen = 7; pc = started }

abbrev moved : System
moved = record {
  shared = record { processor = new_health_processor; writers = 0; readers = 0 };
  threads = record { gateway = "g1"; last_seen = 5; pc = want_mark } ∷ second ∷ [];
}

-- The first goroutine has seen that the gateway is not pending.
first_step : Step (launch new_health_processor rows) moved
unfolding launch advance new_health_processor is_pending lookup
first_step =
    run [] (second ∷ []) (record { gateway = "g1"; last_seen = 5; pc = started }) 0 0 moved.shared
      want_mark refl refl refl refl

free : (j : String) → is_pending new_health_processor j ≡ false
unfolding is_pending new_health_processor lookup
free j = refl

one_check_at_a_time_example :
    (total (active "g1") moved.threads ≤ 1)
    × ((total (active "g1") moved.threads ≡ 1) ↔ (is_pending moved.shared.processor "g1" ≡ true))
one_check_at_a_time_example =
    one_check_at_a_time new_health_processor rows moved "g1" free (next here first_step)

commits_are_atomic_example :
    let m = (launch new_health_processor rows).shared.processor.health_cache in
    let m' = moved.shared.processor.health_cache in
    (m' ≡ m)
    ⊎ ((id : String) × (last_seen : ℕ) × (status : HealthStatus) × IsResult
          (lookup id m)
          id
          last_seen
          status
        × (m' ≡ insert id status m))
commits_are_atomic_example =
    commits_are_atomic new_health_processor rows (launch new_health_processor rows) moved free here
      first_step

no_deadlock_example : (b : System) × Step moved b
no_deadlock_example =
    no_deadlock new_health_processor rows moved (next here first_step) (omega arith)

-- The first goroutine has the lock, and then is past the test; the other has not started.
abbrev marking : System
marking = record {
  shared = record { processor = new_health_processor; writers = 1; readers = 0 };
  threads = record { gateway = "g1"; last_seen = 5; pc = in_mark } ∷ second ∷ [];
}

abbrev under_way : System
under_way = record {
  shared = record { processor = mark_pending new_health_processor "g1"; writers = 0; readers = 0 };
  threads = record { gateway = "g1"; last_seen = 5; pc = want_read } ∷ second ∷ [];
}

unlocked_read_meets_write_example :
    let p = new_health_processor in
    let g : Row = record { id = "g1"; seen = 5 } in
    let h : Row = record { id = "g2"; seen = 7 } in
    let writing = record (thread_of g) { pc = in_mark } in
    (b : System) × (c : System) × Reach (launch p (some g ∷ some h ∷ [])) b
    × Step b c
    × (b.shared.writers ≡ 1)
    × (b.threads ≡ writing ∷ thread_of h ∷ map thread_of (scan_rows []))
    × (c.threads ≡ writing ∷ record (thread_of h) { pc = want_mark } ∷ map thread_of (scan_rows []))
unlocked_read_meets_write_example =
    unlocked_read_meets_write new_health_processor (record { id = "g1"; seen = 5 })
      (record { id = "g2"; seen = 7 }) [] (free "g1") (free "g2")

-- The loop after a tick and one step of the first goroutine.
in_first_round : Loop.Reach (waiting new_health_processor) (in_round moved)
in_first_round =
    Loop.next (Loop.next Loop.here (Loop.tick new_health_processor rows refl refl))
      (Loop.work (launch new_health_processor rows) moved refl first_step refl)

start-Excludes_example : Excludes (in_round moved)
start-Excludes_example = start-Excludes (in_round moved) in_first_round

stop_returns_example : (p : HealthProcessor) × Loop.Reach (in_round moved) (stopped p)
stop_returns_example = stop_returns (in_round moved) in_first_round
