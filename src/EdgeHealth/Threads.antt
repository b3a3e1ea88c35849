-- ===== src/EdgeHealth/Threads.antt =====
-- applications/edgehealth/processor.go: the goroutines that processHealthChecks starts, each inside
-- checkGatewayHealth. A step is what a goroutine does between two points at which another may run;
-- the read-write mutex is explicit, and a goroutine that it blocks has no step. The clock readings
-- of a step are arbitrary. Reads of a map outside the lock are steps of their own, as if they were
-- atomic. The statements of updateHealthInDatabase and triggerHealthAlert are one step with no
-- effect here.
pub mod Locks
pub mod Exclusion
pub mod Current
pub mod Commits
pub mod Progress
pub mod Races
use backend_assessment.Prelude.{
  ℕ, ◌+◌, ◌-◌, ◌≡◌, Bool, ◌&&◌, Option, none, some, String, List, [], ◌∷◌, ◌++◌, map, ◌==◌,
  if◌then◌else◌,
}
use backend_assessment.Prelude.Dict.{lookup}
use backend_assessment.EdgeHealth.{
  HealthProcessor, HealthStatus, determine_health_status, recount, is_pending, mark_pending, commit,
  clear_pending,
}

-- Where a goroutine stands in checkGatewayHealth.
pub data Pc : Type 0 where
  started want_mark in_mark want_read in_read want_clear in_clear finished : Pc
  fetched : Option HealthStatus → Pc
  want_commit in_commit reporting : HealthStatus → Pc

pub record Thread : Type 0 where
  pub gateway : String
  pub last_seen : ℕ
  pub pc : Pc

-- The processor with its `sync.RWMutex`: how many hold it for writing and for reading.
pub record Shared : Type 0 where
  pub processor : HealthProcessor
  pub writers : ℕ
  pub readers : ℕ

abbrev pub lock : Shared → Pc → Option (Shared × Pc)
lock s next =
    if s.writers == 0 && s.readers == 0 then some (record s { writers = 1 }, next) else none

abbrev pub unlock : Shared → HealthProcessor → Shared
unlock s p = record s { processor = p; writers = s.writers - 1 }

-- The next step of a goroutine; `none` if it is blocked or has returned.
unfoldable pub advance :
    (id : String) (last_seen checked time : ℕ) → Pc → Shared → Option (Shared × Pc)
advance id last_seen checked time started s =
    some (s, if is_pending s.processor id then finished else want_mark)
advance id last_seen checked time want_mark s = lock s in_mark
advance id last_seen checked time in_mark s = some (
    if is_pending s.processor id
    then (unlock s s.processor, finished)
    else (unlock s (mark_pending s.processor id), want_read))
advance id last_seen checked time want_read s =
    if s.writers == 0 then some (record s { readers = s.readers + 1 }, in_read) else none
advance id last_seen checked time in_read s =
    some (record s { readers = s.readers - 1 }, fetched (lookup id s.processor.health_cache))
advance id last_seen checked time (fetched cached) s =
    let status = determine_health_status s.processor id last_seen checked time in
    some (s, want_commit (recount cached status))
advance id last_seen checked time (want_commit status) s = lock s (in_commit status)
advance id last_seen checked time (in_commit status) s =
    some (unlock s (commit s.processor id status), reporting status)
advance id last_seen checked time (reporting status) s = some (s, want_clear)
advance id last_seen checked time want_clear s = lock s in_clear
advance id last_seen checked time in_clear s =
    some (unlock s (clear_pending s.processor id), finished)
advance id last_seen checked time finished s = none

pub record System : Type 0 where
  pub shared : Shared
  pub threads : List Thread

-- The scheduler picks a goroutine that can go on.
pub data Step (a b : System) : Type 0 where
  run :
      (before after : List Thread) (t : Thread) (checked time : ℕ) (s : Shared) (pc : Pc)
      → a.threads ≡ before ++ t ∷ after
      → advance t.gateway t.last_seen checked time t.pc a.shared ≡ some (s, pc)
      → b.shared ≡ s
      → b.threads ≡ before ++ record t { pc = pc } ∷ after
      → Step a b

pub data Reach (a : System) : System → Type 0 where
  here : Reach a a
  next : {b c : System} → Reach a b → Step b c → Reach a c

-- A row of the query in processHealthChecks; one that does not scan is left out.
pub record Row : Type 0 where
  pub id : String
  pub seen : ℕ

unfoldable pub scan_rows : List (Option Row) → List Row
scan_rows [] = []
scan_rows (none ∷ rows) = scan_rows rows
scan_rows (some g ∷ rows) = g ∷ scan_rows rows

abbrev pub thread_of : Row → Thread
thread_of g = record { gateway = g.id; last_seen = g.seen; pc = started }

-- `processHealthChecks` after the query: a goroutine for each row, and the lock free.
unfoldable pub launch : HealthProcessor → List (Option Row) → System
unfolding scan_rows
launch p rows = record {
  shared = record { processor = p; writers = 0; readers = 0 };
  threads = map thread_of (scan_rows rows);
}
