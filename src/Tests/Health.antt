-- ===== src/Tests/Health.antt =====
-- Checks of gateways one at a time, in a world that keeps the clock and the statements.
use backend_assessment.Prelude.{
  ℕ, ◌+◌, ◌*◌, ◌<◌, ◌≤◌, ◌≡◌, ◌↔◌, refl, Bool, true, String, List, [], ◌∷◌, ◌++◌, ℤ, pos, since,
  arith,
}
use backend_assessment.Prelude.Dict.{lookup, insert, delete}
use backend_assessment.Models.{healthy, warning, critical, offline, health_text}
use backend_assessment.EdgeHealth.{
  Statement, update_gateway, classify, is_pending, new_health_processor, check_gateway_health,
  update_health_in_database, determine_health_status, recount, mark_pending, commit, clear_pending,
  next_count,
}
use backend_assessment.EdgeHealth.Checks.{
  new_status, classify-since, check_all, Counts, check_all-Counts,
}
use backend_assessment.EdgeHealth.Statements.{Logs, check_statements, history_of, alert_of}

record World : Type 0 where
  time : ℕ
  executed : List Statement

abbrev minute : ℕ
minute = 60000000000

-- The clock stands at one hour; every statement goes through.
abbrev now : World → ℕ × World
now w = (w.time, w)

abbrev exec : Statement → World → Bool × World
exec s w = (true, record w { executed = s ∷ w.executed })

abbrev decimal : ℤ → String
decimal n = "n"

abbrev begin : World
begin = record { time = 60 * minute; executed = [] }

abbrev id : String
id = "30000000-0000-0000-0000-000000000001"

critical_check :
    (check_gateway_health now exec decimal new_health_processor id
      (40 * minute)
      begin).0.health_cache
    ≡ (
      id,
      record {
        gateway_id = id;
        status = critical;
        last_checked = 60 * minute;
        error_count = pos 0;
        response_time = pos 0;
      },
    )
      ∷ []
unfolding check_gateway_health new_health_processor is_pending lookup insert delete mark_pending
    commit clear_pending recount determine_health_status next_count classify
critical_check = refl

classify-since_example :
    ((classify (since (50 * minute) (40 * minute)) ≡ healthy)
      ↔ (50 * minute < 40 * minute + 5 * minute))
    × ((classify (since (50 * minute) (40 * minute)) ≡ warning)
        ↔ ((40 * minute + 5 * minute ≤ 50 * minute) × (50 * minute < 40 * minute + 15 * minute)))
    × ((classify (since (50 * minute) (40 * minute)) ≡ critical)
        ↔ ((40 * minute + 15 * minute ≤ 50 * minute) × (50 * minute < 40 * minute + 30 * minute)))
    × ((classify (since (50 * minute) (40 * minute)) ≡ offline)
        ↔ (40 * minute + 30 * minute ≤ 50 * minute))
classify-since_example = classify-since (50 * minute) (40 * minute)

check_all-Counts_example :
    let (found, q) =
      check_all now exec decimal new_health_processor id
        (40 * minute ∷ 20 * minute ∷ [])
        []
        begin in
    Counts found (lookup id q.health_cache)
unfolding is_pending new_health_processor lookup
check_all-Counts_example =
    check_all-Counts now exec decimal new_health_processor id (40 * minute ∷ 20 * minute ∷ []) begin
      (omega arith) refl refl

logs : Logs now exec decimal (λ w. w.executed)
logs = record { by_now = λ v. refl; by_exec = λ s v. refl }

check_statements_example :
    let s =
      new_status
        (lookup id new_health_processor.health_cache)
        id
        (40 * minute)
        (60 * minute)
        (60 * minute) in
    let update = update_gateway (health_text s.status) (60 * minute) id in
    let u = update_health_in_database now exec decimal s begin in
    (check_gateway_health now exec decimal new_health_processor id (40 * minute) begin).1.executed
    ≡ alert_of now exec decimal (λ w. w.executed) s u.time s.status
      ++ (history_of now exec decimal (λ w. w.executed) s true ++ update ∷ [])
unfolding is_pending new_health_processor lookup
check_statements_example =
    check_statements now exec decimal (λ w. w.executed) new_health_processor id (40 * minute) begin
      refl logs
