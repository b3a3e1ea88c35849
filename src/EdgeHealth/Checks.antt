-- ===== src/EdgeHealth/Checks.antt =====
-- What one check leaves in the processor, and what a series of checks counts.
use backend_assessment.Prelude.{
  ℕ, ◌*◌, ◌↔◌, suc, ◌+◌, ◌-◌, ◌≤◌, ◌<◌, ◌≡◌, refl, ◌∙◌, Bool, true, false, Option, none, some,
  String, List, [], ◌∷◌, ℤ, pos, inc64, since, max_int64, if◌then◌else◌, length, arith, str_eq,
  eq_iff, eq_refl,
}
use backend_assessment.Prelude.Dict.{lookup, insert, delete, lookup-insert, lookup-delete}
use backend_assessment.Models.{Health, healthy, warning, critical, offline}
use backend_assessment.EdgeHealth.{
  HealthProcessor, HealthStatus, Statement, classify, determine_health_status, recount, is_pending,
  mark_pending, commit, clear_pending, report, check_gateway_health,
}

-- The error count of a check, from the entry that the gateway had before.
abbrev pub count_after : Option HealthStatus → Health → ℤ
count_after none h = pos 0
count_after (some c) healthy = pos 0
count_after (some c) _ = inc64 c.error_count

-- The status that a check records: the clock's first reading, and the classification at its second.
abbrev pub new_status : Option HealthStatus → String → (last_seen checked time : ℕ) → HealthStatus
new_status old id last_seen checked time = record {
  gateway_id = id;
  status = classify (since time last_seen);
  last_checked = checked;
  error_count = count_after old (classify (since time last_seen));
  response_time = pos 0;
}

pub recount-determine :
    (p q : HealthProcessor) (id : String) (last_seen checked time : ℕ)
    → lookup id p.health_cache ≡ lookup id q.health_cache
    → recount (lookup id q.health_cache) (determine_health_status p id last_seen checked time)
      ≡ new_status (lookup id q.health_cache) id last_seen checked time
unfolding recount determine_health_status
recount-determine p q id last_seen checked time same = ground arith

-- Against the times themselves, the saturating difference included: a gateway is healthy while less
-- than 5 minutes have passed since it was seen (or it was seen later than now), then a warning
-- before 15 minutes, critical before 30, and offline from 30 minutes on.
pub classify-since :
    (now last_seen : ℕ)
    → let m : ℕ = 60000000000 in
      ((classify (since now last_seen) ≡ healthy) ↔ (now < last_seen + 5 * m))
      × ((classify (since now last_seen) ≡ warning)
          ↔ ((last_seen + 5 * m ≤ now) × (now < last_seen + 15 * m)))
      × ((classify (since now last_seen) ≡ critical)
          ↔ ((last_seen + 15 * m ≤ now) × (now < last_seen + 30 * m)))
      × ((classify (since now last_seen) ≡ offline) ↔ (last_seen + 30 * m ≤ now))
unfolding classify
classify-since now last_seen = ground arith

-- The classes that are not healthy before the first healthy one, the newest first.
abbrev pub trailing : List Health → ℕ
trailing [] = 0
trailing (healthy ∷ found) = 0
trailing (_ ∷ found) = suc (trailing found)

abbrev pub none_healthy : List Health → Bool
none_healthy [] = true
none_healthy (healthy ∷ found) = false
none_healthy (_ ∷ found) = none_healthy found

-- The failures since the last healthy check; if there was none, the first check is not counted.
abbrev pub expected : List Health → ℕ
expected found = if none_healthy found then trailing found - 1 else trailing found

trailing-le-length : (found : List Health) → trailing found ≤ length found
trailing-le-length [] = omega arith
trailing-le-length (healthy ∷ found) = omega arith
trailing-le-length (_ ∷ found) = omega (arith, trailing-le-length found)

-- The entry after the checks that found these classes.
abbrev pub Counts : List Health → Option HealthStatus → Type 0
Counts [] entry = entry ≡ none
Counts (h ∷ found) entry =
    (c : HealthStatus) × (entry ≡ some c)
    × (c.status ≡ h)
    × (c.error_count ≡ pos (expected (h ∷ found)))

-- A class that is not healthy counts one more than what came before.
count-expected :
    (h : Health) (found : List Health) (old : Option HealthStatus)
    → length found < max_int64
    → Counts found old
    → count_after old h ≡ pos (expected (h ∷ found))
count-expected healthy found old small c = ground arith
count-expected h [] old small c = ground arith
count-expected h (g ∷ found) old small (s, e, same, n) =
    ground (arith, trailing-le-length (g ∷ found))

Counts-new :
    (found : List Health) (old : Option HealthStatus) (id : String) (last_seen checked time : ℕ)
    → length found < max_int64
    → Counts found old
    → Counts
        (classify (since time last_seen) ∷ found)
        (some (new_status old id last_seen checked time))
Counts-new found old id last_seen checked time small c = (
  new_status old id last_seen checked time,
  refl,
  refl,
  count-expected (classify (since time last_seen)) found old small c,
)

module _ {W : Type 0} (now : W → ℕ × W) (exec : Statement → W → Bool × W)
    (decimal : ℤ → String) where
  -- The result of a check of a gateway that is not pending.
  abbrev pub settled : HealthProcessor → String → HealthStatus → HealthProcessor
  settled p id status = record {
    health_cache = insert id status p.health_cache;
    pending_checks = delete id (insert id true p.pending_checks);
  }

  settled-is_pending :
      (p : HealthProcessor) (id j : String) (status : HealthStatus)
      → is_pending p id ≡ false
      → is_pending (settled p id status) j ≡ is_pending p j
  unfolding is_pending
  settled-is_pending p id j status free = ground (
    arith,
    lookup-delete id j (insert id true p.pending_checks),
    lookup-insert id j true p.pending_checks,
    eq_iff id j,
  )

  pub check-settled :
      (p : HealthProcessor) (id : String) (last_seen : ℕ) (w : W)
      → is_pending p id ≡ false
      → let status =
          new_status (lookup id p.health_cache) id last_seen (now w).0 (now (now w).1).0 in
        check_gateway_health now exec decimal p id last_seen w
        ≡ (settled p id status, report now exec decimal status (now (now w).1).1)
  unfolding check_gateway_health mark_pending commit clear_pending
  check-settled p id last_seen w free =
      rw free
        (cc (recount-determine (mark_pending p id) p id last_seen (now w).0 (now (now w).1).0 refl))

  -- A check of a gateway that is not pending, run alone, changes the cache at that gateway only: the
  -- entry is for this gateway, carries the first clock reading and the class of the time since the
  -- gateway was seen at the second, and counts one failure more than the old entry if the class is
  -- not healthy; the count is 0 if the class is healthy or there was no entry. Which gateways are
  -- pending is afterwards as before.
  pub check_records :
      (p : HealthProcessor) (id : String) (last_seen : ℕ) (w : W)
      → is_pending p id ≡ false
      → let q = (check_gateway_health now exec decimal p id last_seen w).0 in
        let status =
          new_status (lookup id p.health_cache) id last_seen (now w).0 (now (now w).1).0 in
        ((j : String)
          → lookup j q.health_cache
            ≡ (if str_eq id j then some status else lookup j p.health_cache))
        × ((j : String) → is_pending q j ≡ is_pending p j)
  check_records p id last_seen w free =
      rw (check-settled p id last_seen w free)
        (λ j. lookup-insert id j _ p.health_cache, λ j. settled-is_pending p id j _ free)

  -- Checks of one gateway, run one after another: the classes that they found, the newest first.
  unfoldable pub check_all :
      HealthProcessor → String → List ℕ → List Health → W → List Health × HealthProcessor
  check_all p id [] found w = (found, p)
  check_all p id (last_seen ∷ later) found w =
      let class = classify (since (now (now w).1).0 last_seen) in
      let (p', w') = check_gateway_health now exec decimal p id last_seen w in
      check_all p' id later (class ∷ found) w'

  grow-Counts :
      (p : HealthProcessor) (id : String) (seen : List ℕ) (found : List Health) (w : W)
      → length found + length seen ≤ max_int64
      → is_pending p id ≡ false
      → Counts found (lookup id p.health_cache)
      → let (found', q) = check_all p id seen found w in Counts found' (lookup id q.health_cache)
  unfolding check_all
  grow-Counts p id [] found w small free c = c
  grow-Counts p id (last_seen ∷ later) found w small free c =
      let (entry, flags) = check_records p id last_seen w free in
      grow-Counts (check_gateway_health now exec decimal p id last_seen w).0 id later
        (classify (since (now (now w).1).0 last_seen) ∷ found)
        (check_gateway_health now exec decimal p id last_seen w).1 (omega arith) (flags id ∙ free)
        (rw (entry id, eq_refl id)
          (Counts-new found (lookup id p.health_cache) id last_seen (now w).0 (now (now w).1).0
            (omega arith) c))

  -- After a series of at most 2^63 - 1 checks of one gateway that starts with no entry and not
  -- pending, each run alone, the cached status has the class found last, and its error count is the
  -- number of checks since the last healthy one; if no check was healthy, it is one less than the
  -- number of checks.
  pub check_all-Counts :
      (p : HealthProcessor) (id : String) (seen : List ℕ) (w : W)
      → length seen ≤ max_int64
      → is_pending p id ≡ false
      → lookup id p.health_cache ≡ none
      → let (found, q) = check_all p id seen [] w in Counts found (lookup id q.health_cache)
  check_all-Counts p id seen w small free fresh =
      grow-Counts p id seen [] w (omega arith) free fresh
