-- ===== src/Tests/Caches.antt =====
-- Two caches with the same entries, filled in different orders.
use mathlib.Core.List.{Perm}
use backend_assessment.Prelude.{◌≡◌, refl, String, List, [], ◌∷◌, pos, eq_iff, arith}
use backend_assessment.Prelude.Dict.{lookup, insert}
use backend_assessment.Prelude.Entries.{Distinct}
use backend_assessment.Models.{Health, healthy, offline}
use backend_assessment.EdgeHealth.{
  HealthProcessor, HealthStatus, new_health_processor, commit, get_health_status,
  get_all_health_statuses,
}
use backend_assessment.EdgeHealth.Cache.{get_all_health_statuses-Perm}

abbrev status_of : String → Health → HealthStatus
status_of id h = record {
  gateway_id = id;
  status = h;
  last_checked = 7;
  error_count = pos 0;
  response_time = pos 0;
}

abbrev up : HealthStatus
up = status_of "g1" healthy

abbrev down : HealthStatus
down = status_of "g2" offline

abbrev first : HealthProcessor
first = record { health_cache = ("g1", up) ∷ ("g2", down) ∷ []; pending_checks = [] }

abbrev answers : List (String × HealthStatus)
answers = ("g2", down) ∷ ("g1", up) ∷ []

first-Distinct : Distinct first.health_cache
unfolding lookup
first-Distinct = (refl, (refl, tt))

answers-Distinct : Distinct answers
unfolding lookup
answers-Distinct = (refl, (refl, tt))

same_answers : (id : String) → get_health_status first id ≡ lookup id answers
unfolding get_health_status lookup
same_answers id = ground (arith, eq_iff "g1" id, eq_iff "g2" id, eq_iff "g1" "g2")

get_all_health_statuses-Perm_example : Perm (get_all_health_statuses first) (down ∷ up ∷ [])
get_all_health_statuses-Perm_example =
    get_all_health_statuses-Perm first answers first-Distinct answers-Distinct same_answers

-- The orders of the lists differ.
in_order :
    get_all_health_statuses (commit (commit new_health_processor "g2" down) "g1" up)
    ≡ down ∷ up ∷ []
unfolding get_all_health_statuses commit insert new_health_processor
in_order = refl
