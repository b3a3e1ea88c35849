-- ===== src/EdgeHealth/Cache.antt =====
-- The cache as its readers see it: GetAllHealthStatuses ranges over a Go map, in no fixed order, so
-- its result is a list up to order.
use mathlib.Core.List.{Perm}
use mathlib.Core.List.Perm
use mathlib.Core.Quot
use mathlib.Core.Quot.{Quot}
use mathlib.Core.List.{map}
use backend_assessment.Prelude.{◌≡◌, ◌≢◌, some, String, List, arith, if◌then◌else◌, str_eq, eq_iff}
use backend_assessment.Prelude.Dict.{lookup, lookup-insert}
use backend_assessment.Prelude.Entries.{Distinct, insert-Distinct, entries-Perm}
use backend_assessment.EdgeHealth.{
  HealthProcessor, HealthStatus, commit, get_health_status, get_all_health_statuses,
}

-- GetAllHealthStatuses against GetHealthStatus, on a cache in which no gateway has two entries:
-- however the gateways with their statuses are written down, each gateway once and each with the
-- answer of GetHealthStatus, the statuses written down are those that GetAllHealthStatuses gives,
-- each as often, in some order.
pub get_all_health_statuses-Perm :
    (p : HealthProcessor) (answers : List (String × HealthStatus))
    → Distinct p.health_cache
    → Distinct answers
    → ((id : String) → get_health_status p id ≡ lookup id answers)
    → Perm (get_all_health_statuses p) (map (λ e. e.1) answers)
unfolding get_health_status get_all_health_statuses
get_all_health_statuses-Perm p answers d d' same =
    Perm.map (λ e. e.1) (entries-Perm p.health_cache answers d d' same)

-- The statuses with the order forgotten.
abbrev pub Statuses : Type 0
Statuses = Quot (λ (xs ys : List HealthStatus). Perm xs ys)

abbrev pub statuses : HealthProcessor → Statuses
statuses p = Quot.mk (get_all_health_statuses p)

alike :
    (p q : HealthProcessor)
    → Distinct p.health_cache
    → Distinct q.health_cache
    → ((id : String) → get_health_status p id ≡ get_health_status q id)
    → Perm (get_all_health_statuses p) (get_all_health_statuses q)
unfolding get_health_status get_all_health_statuses
alike p q d d' same = get_all_health_statuses-Perm p q.health_cache d d' same

commit-Distinct :
    (p : HealthProcessor) (id : String) (s : HealthStatus)
    → Distinct p.health_cache
    → Distinct (commit p id s).health_cache
unfolding commit
commit-Distinct p id s d = insert-Distinct id s p.health_cache d

get_health_status-commit :
    (p : HealthProcessor) (id j : String) (s : HealthStatus)
    → get_health_status (commit p id s) j ≡ (if str_eq id j then some s else get_health_status p j)
unfolding get_health_status commit
get_health_status-commit p id j s = lookup-insert id j s p.health_cache

-- The commits of two different gateways may happen in either order: nobody can tell from
-- GetHealthStatus, nor from GetAllHealthStatuses as its result has no order.
pub commits_commute :
    (p : HealthProcessor) (a b : String) (s t : HealthStatus)
    → Distinct p.health_cache
    → a ≢ b
    → let one = commit (commit p a s) b t in
      let other = commit (commit p b t) a s in
      ((id : String) → get_health_status one id ≡ get_health_status other id)
      × (statuses one ≡ statuses other)
commits_commute p a b s t d differ =
    let one = commit (commit p a s) b t in
    let other = commit (commit p b t) a s in
    let same : (id : String) → get_health_status one id ≡ get_health_status other id = λ id.
      ground (
        arith,
        get_health_status-commit (commit p a s) b id t,
        get_health_status-commit p a id s,
        get_health_status-commit (commit p b t) a id s,
        get_health_status-commit p b id t,
        eq_iff a id,
        eq_iff b id,
        differ,
      ) in
    (
      same,
      Quot.sound (
          alike one other (commit-Distinct (commit p a s) b t (commit-Distinct p a s d))
            (commit-Distinct (commit p b t) a s (commit-Distinct p b t d)) same),
    )
