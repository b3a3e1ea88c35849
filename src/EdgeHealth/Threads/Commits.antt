-- ===== src/EdgeHealth/Threads/Commits.antt =====
-- What a goroutine writes is what it would have written alone: between its read of the cache and its
-- commit no other goroutine writes the gateway's entry.
use backend_assessment.Prelude.{
  ℕ, ◌≡◌, refl, ap, subst, ◌∙◌, ◌⊎◌, inl, inr, false, Option, none, some, String, List, [], ◌∷◌,
  ◌++◌, map, arith, ◌==◌, ◌&&◌, eq_refl, Bool-cases, All, All-append,
}
use backend_assessment.Prelude.Dict.{lookup, insert}
use backend_assessment.EdgeHealth.{
  HealthProcessor, HealthStatus, is_pending, mark_pending, commit, clear_pending,
}
use backend_assessment.EdgeHealth.Checks.{recount-determine}
use backend_assessment.EdgeHealth.Threads.{
  Pc, started, want_mark, in_mark, want_read, in_read, want_clear, in_clear, finished, fetched,
  want_commit, in_commit, reporting, Thread, Shared, advance, lock, System, Step, run, Reach, here,
  next, Row, thread_of, scan_rows, launch,
}
use backend_assessment.EdgeHealth.Threads.Current.{
  Cache, IsResult, IsCurrentAt, IsCurrent, insert-All, All-split,
}
use backend_assessment.EdgeHealth.Threads.Locks.{total, total-split}
use backend_assessment.EdgeHealth.Threads.Exclusion.{
  checks, active, IsExclusive, Step-IsExclusive, launch-IsExclusive,
}

-- A step leaves the cache alone, or writes the status that the goroutine carries.
abbrev Writes : Thread → Cache → Cache → Type 0
Writes t m m' =
    (m' ≡ m)
    ⊎ ((status : HealthStatus) × (t.pc ≡ in_commit status) × (m' ≡ insert t.gateway status m))

advance-Writes :
    (t : Thread) (checked time : ℕ) (s s' : Shared) (pc pc' : Pc)
    → advance t.gateway t.last_seen checked time pc s ≡ some (s', pc')
    → Writes (record t { pc = pc }) s.processor.health_cache s'.processor.health_cache
unfolding advance commit mark_pending clear_pending
advance-Writes t checked time s s' (in_commit status) pc' e = inr (status, refl, ground arith)
advance-Writes t checked time s s' _ pc' e = inl (ground arith)

-- What the goroutine carries after its step, if it had one, agrees with the cache.
abbrev Carries : String → ℕ → Option (Shared × Pc) → Type 0
Carries id last_seen none = Unit
Carries id last_seen (some (s, pc)) =
    IsCurrentAt (lookup id s.processor.health_cache) id last_seen pc

lock-Carries :
    (id : String) (last_seen : ℕ) (s : Shared) (pc : Pc)
    → IsCurrentAt (lookup id s.processor.health_cache) id last_seen pc
    → Carries id last_seen (lock s pc)
lock-Carries id last_seen s pc c = elim (Bool-cases (s.writers == 0 && s.readers == 0)) [
  | inl free ↦ rw free c
  | inr held ↦ rw held tt
]

advance-Carries :
    (id : String) (last_seen checked time : ℕ) (s : Shared) (pc : Pc)
    → IsCurrentAt (lookup id s.processor.health_cache) id last_seen pc
    → Carries id last_seen (advance id last_seen checked time pc s)
unfolding advance
advance-Carries id last_seen checked time s started c =
    elim (Bool-cases (is_pending s.processor id)) [ inl e ↦ rw e tt | inr e ↦ rw e tt ]
advance-Carries id last_seen checked time s want_mark c = lock-Carries id last_seen s in_mark tt
advance-Carries id last_seen checked time s in_mark c =
    elim (Bool-cases (is_pending s.processor id)) [ inl e ↦ rw e tt | inr e ↦ rw e tt ]
advance-Carries id last_seen checked time s want_read c = elim (Bool-cases (s.writers == 0)) [
  | inl e ↦ rw e tt
  | inr e ↦ rw e tt
]
advance-Carries id last_seen checked time s in_read c = refl
advance-Carries id last_seen checked time s (fetched cached) c =
    (checked, time, rw c (recount-determine s.processor s.processor id last_seen checked time refl))
advance-Carries id last_seen checked time s (want_commit status) c =
    lock-Carries id last_seen s (in_commit status) c
advance-Carries id last_seen checked time s (in_commit status) c = tt
advance-Carries id last_seen checked time s (reporting status) c = tt
advance-Carries id last_seen checked time s want_clear c = lock-Carries id last_seen s in_clear tt
advance-Carries id last_seen checked time s in_clear c = tt
advance-Carries id last_seen checked time s finished c = tt

pub record Inv (a : System) : Type 0 where
  pub exclusive : IsExclusive a
  pub current : All (IsCurrent a.shared.processor.health_cache) a.threads

-- The goroutines that stand still after one step of another.
still-IsCurrent :
    (t : Thread) (m m' : Cache) (ts : List Thread)
    → (checks t.pc ≡ 1 → total (active t.gateway) ts ≡ 0)
    → Writes t m m'
    → All (IsCurrent m) ts
    → All (IsCurrent m') ts
still-IsCurrent t m m' ts alone (inl same) c = rw same c
still-IsCurrent t m m' ts alone (inr (status, at, e)) c =
    rw e (insert-All t.gateway status m ts (alone (ap checks at)) c)

alone-in :
    (a : System) (xs ys : List Thread) (t : Thread)
    → IsExclusive a
    → a.threads ≡ xs ++ t ∷ ys
    → checks t.pc ≡ 1
    → (total (active t.gateway) xs ≡ 0) × (total (active t.gateway) ys ≡ 0)
alone-in a xs ys t v split at =
    ground (
      arith,
      v t.gateway,
      total-split (active t.gateway) xs t ys a.threads split,
      eq_refl t.gateway,
    )

Step-Inv : {a b : System} → Step a b → Inv a → Inv b
Step-Inv {a} {b} (run xs ys t checked time s pc split adv es et) v =
    let m = a.shared.processor.health_cache in
    let wrote : Writes t m s.processor.health_cache =
      advance-Writes t checked time a.shared s t.pc pc adv in
    let (before, at, after) = All-split m xs t ys (subst (All (IsCurrent m)) split v.current) in
    let moved : IsCurrent s.processor.health_cache (record t { pc = pc }) =
      subst (Carries t.gateway t.last_seen) adv
        (advance-Carries t.gateway t.last_seen checked time a.shared t.pc at) in
    record {
      exclusive = Step-IsExclusive (run xs ys t checked time s pc split adv es et) v.exclusive;
      current =
          rw (es, et)
            (All-append (IsCurrent s.processor.health_cache) xs (record t { pc = pc } ∷ ys)
              (still-IsCurrent t m _ xs (λ h. (alone-in a xs ys t v.exclusive split h).0) wrote
                before)
              (
                moved,
                still-IsCurrent t m _ ys (λ h. (alone-in a xs ys t v.exclusive split h).1) wrote
                    after,
              ));
    }

pub Reach-Inv : {a b : System} → Inv a → Reach a b → Inv b
Reach-Inv v here = v
Reach-Inv v (next r st) = Step-Inv st (Reach-Inv v r)

started-IsCurrent : (m : Cache) (rows : List Row) → All (IsCurrent m) (map thread_of rows)
started-IsCurrent m [] = tt
started-IsCurrent m (g ∷ rows) = (tt, started-IsCurrent m rows)

pub launch-Inv :
    (p : HealthProcessor) (rows : List (Option Row))
    → ((id : String) → is_pending p id ≡ false)
    → Inv (launch p rows)
unfolding launch
launch-Inv p rows free = record {
  exclusive = launch-IsExclusive p rows free;
  current = started-IsCurrent p.health_cache (scan_rows rows);
}

-- However the goroutines of processHealthChecks interleave, if no gateway was pending before: every
-- step leaves the cache as it is, or replaces one gateway's entry by a status that a check running
-- alone would record over the entry that stands there at that moment, so that no count is lost.
pub commits_are_atomic :
    (p : HealthProcessor) (rows : List (Option Row)) (a b : System)
    → ((id : String) → is_pending p id ≡ false)
    → Reach (launch p rows) a
    → Step a b
    → let m = a.shared.processor.health_cache in
      let m' = b.shared.processor.health_cache in
      (m' ≡ m)
      ⊎ ((id : String) × (last_seen : ℕ) × (status : HealthStatus) × IsResult
            (lookup id m)
            id
            last_seen
            status
          × (m' ≡ insert id status m))
commits_are_atomic p rows a b free r (run xs ys t checked time s pc split adv es et) =
    let m = a.shared.processor.health_cache in
    let v : Inv a = Reach-Inv (launch-Inv p rows free) r in
    let (before, at, after) = All-split m xs t ys (subst (All (IsCurrent m)) split v.current) in
    elim (advance-Writes t checked time a.shared s t.pc pc adv) [
      | inl same ↦ inl (ap (λ x. x.processor.health_cache) es ∙ same)
      | inr (status, pc_is, e) ↦ inr (
        t.gateway,
        t.last_seen,
        status,
        subst (IsCurrentAt (lookup t.gateway m) t.gateway t.last_seen) pc_is at,
        ap (λ x. x.processor.health_cache) es ∙ e,
      )
    ]
