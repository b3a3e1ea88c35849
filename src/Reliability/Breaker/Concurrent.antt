-- ===== src/Reliability/Breaker/Concurrent.antt =====
-- Any number of goroutines inside `Do` at once: every interleaving of the two critical sections.
use backend_assessment.Prelude.{
  ℕ, zero, suc, ◌+◌, ◌-◌, ◌≤◌, ◌<◌, ◌≡◌, ◌≢◌, refl, ◌⊎◌, Bool, true, false, Option, List, [], ◌∷◌,
  map, ℤ, pos, pos_part, ◌≤ℤ◌, since, max_int64, arith,
}
use backend_assessment.Reliability.Breaker.{
  closed, opened, half_open, Error, Breaker, new_breaker, admit, settle,
}

-- The breaker, and how many calls of `fn` are running.
pub record System : Type 0 where
  pub breaker : Breaker
  pub in_flight : ℕ

pub data Step (s : System) (t : System) : Type 0 where
  enter :
      (now : ℕ)
      → (admit s.breaker now).1 ≡ true
      → t ≡ record { breaker = (admit s.breaker now).0; in_flight = s.in_flight + 1 }
      → Step s t
  refuse :
      (now : ℕ)
      → (admit s.breaker now).1 ≡ false
      → t ≡ record s { breaker = (admit s.breaker now).0 }
      → Step s t
  leave :
      (now : ℕ) (err : Option Error)
      → 0 < s.in_flight
      → t ≡ record { breaker = settle s.breaker now err; in_flight = s.in_flight - 1 }
      → Step s t

-- Reached in a number of steps.
pub data Reach (s : System) : ℕ → System → Type 0 where
  here : Reach s 0 s
  next : {n : ℕ} {t u : System} → Reach s n t → Step t u → Reach s (suc n) u

abbrev pub start : ℤ → ℤ → System
start threshold timeout = record { breaker = new_breaker threshold timeout; in_flight = 0 }

pub record Inv (threshold timeout : ℤ) (steps : ℕ) (s : System) : Type 0 where
  pub same_threshold : s.breaker.failure_threshold ≡ threshold
  pub same_timeout : s.breaker.reset_timeout ≡ timeout
  pub counted : s.breaker.failures ≡ pos (pos_part s.breaker.failures)
  pub few : pos_part s.breaker.failures + s.in_flight ≤ steps
  pub tripped : s.breaker.state ≢ closed → threshold ≤ℤ s.breaker.failures
  pub untripped :
      s.breaker.state ≡ closed
      → (s.breaker.failures ≡ pos 0) ⊎ (¬ (threshold ≤ℤ s.breaker.failures))

start-Inv : (th rt : ℤ) → Inv th rt 0 (start th rt)
unfolding new_breaker
start-Inv th rt = ground arith

Step-Inv :
    (th rt : ℤ) (n : ℕ) (s t : System)
    → n < max_int64
    → Step s t
    → Inv th rt n s
    → Inv th rt (suc n) t
unfolding admit settle
Step-Inv th rt n s t small (enter now e p) v = ground arith
Step-Inv th rt n s t small (refuse now e p) v = ground arith
Step-Inv th rt n s t small (leave now err b p) v = ground arith

-- However calls of Do interleave, after any n <= 2^63 - 1 critical sections on a new breaker its
-- settings are unchanged, the failures and the calls in flight together are at most n, a breaker
-- that is open or half-open has counted at least the threshold of failures, and a closed one has
-- counted none or fewer than the threshold.
pub Reach-Inv :
    (threshold timeout : ℤ) (n : ℕ) (s : System)
    → n ≤ max_int64
    → Reach (start threshold timeout) n s
    → Inv threshold timeout n s
Reach-Inv th rt zero s small here = start-Inv th rt
Reach-Inv th rt (suc n) s small (next {t = t} r st) =
    Step-Inv th rt n t s (omega arith) st (Reach-Inv th rt n t (omega arith) r)

-- Callers that arrive one after another, none of whose functions has returned yet.
unfoldable pub arrivals : Breaker → List ℕ → List Bool × Breaker
arrivals cb [] = ([], cb)
arrivals cb (now ∷ later) =
    let (cb', admitted) = admit cb now in
    let (rest, last) = arrivals cb' later in (admitted ∷ rest, last)

arrivals-half_open :
    (cb : Breaker) (times : List ℕ)
    → cb.state ≡ half_open
    → arrivals cb times ≡ (map (λ _. true) times, cb)
unfolding arrivals admit
arrivals-half_open cb [] h = refl
arrivals-half_open cb (now ∷ later) h = ground (arith, arrivals-half_open cb later h)

-- When the reset timeout of an open breaker has passed at the first arrival, that caller and every
-- caller after it are let in, as many as come before one of their functions returns: half-open does
-- not limit the trial calls.
pub half_open_admits_all :
    (cb : Breaker) (now : ℕ) (later : List ℕ)
    → cb.state ≡ opened
    → cb.reset_timeout ≤ℤ since now cb.opened_at
    → (arrivals cb (now ∷ later)).0 ≡ map (λ _. true) (now ∷ later)
unfolding arrivals admit
half_open_admits_all cb now later h elapsed =
    ground (arith, arrivals-half_open (record cb { state = half_open }) later refl)
