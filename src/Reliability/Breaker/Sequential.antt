-- ===== src/Reliability/Breaker/Sequential.antt =====
-- Calls of `Do` one after another, against a specification that keeps only the number of failures
-- since the last success and the time of the last failure.
use backend_assessment.Prelude.{
  ℕ, ◌+◌, ◌≤◌, ◌<◌, ◌≡◌, Bool, true, false, not, ◌&&◌, Option, none, some, List, [], ◌∷◌, ℤ, pos,
  leb_ℤ, since, max_int64, if◌then◌else◌, ltb, length, arith,
}
use backend_assessment.Reliability.Breaker.{
  closed, opened, Error, err_open, Breaker, new_breaker, call,
}

-- A call of `Do` as the caller schedules it: when it starts, what `fn` returns if it runs, and when
-- `fn` returns.
pub record Call : Type 0 where
  pub start : ℕ
  pub outcome : Option Error
  pub finish : ℕ

-- The clock of a call: `false` before `fn` has run, `true` after.
abbrev pub clock_of : Call → Bool → ℕ
clock_of c ran = if ran then c.finish else c.start

abbrev pub fn_of : Call → Bool → Option Error × Bool
fn_of c ran = (c.outcome, true)

-- What the caller sees: the result, and whether `fn` ran.
abbrev pub Seen : Type 0
Seen = Option Error × Bool

unfoldable pub run : Breaker → List Call → List Seen × Breaker
unfolding call
run cb [] = ([], cb)
run cb (c ∷ cs) =
    let (err, cb', ran) = call (clock_of c) (fn_of c) cb false in
    let (rest, last) = run cb' cs in ((err, ran) ∷ rest, last)

-- The specification.
pub record Spec : Type 0 where
  pub streak : ℕ
  pub failed_at : ℕ

abbrev pub is_open : ℤ → Spec → Bool
is_open threshold s = ltb 0 s.streak && leb_ℤ threshold (pos s.streak)

abbrev pub blocks : ℤ → ℤ → Spec → ℕ → Bool
blocks threshold timeout s now = is_open threshold s && not (leb_ℤ timeout (since now s.failed_at))

abbrev pub observe : Spec → Call → Option Error → Spec
observe s c none = record s { streak = 0 }
observe s c (some e) = record s { streak = s.streak + 1; failed_at = c.finish }

abbrev pub spec_step : ℤ → ℤ → Spec → Call → Seen × Spec
spec_step threshold timeout s c =
    if blocks threshold timeout s c.start
    then ((some err_open, false), s)
    else ((c.outcome, true), observe s c c.outcome)

unfoldable pub spec_run : ℤ → ℤ → Spec → List Call → List Seen × Spec
spec_run threshold timeout s [] = ([], s)
spec_run threshold timeout s (c ∷ cs) =
    let (seen, s') = spec_step threshold timeout s c in
    let (rest, last) = spec_run threshold timeout s' cs in (seen ∷ rest, last)

-- A breaker between two calls, as the specification sees it; it is never half-open then.
pub record Represents (threshold timeout : ℤ) (cb : Breaker) (s : Spec) : Type 0 where
  pub same_threshold : cb.failure_threshold ≡ threshold
  pub same_timeout : cb.reset_timeout ≡ timeout
  pub counts : cb.failures ≡ pos s.streak
  pub same_state : cb.state ≡ (if is_open threshold s then opened else closed)
  pub since_failure : is_open threshold s ≡ true → cb.opened_at ≡ s.failed_at

call-Represents :
    (th rt : ℤ) (cb : Breaker) (s : Spec) (c : Call)
    → s.streak < max_int64
    → Represents th rt cb s
    → let (err, cb', ran) = call (clock_of c) (fn_of c) cb false in
      ((err, ran) ≡ (spec_step th rt s c).0) × Represents th rt cb' (spec_step th rt s c).1
unfolding call
call-Represents th rt cb s c small r = ground arith

streak-spec_step : (th rt : ℤ) (s : Spec) (c : Call) → (spec_step th rt s c).1.streak ≤ s.streak + 1
streak-spec_step th rt s c = ground arith

abbrev pub fresh : Spec
fresh = record { streak = 0; failed_at = 0 }

new-Represents : (th rt : ℤ) → Represents th rt (new_breaker th rt) fresh
unfolding new_breaker
new-Represents th rt = ground arith

run-Represents :
    (th rt : ℤ) (cs : List Call) (cb : Breaker) (s : Spec)
    → s.streak + length cs ≤ max_int64
    → Represents th rt cb s
    → ((run cb cs).0 ≡ (spec_run th rt s cs).0)
      × Represents th rt (run cb cs).1 (spec_run th rt s cs).1
unfolding run spec_run
run-Represents th rt [] cb s small r = (ground arith, r)
run-Represents th rt (c ∷ cs) cb s small r =
    let (err, cb', ran) = call (clock_of c) (fn_of c) cb false in
    let s' = (spec_step th rt s c).1 in
    let (same, r') = call-Represents th rt cb s c (omega arith) r in
    let (ih, last) =
      run-Represents th rt cs cb' s' (omega (arith, streak-spec_step th rt s c)) r' in
    (cc (same, ih), last)

-- A new breaker that is called one call at a time, at most 2^63 - 1 times, shows every caller what
-- the specification shows: a call is refused with ErrOpen, and its function not run, exactly while
-- at least the threshold of calls (and at least one) have failed since the last success and less
-- than the reset timeout has passed since the last failure; any other call runs its function and
-- returns its result. Afterwards the failure count is the streak, and the breaker is open if the
-- streak has reached the threshold and closed otherwise, never half-open.
pub run-refines :
    (threshold timeout : ℤ) (cs : List Call)
    → length cs ≤ max_int64
    → ((run (new_breaker threshold timeout) cs).0 ≡ (spec_run threshold timeout fresh cs).0)
      × Represents threshold timeout
          (run (new_breaker threshold timeout) cs).1
          (spec_run threshold timeout fresh cs).1
run-refines th rt cs small =
    run-Represents th rt cs (new_breaker th rt) fresh (omega arith) (new-Represents th rt)
