-- ===== src/Reliability/Retry/Endings.antt =====
-- Why the loop of DoWithRetry ends.
use backend_assessment.Prelude.{ℕ, ◌<◌, ◌≡◌, Bool, true, false, Option, none, some}
use backend_assessment.Reliability.Breaker.{Error}
use backend_assessment.Reliability.Retry.{stops}

module _ (retriable : Option (Error → Bool)) where
  -- The result was an error that is tried again.
  abbrev pub Retried : Option Error → Type 0
  Retried o = (e : Error) × (o ≡ some e) × (stops retriable e ≡ false)

module _ (retriable : Option (Error → Bool)) (Cancels : Error → Type 0) where
  -- Why the loop ended with the result `err` after `count` of at most `max` attempts, the last of
  -- which gave `last`.
  pub data Ended (last : Option Error) (count max : ℕ) (err : Option Error) : Type 0 where
    succeeded : last ≡ none → err ≡ none → Ended last count max err
    refused :
        (e : Error)
        → last ≡ some e
        → stops retriable e ≡ true
        → err ≡ some e
        → Ended last count max err
    exhausted : Retried retriable last → count ≡ max → err ≡ last → Ended last count max err
    canceled :
        (c : Error)
        → Retried retriable last
        → count < max
        → Cancels c
        → err ≡ some c
        → Ended last count max err
