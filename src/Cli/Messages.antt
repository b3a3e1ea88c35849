-- ===== src/Cli/Messages.antt =====
-- The made-up messages against the handlers that read them.
use backend_assessment.Prelude.{
  ℕ, zero, suc, ◌<◌, ◌≡◌, ◌≢◌, none, some, String, List, [], ◌∷◌, arith, length, refl,
}
use backend_assessment.Prelude.Dict.{Dict, lookup, insert}
use backend_assessment.MessageProcessor.{
  Value, other, GatewayMessage, Kind, heartbeat, app_status, metrics, alert, deployment, unknown,
  kind_of, Statement, Services, process_message,
}
use backend_assessment.MessageProcessor.Statements.{
  IsComplete, Logs, Effect, executed, skipped, process_message-Effect,
}
use backend_assessment.MessageProcessor.Required.{Answers}
use backend_assessment.Cli.{Sources, get, message_types, pick, payload_of, random_gateway_message}

known_type : (i : ℕ) → i < length message_types → kind_of (get message_types i) ≢ unknown
unfolding get kind_of
known_type zero h = λ e. ground (arith, e)
known_type (suc zero) h = λ e. ground (arith, e)
known_type (suc (suc zero)) h = λ e. ground (arith, e)
known_type (suc (suc (suc zero))) h = λ e. ground (arith, e)
known_type (suc (suc (suc (suc zero)))) h = λ e. ground (arith, e)
known_type (suc (suc (suc (suc (suc i))))) h = absurd (omega arith)

abbrev message_of : String → String → ℕ → Dict Value → GatewayMessage
message_of id message_type time payload = record {
  gateway_id = id;
  message_type = message_type;
  timestamp = time;
  payload = payload;
}

module _ {W V C : Type 0} (sources : Sources W) (sv : Services V C) (log : V → List Statement) where
  payload-IsComplete :
      (k : Kind) (w : W) (id message_type : String) (time : ℕ)
      → k ≢ unknown
      → ((cpu mem : ℕ) → sv.marshal (insert "mem" (other mem) (insert "cpu" (other cpu) [])) ≢ none)
      → IsComplete sv log k (message_of id message_type time (payload_of sources k w).0)
  unfolding payload_of lookup insert
  payload-IsComplete heartbeat w id message_type time known marshals = tt
  payload-IsComplete app_status w id message_type time known marshals =
      (λ e. ground (arith, e), (λ e. ground (arith, e), tt))
  payload-IsComplete metrics w id message_type time known marshals = marshals _ _
  payload-IsComplete alert w id message_type time known marshals = (λ e. ground (arith, e), tt)
  payload-IsComplete deployment w id message_type time known marshals =
      (λ e. ground (arith, e), (λ e. ground (arith, e), tt))
  payload-IsComplete unknown w id message_type time known marshals = absurd (known refl)

  answered :
      (k : Kind) (msg : GatewayMessage) (before after : List Statement)
      → IsComplete sv log k msg
      → Effect sv log k msg before after
      → (s : Statement) × Answers k msg s × (after ≡ s ∷ before)
  answered k msg before after complete (executed s c answers e) = (s, answers, e)
  answered k msg before after complete (skipped incomplete e) = absurd (incomplete complete)

  -- Every message that the load generator makes up is of a known type and complete for the handler
  -- of its type: when a worker processes it and a connection is to be had, exactly one statement is
  -- executed, and it is the one that the message asks for. Taken for granted is that the index drawn
  -- is in range, and that a payload of two numbers can be encoded.
  pub random_gateway_message-Answers :
      (gateway_ids : List String) (w : W) (v : V) (conn : C)
      → ((n : ℕ) (u : W) → 0 < n → (sources.intn n u).0 < n)
      → ((cpu mem : ℕ) → sv.marshal (insert "mem" (other mem) (insert "cpu" (other cpu) [])) ≢ none)
      → Logs sv log
      → (sv.acquire v).0 ≡ some conn
      → let msg = (random_gateway_message sources gateway_ids w).0 in
        (kind_of msg.message_type ≢ unknown)
        × ((s : Statement) × Answers (kind_of msg.message_type) msg s
            × (log (process_message sv msg v) ≡ s ∷ log v))
  unfolding random_gateway_message pick
  random_gateway_message-Answers gateway_ids w v conn below marshals logs got =
      let msg = (random_gateway_message sources gateway_ids w).0 in
      let known = known_type (sources.intn 5 w).0 (below 5 w (omega arith)) in
      (
        known,
        answered (kind_of msg.message_type) msg (log v) (log (process_message sv msg v))
            (payload-IsComplete (kind_of msg.message_type) _ _ _ _ known marshals)
            (process_message-Effect sv log msg v conn logs got),
      )
