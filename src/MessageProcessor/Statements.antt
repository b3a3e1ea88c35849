-- ===== src/MessageProcessor/Statements.antt =====
-- Which statement a message leads to.
use backend_assessment.Prelude.{
  ℕ, ◌≡◌, ◌≢◌, refl, ◌∙◌, ap, subst, inl, inr, Option, none, some, List, ◌∷◌, All, Option-cases,
  arith,
}
use backend_assessment.Models.{health_text}
use backend_assessment.MessageProcessor.{
  GatewayMessage, Kind, heartbeat, app_status, metrics, alert, deployment, unknown, kind_of, field,
  Statement, touch_gateway, upsert_app_status, insert_metrics, insert_alert, update_deployment,
  Services, with_connection, release_after, heartbeat_status, process_heartbeat, process_app_status,
  process_metrics, process_alert, process_deployment, dispatch, process_message, parse_field,
  severity_of,
}
use backend_assessment.MessageProcessor.Required.{required, Answers}

module _ {W C : Type 0} (sv : Services W C) (log : W → List Statement) where
  -- The world keeps the executed statements, the newest first.
  pub record Logs : Type 0 where
    pub by_acquire : (w : W) → log (sv.acquire w).1 ≡ log w
    pub by_exec : (conn : C) (s : Statement) (w : W) → log (sv.exec conn s w).1 ≡ s ∷ log w
    pub by_now : (w : W) → log (sv.now w).1 ≡ log w
    pub by_release : (conn : C) (w : W) → log (sv.release conn w) ≡ log w

  -- A message that the handler of its kind carries out.
  abbrev pub IsComplete : Kind → GatewayMessage → Type 0
  IsComplete unknown msg = ⊥
  IsComplete metrics msg = sv.marshal msg.payload ≢ none
  IsComplete k msg = All (λ key. field msg key ≢ none) (required k)

  -- One more statement, which answers the message, exactly if the message is complete.
  pub data Effect (k : Kind) (msg : GatewayMessage) (before after : List Statement) : Type 0 where
    executed :
        (s : Statement)
        → IsComplete k msg
        → Answers k msg s
        → after ≡ s ∷ before
        → Effect k msg before after
    skipped : ¬ IsComplete k msg → after ≡ before → Effect k msg before after

  heartbeat_status-log :
      (last_seen : Option ℕ) (w : W) → Logs → log (heartbeat_status sv last_seen w).1 ≡ log w
  unfolding heartbeat_status
  heartbeat_status-log none w l = refl
  heartbeat_status-log (some last_seen) w l = l.by_now w

  process_heartbeat-Effect :
      (msg : GatewayMessage) (conn : C) (w : W)
      → Logs
      → Effect heartbeat msg (log w) (log (process_heartbeat sv msg conn w))
  unfolding process_heartbeat
  process_heartbeat-Effect msg conn w l =
      let (status, v) = heartbeat_status sv (parse_field sv (field msg "last_seen")) w in
      let s = touch_gateway msg.timestamp (health_text status) msg.gateway_id in
      executed s tt
        (record { same_kind = refl; same_gateway = refl; same_time = refl; fields_stored = refl })
        (l.by_exec conn s v
          ∙ ap (λ rest. s ∷ rest)
              (heartbeat_status-log (parse_field sv (field msg "last_seen")) w l))

  process_metrics-Effect :
      (msg : GatewayMessage) (conn : C) (w : W)
      → Logs
      → Effect metrics msg (log w) (log (process_metrics sv msg conn w))
  unfolding process_metrics
  process_metrics-Effect msg conn w l = elim (Option-cases (sv.marshal msg.payload)) [
    | inl e ↦ skipped (λ c. c e) (ground arith)
    | inr (json, e) ↦
        let s = insert_metrics msg.gateway_id json msg.timestamp in
        executed s (ground arith)
          (record { same_kind = refl; same_gateway = refl; same_time = refl; fields_stored = refl })
          (ground (arith, l.by_exec conn s w))
  ]

  process_alert-Effect :
      (msg : GatewayMessage) (conn : C) (w : W)
      → Logs
      → Effect alert msg (log w) (log (process_alert sv msg conn w))
  unfolding process_alert
  process_alert-Effect msg conn w l = elim (Option-cases (field msg "message")) [
    | inl e ↦ skipped (λ c. c.0 e) (ground arith)
    | inr (message, e) ↦
        let severity = severity_of sv (field msg "severity") in
        let s = insert_alert msg.gateway_id severity message msg.timestamp in
        executed s (ground arith)
          (record { same_kind = refl; same_gateway = refl; same_time = refl; fields_stored = cc })
          (ground (arith, l.by_exec conn s w))
  ]

  process_app_status-Effect :
      (msg : GatewayMessage) (conn : C) (w : W)
      → Logs
      → Effect app_status msg (log w) (log (process_app_status sv msg conn w))
  unfolding process_app_status
  process_app_status-Effect msg conn w l = elim (Option-cases (field msg "app_id")) [
    | inl e ↦ skipped (λ c. c.0 e) (ground arith)
    | inr (app_id, e) ↦ elim (Option-cases (field msg "status")) [
      | inl e' ↦ skipped (λ c. c.1.0 e') (ground arith)
      | inr (status, e') ↦
          let s = upsert_app_status msg.gateway_id app_id status msg.timestamp in
          executed s (ground arith)
            (record { same_kind = refl; same_gateway = refl; same_time = refl; fields_stored = cc })
            (ground (arith, l.by_exec conn s w))
    ]
  ]

  process_deployment-Effect :
      (msg : GatewayMessage) (conn : C) (w : W)
      → Logs
      → Effect deployment msg (log w) (log (process_deployment sv msg conn w))
  unfolding process_deployment
  process_deployment-Effect msg conn w l = elim (Option-cases (field msg "deployment_id")) [
    | inl e ↦ skipped (λ c. c.0 e) (ground arith)
    | inr (id, e) ↦ elim (Option-cases (field msg "status")) [
      | inl e' ↦ skipped (λ c. c.1.0 e') (ground arith)
      | inr (status, e') ↦
          let s = update_deployment status msg.timestamp id msg.gateway_id in
          executed s (ground arith)
            (record { same_kind = refl; same_gateway = refl; same_time = refl; fields_stored = cc })
            (ground (arith, l.by_exec conn s w))
    ]
  ]

  -- The release after the body leaves the effect of the body.
  with_connection-Effect :
      (k : Kind) (msg : GatewayMessage) (body : C → W → W) (w : W) (conn : C)
      → Logs
      → ((v : W) → Effect k msg (log v) (log (body conn v)))
      → (sv.acquire w).0 ≡ some conn
      → Effect k msg (log w) (log (with_connection sv body w))
  unfolding with_connection release_after
  with_connection-Effect k msg body w conn l effect got =
      subst (Effect k msg (log w)) (ground (arith, l.by_release conn (body conn (sv.acquire w).1)))
        (subst (λ before. Effect k msg before (log (body conn (sv.acquire w).1))) (l.by_acquire w)
          (effect (sv.acquire w).1))

  dispatch-Effect :
      (k : Kind) (msg : GatewayMessage) (w : W) (conn : C)
      → Logs
      → (sv.acquire w).0 ≡ some conn
      → Effect k msg (log w) (log (dispatch sv k msg w))
  unfolding dispatch
  dispatch-Effect heartbeat msg w conn l got =
      with_connection-Effect heartbeat msg _ w conn l (λ v. process_heartbeat-Effect msg conn v l)
        got
  dispatch-Effect app_status msg w conn l got =
      with_connection-Effect app_status msg _ w conn l (λ v. process_app_status-Effect msg conn v l)
        got
  dispatch-Effect metrics msg w conn l got =
      with_connection-Effect metrics msg _ w conn l (λ v. process_metrics-Effect msg conn v l) got
  dispatch-Effect alert msg w conn l got =
      with_connection-Effect alert msg _ w conn l (λ v. process_alert-Effect msg conn v l) got
  dispatch-Effect deployment msg w conn l got =
      with_connection-Effect deployment msg _ w conn l (λ v. process_deployment-Effect msg conn v l)
        got
  dispatch-Effect unknown msg w conn l got = skipped (λ c. c) refl

  -- A message of a known type for which a connection is to be had leads to exactly one statement if
  -- its payload holds all the fields that its type requires as texts (for metrics: if it can be
  -- encoded), and to none otherwise; a message of an unknown type leads to none. The statement is
  -- the one of the message's type, for its gateway and time, and stores the required fields.
  pub process_message-Effect :
      (msg : GatewayMessage) (w : W) (conn : C)
      → Logs
      → (sv.acquire w).0 ≡ some conn
      → Effect (kind_of msg.message_type) msg (log w) (log (process_message sv msg w))
  unfolding process_message
  process_message-Effect msg w conn l got =
      dispatch-Effect (kind_of msg.message_type) msg w conn l got
