-- ===== src/MessageProcessor/Leaks.antt =====
-- No handler keeps a connection, on any path.
use backend_assessment.Prelude.{ℕ, ◌≡◌, refl, ◌∙◌, Option, none, some, List, ◌∷◌, arith}
use backend_assessment.MessageProcessor.{
  GatewayMessage, Kind, heartbeat, app_status, metrics, alert, deployment, unknown, kind_of,
  Statement, Services, with_connection, release_after, heartbeat_status, process_heartbeat,
  process_app_status, process_metrics, process_alert, process_deployment, dispatch, process_message,
}

module _ {W C : Type 0} (sv : Services W C) (held : W → List C) where
  -- The connections that are acquired and not released, the newest first.
  pub record Tracks : Type 0 where
    pub by_acquire :
        (w : W) (conn : C) → (sv.acquire w).0 ≡ some conn → held (sv.acquire w).1 ≡ conn ∷ held w
    pub by_failure : (w : W) → (sv.acquire w).0 ≡ none → held (sv.acquire w).1 ≡ held w
    pub by_exec : (conn : C) (s : Statement) (w : W) → held (sv.exec conn s w).1 ≡ held w
    pub by_now : (w : W) → held (sv.now w).1 ≡ held w
    pub by_release :
        (conn : C) (w : W) (rest : List C) → held w ≡ conn ∷ rest → held (sv.release conn w) ≡ rest

  release_after-held :
      (body : C → W → W) (r : Option C × W) (before : List C)
      → Tracks
      → ((conn : C) (w : W) → held (body conn w) ≡ held w)
      → ((conn : C) → r.0 ≡ some conn → held r.1 ≡ conn ∷ before)
      → (r.0 ≡ none → held r.1 ≡ before)
      → held (release_after sv body r) ≡ before
  unfolding release_after
  release_after-held body (none, w) before t quiet taken failed = failed refl
  release_after-held body (some conn, w) before t quiet taken failed =
      t.by_release conn (body conn w) before (quiet conn w ∙ taken conn refl)

  with_connection-held :
      (body : C → W → W) (w : W)
      → Tracks
      → ((conn : C) (v : W) → held (body conn v) ≡ held v)
      → held (with_connection sv body w) ≡ held w
  unfolding with_connection
  with_connection-held body w t quiet =
      release_after-held body (sv.acquire w) (held w) t quiet (t.by_acquire w) (t.by_failure w)

  heartbeat_status-held :
      (last_seen : Option ℕ) (w : W) → Tracks → held (heartbeat_status sv last_seen w).1 ≡ held w
  unfolding heartbeat_status
  heartbeat_status-held none w t = refl
  heartbeat_status-held (some last_seen) w t = t.by_now w

  process_heartbeat-held :
      (msg : GatewayMessage) (conn : C) (w : W)
      → Tracks
      → held (process_heartbeat sv msg conn w) ≡ held w
  unfolding process_heartbeat
  process_heartbeat-held msg conn w t = t.by_exec conn _ _ ∙ heartbeat_status-held _ w t

  process_app_status-held :
      (msg : GatewayMessage) (conn : C) (w : W)
      → Tracks
      → held (process_app_status sv msg conn w) ≡ held w
  unfolding process_app_status
  process_app_status-held msg conn w t = grind (arith, t.by_exec)

  process_metrics-held :
      (msg : GatewayMessage) (conn : C) (w : W)
      → Tracks
      → held (process_metrics sv msg conn w) ≡ held w
  unfolding process_metrics
  process_metrics-held msg conn w t = grind (arith, t.by_exec)

  process_alert-held :
      (msg : GatewayMessage) (conn : C) (w : W)
      → Tracks
      → held (process_alert sv msg conn w) ≡ held w
  unfolding process_alert
  process_alert-held msg conn w t = grind (arith, t.by_exec)

  process_deployment-held :
      (msg : GatewayMessage) (conn : C) (w : W)
      → Tracks
      → held (process_deployment sv msg conn w) ≡ held w
  unfolding process_deployment
  process_deployment-held msg conn w t = grind (arith, t.by_exec)

  dispatch-held :
      (k : Kind) (msg : GatewayMessage) (w : W) → Tracks → held (dispatch sv k msg w) ≡ held w
  unfolding dispatch
  dispatch-held heartbeat msg w t =
      with_connection-held _ w t (λ c v. process_heartbeat-held msg c v t)
  dispatch-held app_status msg w t =
      with_connection-held _ w t (λ c v. process_app_status-held msg c v t)
  dispatch-held metrics msg w t = with_connection-held _ w t (λ c v. process_metrics-held msg c v t)
  dispatch-held alert msg w t = with_connection-held _ w t (λ c v. process_alert-held msg c v t)
  dispatch-held deployment msg w t =
      with_connection-held _ w t (λ c v. process_deployment-held msg c v t)
  dispatch-held unknown msg w t = refl

  -- Whatever the message, whether or not a connection was to be had, a field was missing or the
  -- statement failed: after processMessage exactly the connections are held that were held before.
  pub process_message-held :
      (msg : GatewayMessage) (w : W) → Tracks → held (process_message sv msg w) ≡ held w
  unfolding process_message
  process_message-held msg w t = dispatch-held (kind_of msg.message_type) msg w t
