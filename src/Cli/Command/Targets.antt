-- ===== src/Cli/Command/Targets.antt =====
-- What a load leaves the database with, and that it comes to an end.
use backend_assessment.Prelude.{
  ℕ, zero, suc, ◌<◌, ◌≡◌, refl, ap, subst, ◌∙◌, Bool, Option, none, some, List, [], ◌∷◌, String, ℤ,
  pos, length, All, All-append, arith,
}
use backend_assessment.Floats.{Float64}
use backend_assessment.Process.{Exit, returned, exited}
use backend_assessment.Datastore.{
  Driver, Connection, connected, parse_failed, connect_failed, ping_failed,
}
use backend_assessment.Serve.{Tracing, Host}
use backend_assessment.Config.{Config}
use backend_assessment.MessageProcessor.{GatewayMessage, Services}
use backend_assessment.MessageProcessor.Queue.{process_all}
use backend_assessment.Cli.{Sources, get, pick, random_gateway_message}
use backend_assessment.Cli.Run.{here}
use backend_assessment.Cli.Run.Feeding.{Feeds-All}
use backend_assessment.Cli.Run.Report.{made, report_adds_up, run_can_report}
use backend_assessment.Cli.Command.{
  Flags, Ready, with_ids, with_tracing, with_connection, prepare, close_all, WorkerLoad, given_up,
  completed,
}

-- The message is one of a gateway of the list.
abbrev pub IsTarget : List String → GatewayMessage → Type 0
IsTarget ids msg = (i : ℕ) × (i < length ids) × (msg.gateway_id ≡ get ids i)

module _ {W V C : Type 0} (sv : Services V C) (sources : Sources W) (ids : List String)
    (rate : ℤ) where
  made-IsTarget :
      ((n : ℕ) (u : W) → 0 < n → (sources.intn n u).0 < n)
      → 0 < length ids
      → (n : ℕ) (w : W) → All (IsTarget ids) (made sv sources ids rate n w).0
  unfolding random_gateway_message pick
  made-IsTarget below some_ids zero w = tt
  made-IsTarget below some_ids (suc n) w =
      All-append (IsTarget ids) (made sv sources ids rate n w).0 _
        (made-IsTarget below some_ids n w) ((_, below (length ids) _ some_ids, refl), tt)

abbrev ids_length : {P : Type 0} → Option (Ready P) → ℕ
ids_length none = 0
ids_length (some ready) = length ready.gateway_ids

with_ids-length :
    {P : Type 0} (pool : P) (tracing : Tracing) (fetched : Option (List String)) (ready : Ready P)
    → with_ids pool tracing fetched ≡ some ready
    → 0 < length ready.gateway_ids
unfolding with_ids
with_ids-length pool tracing none ready e = absurd (ground (arith, e))
with_ids-length pool tracing (some []) ready e = absurd (ground (arith, e))
with_ids-length pool tracing (some (id ∷ ids)) ready e =
    subst (λ n. 0 < n) (ap ids_length e) (omega arith)

module _ {V Conf P C : Type 0} (fl : Float64) (atoi : String → Option ℤ)
    (parse_bool : String → Option Bool) (driver : Driver V Conf P C) (host : Host fl V)
    (query_ids : P → V → Option (List (Option String)) × V) where
  with_tracing-length :
      (pool : P) (r : Option Tracing × V) (ready : Ready P)
      → (with_tracing fl atoi parse_bool driver host query_ids pool r).0 ≡ some ready
      → 0 < length ready.gateway_ids
  unfolding with_tracing
  with_tracing-length pool (none, v) ready e = absurd (ground (arith, e))
  with_tracing-length pool (some tracing, v) ready e = with_ids-length pool tracing _ ready e

  with_connection-length :
      (cfg : Config) (r : Connection P × V) (ready : Ready P)
      → (with_connection fl atoi parse_bool driver host query_ids cfg r).0 ≡ some ready
      → 0 < length ready.gateway_ids
  unfolding with_connection
  with_connection-length cfg (connected pool, v) ready e = with_tracing-length pool _ ready e
  with_connection-length cfg (parse_failed, v) ready e = absurd (ground (arith, e))
  with_connection-length cfg (connect_failed, v) ready e = absurd (ground (arith, e))
  with_connection-length cfg (ping_failed, v) ready e = absurd (ground (arith, e))

  prepare-length :
      (getenv : String → String) (v : V) (ready : Ready P)
      → (prepare fl atoi parse_bool driver host query_ids getenv v).0 ≡ some ready
      → 0 < length ready.gateway_ids
  unfolding prepare
  prepare-length getenv v ready e = with_connection-length _ _ ready e

  module _ {W : Type 0} (services : P → Services V C) (sources : Sources W) where
    -- When `worker-load` comes to its end, it had connected and found gateways, and what it leaves
    -- to the database is this, the deferred calls last: some messages processed one after another,
    -- each for one of the gateways that were found. Taken for granted is that a random index is in
    -- range.
    pub WorkerLoad-Targets :
        (getenv : String → String) (flags : Flags) (v : V) (w : W) (v' : V)
        → ((n : ℕ) (u : W) → 0 < n → (sources.intn n u).0 < n)
        → WorkerLoad fl atoi parse_bool driver host query_ids services sources getenv flags v w
            returned v'
        → (ready : Ready P) × (v₁ : V) × (done : List GatewayMessage) × (prepare fl atoi parse_bool
              driver host query_ids getenv v
            ≡ (some ready, v₁))
          × All (IsTarget ready.gateway_ids) done
          × (v'
              ≡ close_all fl atoi parse_bool driver host query_ids ready
                  (process_all (services ready.pool) done v₁))
    WorkerLoad-Targets getenv flags v w v' below (given_up e ended same) =
        absurd (ground (arith, ended))
    WorkerLoad-Targets getenv flags v w v' below
          (completed ready v₁ size a produced left e queue r said ended same) =
        let (_, _, _, done, fed, effect) =
          report_adds_up (services ready.pool) sources ready.gateway_ids flags.rate_per_sec
            (suc size) w v₁ a produced left r said in
        let found = prepare-length getenv v ready (ap (λ p. p.0) e) in
        let all_made =
          made-IsTarget (services ready.pool) sources ready.gateway_ids flags.rate_per_sec below
            found produced w in
        (
          ready,
          v₁,
          done,
          e,
          (Feeds-All _ fed all_made).0,
          same ∙ ap (close_all fl atoi parse_bool driver host query_ids ready) effect,
        )

    abbrev Ends : (String → String) → Flags → V → W → Type 0
    Ends getenv flags v w =
        (exit : Exit) × (v' : V) × WorkerLoad fl atoi parse_bool driver host query_ids services
          sources getenv flags v w exit v'

    prepared-Ends :
        (getenv : String → String) (flags : Flags) (v : V) (w : W) (size : ℕ)
        (p : Option (Ready P) × V)
        → flags.queue_size ≡ pos (suc size)
        → prepare fl atoi parse_bool driver host query_ids getenv v ≡ p
        → Ends getenv flags v w
    prepared-Ends getenv flags v w size (none, v₁) queue e =
        (exited, _, given_up (ap (λ p. p.0) e) refl refl)
    prepared-Ends getenv flags v w size (some ready, v₁) queue e =
        let (b, r, produced, left, said) =
          run_can_report (services ready.pool) sources ready.gateway_ids flags.rate_per_sec
            (suc size) w v₁ _ here in
        (returned, _, completed ready v₁ size b produced left e queue r said refl refl)

    -- A load with room in its queue can come to an end from any state of the database.
    pub worker_load-Ends :
        (getenv : String → String) (flags : Flags) (v : V) (w : W) (size : ℕ)
        → flags.queue_size ≡ pos (suc size)
        → Ends getenv flags v w
    worker_load-Ends getenv flags v w size queue =
        prepared-Ends getenv flags v w size
          (prepare fl atoi parse_bool driver host query_ids getenv v) queue refl
