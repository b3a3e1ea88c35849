-- ===== src/Cli.antt =====
-- cmd/cli/worker_load.go: the messages that `runWorkerLoadImpl` makes up for a worker, and one tick
-- of its producer with the worker idle. The generators of random numbers, the clock and the time
-- format are parameters. `rndID` and `randomString`, which nothing calls, are left out.
pub mod Messages
pub mod Producer
pub mod Run
pub mod Command
use backend_assessment.Prelude.{
  ℕ, zero, suc, ◌+◌, ◌-◌, ◌*◌, ◌/◌, ◌%◌, Option, none, some, String, List, [], ◌∷◌, ◌++◌, ℤ, pos,
  pos_part, ltb_ℤ, length, if◌then◌else◌,
}
use backend_assessment.Prelude.Dict.{Dict, insert}
use Prim.Native.Nat.{bit_and, bit_or}
use Prim.Native.String.{◌++◌ as text_append}
use backend_assessment.MessageProcessor.{
  Value, text, other, GatewayMessage, Kind, heartbeat, app_status, metrics, alert, deployment,
  unknown, kind_of,
}
use backend_assessment.MessageProcessor.Queue.{Worker, enqueue_message}

-- `intn n` is below n. `percent` is a float below 100, which the model only passes on; `crypto n`
-- gives n bytes or fails.
pub record Sources (W : Type 0) : Type 0 where
  pub intn : ℕ → W → ℕ × W
  pub percent : W → ℕ × W
  pub crypto : ℕ → W → Option (List ℕ) × W
  pub now : W → ℕ × W
  pub format_time : ℕ → String

-- An index out of range panics. It does not occur: `runWorkerLoadImpl` gives up if there are no
-- gateways.
unfoldable pub get : List String → ℕ → String
get [] i = ""
get (s ∷ rest) zero = s
get (s ∷ rest) (suc i) = get rest i

abbrev pub message_types : List String
message_types = "heartbeat" ∷ "app_status" ∷ "metrics" ∷ "alert" ∷ "deployment" ∷ []

abbrev pub app_states : List String
app_states = "running" ∷ "stopped" ∷ "crashed" ∷ []

abbrev pub severities : List String
severities = "info" ∷ "warning" ∷ "critical" ∷ []

abbrev pub deployment_states : List String
deployment_states = "pending" ∷ "in_progress" ∷ "completed" ∷ "failed" ∷ []

-- `hex.Encode`
abbrev pub digits : List String
digits =
    "0" ∷ "1" ∷ "2" ∷ "3" ∷ "4" ∷ "5" ∷ "6" ∷ "7" ∷ "8" ∷ "9" ∷ "a" ∷ "b" ∷ "c" ∷ "d" ∷ "e" ∷ "f"
    ∷ []

unfoldable pub hex : List ℕ → String
hex [] = ""
hex (b ∷ rest) = text_append (get digits (b / 16)) (text_append (get digits (b % 16)) (hex rest))

-- `b[start:stop]`, by where it starts and how long it is.
unfoldable pub slice : ℕ → ℕ → List ℕ → List ℕ
slice start size [] = []
slice zero zero (b ∷ rest) = []
slice zero (suc size) (b ∷ rest) = b ∷ slice zero size rest
slice (suc start) size (b ∷ rest) = slice start size rest

unfoldable pub change : ℕ → (ℕ → ℕ) → List ℕ → List ℕ
change i f [] = []
change zero f (b ∷ rest) = f b ∷ rest
change (suc i) f (b ∷ rest) = b ∷ change i f rest

-- `b[6] = (b[6] & 0x0f) | 0x40` and `b[8] = (b[8] & 0x3f) | 0x80`
unfoldable pub stamp : List ℕ → List ℕ
unfolding change
stamp b =
    change 8 (λ x. bit_or (bit_and x 0x3f) 0x80) (change 6 (λ x. bit_or (bit_and x 0x0f) 0x40) b)

unfoldable pub layout : List ℕ → String
unfolding hex slice
layout b = text_append (hex (slice 0 4 b)) (
    text_append "-" (
      text_append (hex (slice 4 2 b)) (
        text_append "-" (
          text_append (hex (slice 6 2 b)) (
            text_append "-"
              (text_append (hex (slice 8 2 b)) (text_append "-" (hex (slice 10 6 b)))))))))

-- The loop of `fetchGatewayIDs`: the first row that does not scan is an error.
unfoldable pub fetch_ids : List (Option String) → Option (List String)
fetch_ids [] = some []
fetch_ids (none ∷ rows) = none
fetch_ids (some id ∷ rows) = elim (fetch_ids rows) [ none ↦ none | some ids ↦ some (id ∷ ids) ]

-- `max`
unfoldable pub max : ℤ → ℤ → ℤ
max a b = if ltb_ℤ b a then a else b

-- The worker that is under load, and the count for the report at the end.
pub record Load : Type 0 where
  pub worker : Worker
  pub produced : ℕ

module _ {W : Type 0} (sources : Sources W) where
  -- An element at a random index.
  unfoldable pub pick : List String → W → String × W
  unfolding get
  pick options w = let (i, w') = sources.intn (length options) w in (get options i, w')

  -- The fallback of `generateUUIDv4`.
  unfoldable pub fill : ℕ → W → List ℕ × W
  fill zero w = ([], w)
  fill (suc n) w = let (b, w₁) = sources.intn 256 w in let (rest, w₂) = fill n w₁ in (b ∷ rest, w₂)

  unfoldable pub or_fill : Option (List ℕ) × W → List ℕ × W
  unfolding fill
  or_fill (some b, w) = (b, w)
  or_fill (none, w) = fill 16 w

  unfoldable pub generate_uuid_v4 : W → String × W
  unfolding or_fill stamp layout
  generate_uuid_v4 w = let (b, w') = or_fill (sources.crypto 16 w) in (layout (stamp b), w')

  -- The `switch` of `randomGatewayMessage`.
  unfoldable pub payload_of : Kind → W → Dict Value × W
  payload_of heartbeat w =
      let (time, w₁) = sources.now w in
      let (ago, w₂) = sources.intn 600 w₁ in
      (insert "last_seen" (text (sources.format_time (time - ago * 1000000000))) [], w₂)
  payload_of app_status w =
      let (app_id, w₁) = generate_uuid_v4 w in
      let (status, w₂) = pick app_states w₁ in
      (insert "status" (text status) (insert "app_id" (text app_id) []), w₂)
  payload_of metrics w =
      let (cpu, w₁) = sources.percent w in
      let (mem, w₂) = sources.percent w₁ in
      (insert "mem" (other mem) (insert "cpu" (other cpu) []), w₂)
  payload_of alert w =
      let (severity, w') = pick severities w in
      (insert "message" (text "synthetic alert") (insert "severity" (text severity) []), w')
  payload_of deployment w =
      let (deployment_id, w₁) = generate_uuid_v4 w in
      let (status, w₂) = pick deployment_states w₁ in
      (insert "status" (text status) (insert "deployment_id" (text deployment_id) []), w₂)
  payload_of unknown w = ([], w)

  unfoldable pub random_gateway_message : List String → W → GatewayMessage × W
  unfolding payload_of pick
  random_gateway_message gateway_ids w =
      let (message_type, w₁) = pick message_types w in
      let (payload, w₂) = payload_of (kind_of message_type) w₁ in
      let (gateway_id, w₃) = pick gateway_ids w₂ in
      let (time, w₄) = sources.now w₃ in
      (
        record {
          gateway_id = gateway_id;
          message_type = message_type;
          timestamp = time;
          payload = payload;
        },
        w₄,
      )

  -- The loop of one tick. What a full queue refuses is lost, and counted as produced too.
  unfoldable pub produce : List String → ℕ → Load → W → Load × W
  produce gateway_ids zero load w = (load, w)
  produce gateway_ids (suc n) load w =
      let (msg, w') = random_gateway_message gateway_ids w in
      produce gateway_ids n
        (record { worker = (enqueue_message load.worker msg).0; produced = load.produced + 1 }) w'

  unfoldable pub tick : List String → ℤ → Load → W → Load × W
  unfolding produce max
  tick gateway_ids rate load w = produce gateway_ids (pos_part (max (pos 1) rate)) load w
