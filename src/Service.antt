-- ===== src/Service.antt =====
-- pkg/service/telemetry.go: the gRPC handlers that turn a request into an event and submit it to the
-- processor of its kind. `json.Unmarshal` of the token's claims is a parameter, and so is the clock;
-- the token, config and refresh repositories are only stored by the source, and are left out.
pub mod Base64
pub mod Identity
pub mod Handlers
mod Tests
use extend_game_telemetry_co.Prelude.{
  ℕ, Bool, true, false, Option, none, some, List, [], ◌∷◌, Text, codes, is_empty, split,
  trim_prefix, if◌then◌else◌,
}
use extend_game_telemetry_co.Prelude.Int.{ℤ}
use extend_game_telemetry_co.Prelude.Result.{Result, ok, err, ◌>>=◌}
use extend_game_telemetry_co.Events.Gameplay.{CreateGameplayTelemetryRequest, GameplayEvent}
use extend_game_telemetry_co.Events.Performance.{
  CreatePerformanceTelemetryRequest, PerformanceEvent,
}
use extend_game_telemetry_co.Events.UserBehavior.{
  CreateUserBehaviorTelemetryRequest, UserBehaviorEvent,
}
use extend_game_telemetry_co.Processor.{
  Processor, Progress, moved, queued, returned, blocked, panicked, submit,
}
use extend_game_telemetry_co.Service.Base64.{decode_string, pad}

-- The gRPC codes that the handlers return, and `status.Error`.
pub data Code : Type 0 where
  invalid_argument unauthenticated internal : Code

pub record Status : Type 0 where
  pub code : Code
  pub message : Text

abbrev pub status_error : {A : Type 0} → Code → Text → Result Status A
status_error code message = err (record { code = code; message = message })

-- What a call carries: `md.Get` of its metadata, and the address of its peer.
pub record CallContext : Type 0 where
  pub metadata : Option (Text → List Text)
  pub peer : Option Text

-- The `sub` and `user_id` members of a token's payload.
pub record Claims : Type 0 where
  pub sub : Text
  pub user_id : Text

-- `claims.Sub`, else `claims.UserID`.
unfoldable pub user_of : Claims → Result Status Text
user_of claims =
    let user_id = if is_empty claims.sub then claims.user_id else claims.sub in
    if is_empty user_id
    then status_error unauthenticated (codes "user ID not found in token")
    else ok user_id

abbrev pub unmarshal_claims : (List ℕ → Option Claims) → List ℕ → Result Status Text
unmarshal_claims unmarshal raw = elim (unmarshal raw) [
  | none ↦ status_error unauthenticated (codes "malformed JWT claims")
  | some claims ↦ user_of claims
]

-- The second of the three parts of a token, decoded.
unfoldable pub user_of_parts : (List ℕ → Option Claims) → List Text → Result Status Text
user_of_parts unmarshal (header ∷ payload ∷ signature ∷ []) = elim (decode_string (pad payload)) [
  | none ↦ status_error unauthenticated (codes "malformed JWT payload")
  | some raw ↦ unmarshal_claims unmarshal raw
]
user_of_parts unmarshal _ = status_error unauthenticated (codes "malformed JWT")

abbrev user_of_header : (List ℕ → Option Claims) → List Text → Result Status Text
user_of_header unmarshal [] = status_error unauthenticated (codes "missing authorization header")
user_of_header unmarshal (v ∷ vals) =
    user_of_parts unmarshal (split b'.' (trim_prefix v (codes "Bearer ")))

unfoldable pub extract_user_id : (List ℕ → Option Claims) → CallContext → Result Status Text
extract_user_id unmarshal ctx = elim (ctx.metadata) [
  | none ↦ status_error unauthenticated (codes "missing metadata")
  | some get ↦ user_of_header unmarshal (get (codes "authorization"))
]

abbrev peer_address : Option Text → Text
peer_address none = codes "unknown"
peer_address (some address) = address

abbrev first_or : List Text → Text → Text
first_or [] other = other
first_or (x ∷ xs) other = x

unfoldable pub extract_source_ip : CallContext → Text
extract_source_ip ctx = elim (ctx.metadata) [
  | none ↦ peer_address ctx.peer
  | some get ↦ first_or (get (codes "x-forwarded-for")) (peer_address ctx.peer)
]

-- `TelemetryService`: the namespace and the three processors.
pub record TelemetryService (D S D' S' D'' S'' : Type 0) : Type 0 where
  pub namespace : Text
  pub user_behavior_proc : Processor D S UserBehaviorEvent
  pub gameplay_proc : Processor D' S' GameplayEvent
  pub performance_proc : Processor D'' S'' PerformanceEvent

-- What a call of a handler comes to: a reply, with the processor that it leaves, a caller that is
-- still inside `Submit`, or a panic.
pub data Reply (P : Type 0) : Type 0 where
  replied : Result Status (Unit {0}) → P → Reply P
  pending : Reply P
  crashed : Reply P

-- `if err := proc.Submit(event); err != nil { … }`, with nothing else running in between.
unfoldable pub reply_to_submit : {D S T : Type 0} → Progress D S T → Reply (Processor D S T)
reply_to_submit (moved _ _) = pending
reply_to_submit (queued p) = replied (ok tt) p
reply_to_submit (returned none p) = replied (ok tt) p
reply_to_submit (returned (some failure) p) =
    replied (status_error internal (codes "failed to process telemetry event")) p
reply_to_submit blocked = pending
reply_to_submit panicked = crashed

-- Submit an event, or reply with the error that there is in its place.
abbrev pub submit_result :
    {D S T : Type 0} → ℕ → Bool → Result Status T → Processor D S T → Reply (Processor D S T)
submit_result now prefer_done (err status) p = replied (err status) p
submit_result now prefer_done (ok event) p = reply_to_submit (submit now prefer_done event p)

-- The two guards of a request: its event id, and the message that its kind needs.
abbrev pub require : {A : Type 0} → Text → Option A → Text → Result Status (Unit {0})
require event_id part message =
    if is_empty event_id
    then status_error invalid_argument (codes "event_id is required")
    else elim part [ none ↦ status_error invalid_argument message | some _ ↦ ok tt ]

module _ (unmarshal : List ℕ → Option Claims) where
  -- The event that each handler builds, or its error. `now_ms` is `time.Now().UnixMilli()`.
  unfoldable pub user_behavior_event :
      Text → ℤ → CallContext → CreateUserBehaviorTelemetryRequest → Result Status UserBehaviorEvent
  user_behavior_event namespace now_ms ctx req =
      require req.event_id req.user (codes "user is required") >>= λ _.
      extract_user_id unmarshal ctx >>= λ user_id. ok (record {
        namespace = namespace;
        user_id = user_id;
        server_timestamp = now_ms;
        source_ip = extract_source_ip ctx;
        payload = some req;
      })

  unfoldable pub gameplay_event :
      Text → ℤ → CallContext → CreateGameplayTelemetryRequest → Result Status GameplayEvent
  gameplay_event namespace now_ms ctx req =
      require req.event_id req.game_data (codes "data is required") >>= λ _.
      extract_user_id unmarshal ctx >>= λ user_id. ok (record {
        namespace = namespace;
        user_id = user_id;
        server_timestamp = now_ms;
        source_ip = extract_source_ip ctx;
        payload = some req;
      })

  unfoldable pub performance_event :
      Text → ℤ → CallContext → CreatePerformanceTelemetryRequest → Result Status PerformanceEvent
  performance_event namespace now_ms ctx req =
      require req.event_id req.metrics (codes "metrics is required") >>= λ _.
      extract_user_id unmarshal ctx >>= λ user_id. ok (record {
        namespace = namespace;
        user_id = user_id;
        server_timestamp = now_ms;
        source_ip = extract_source_ip ctx;
        payload = some req;
      })

  -- The handlers. `now` is the deduplicator's clock.
  module _ {D S D' S' D'' S'' : Type 0} (now : ℕ) (now_ms : ℤ) (prefer_done : Bool)
      (ctx : CallContext) where
    unfoldable pub create_user_behavior_telemetry :
        CreateUserBehaviorTelemetryRequest
        → TelemetryService D S D' S' D'' S''
        → Reply (Processor D S UserBehaviorEvent)
    create_user_behavior_telemetry req s =
        submit_result now prefer_done (user_behavior_event s.namespace now_ms ctx req)
          s.user_behavior_proc

    unfoldable pub create_gameplay_telemetry :
        CreateGameplayTelemetryRequest
        → TelemetryService D S D' S' D'' S''
        → Reply (Processor D' S' GameplayEvent)
    create_gameplay_telemetry req s =
        submit_result now prefer_done (gameplay_event s.namespace now_ms ctx req) s.gameplay_proc

    unfoldable pub create_performance_telemetry :
        CreatePerformanceTelemetryRequest
        → TelemetryService D S D' S' D'' S''
        → Reply (Processor D'' S'' PerformanceEvent)
    create_performance_telemetry req s =
        submit_result now prefer_done (performance_event s.namespace now_ms ctx req)
          s.performance_proc
