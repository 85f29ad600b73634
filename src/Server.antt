-- ===== src/Server.antt =====
-- internal/server/grpc.go: the gRPC server's chain of interceptors, and a call's way through it to
-- the telemetry service, as the handlers of pkg/pb/service_grpc.pb.go make it. The request is
-- decoded. The metrics and logging interceptors pass a call on unchanged. `strconv.Atoi` is a
-- parameter.
pub mod Callers
pub mod Gateway
pub mod Transcoding
pub mod Creation
pub mod Unsigned
pub mod Observability
mod Tests
use extend_game_telemetry_co.Prelude.{
  ℕ, ◌+◌, Bool, true, false, not, ◌&&◌, Option, none, some, List, [], ◌∷◌, ◌++◌, Text, codes,
  text_eq, is_empty, map, leb, if◌then◌else◌,
}
use extend_game_telemetry_co.Prelude.Int.{ℤ, pos}
use extend_game_telemetry_co.Prelude.Result.{Result, ok, err}
use extend_game_telemetry_co.Events.Gameplay.{CreateGameplayTelemetryRequest}
use extend_game_telemetry_co.Events.Performance.{CreatePerformanceTelemetryRequest}
use extend_game_telemetry_co.Events.UserBehavior.{CreateUserBehaviorTelemetryRequest}
use extend_game_telemetry_co.Auth
use extend_game_telemetry_co.Auth.{AuthError, MethodOptions, Permission, intercept}
use extend_game_telemetry_co.Service.{
  CallContext, Claims, TelemetryService, Reply, replied, pending, crashed,
  create_gameplay_telemetry, create_performance_telemetry, create_user_behavior_telemetry,
}

-- `strings.ToLower` on ASCII letters.
abbrev pub lower : ℕ → ℕ
lower c = if leb b'A' c && leb c b'Z' then c + 32 else c

abbrev pub to_lower : Text → Text
to_lower = map lower

-- `strings.ToLower(os.Getenv("PLUGIN_GRPC_SERVER_AUTH_ENABLED")) != "false"`
unfoldable pub auth_enabled : Text → Bool
auth_enabled value = not (text_eq (to_lower value) (codes "false"))

-- The validator's refresh interval in seconds, of the variable REFRESH_INTERVAL.
unfoldable pub refresh_interval : (Text → Option ℤ) → Text → ℤ
refresh_interval atoi value =
    if is_empty value then pos 600 else elim (atoi value) [ none ↦ pos 600 | some parsed ↦ parsed ]

pub data Interceptor : Type 0 where
  metrics logging auth : Interceptor

-- The unary interceptors of NewGRPCServer, outermost first; the stream interceptors are the same.
unfoldable pub interceptors : Text → List Interceptor
interceptors enabled = metrics ∷ logging ∷ (if auth_enabled enabled then auth ∷ [] else [])

-- A call's metadata as the map that gRPC keeps, with lower-case keys, and its peer.
pub record Call : Type 0 where
  pub metadata : Option (Text → Option (List Text))
  pub peer : Option Text

-- `md.Get`: no value for a missing key.
abbrev or_nil : Option (List Text) → List Text
or_nil none = []
or_nil (some values) = values

abbrev pub context_of : Call → CallContext
context_of call = elim (call.metadata) [
  | none ↦ record { metadata = none; peer = call.peer }
  | some md ↦ record { metadata = some (λ key. or_nil (md key)); peer = call.peer }
]

-- `meta["authorization"]`
abbrev pub authorization_of : Call → Auth.Metadata
authorization_of call = elim (call.metadata) [
  | none ↦ none
  | some md ↦ some (md (codes "authorization"))
]

-- The requests of the registered service, and the full names of their methods.
pub data Request : Type 0 where
  user_behavior : CreateUserBehaviorTelemetryRequest → Request
  gameplay : CreateGameplayTelemetryRequest → Request
  performance : CreatePerformanceTelemetryRequest → Request

abbrev pub full_method : Request → Text
full_method (user_behavior _) = codes "/service.Service/CreateUserBehaviorTelemetry"
full_method (gameplay _) = codes "/service.Service/CreateGameplayTelemetry"
full_method (performance _) = codes "/service.Service/CreatePerformanceTelemetry"

-- The handler of an interceptor is the rest of the chain, which may end in an error as well.
abbrev pub flatten : {E A : Type 0} → Result E (Result E A) → Result E A
flatten (ok r) = r
flatten (err e) = err e

abbrev pub map_reply : {P Q : Type 0} → (P → Q) → Reply P → Reply Q
map_reply f (replied r p) = replied r (f p)
map_reply f pending = pending
map_reply f crashed = crashed

module _ {D S D' S' D'' S'' : Type 0} (unmarshal : List ℕ → Option Claims) (now : ℕ) (now_ms : ℤ)
    (prefer_done : Bool) where
  -- The handler of a request, on the service with the processor that it leaves.
  unfoldable pub handle :
      Call
      → TelemetryService D S D' S' D'' S''
      → Request
      → Reply (TelemetryService D S D' S' D'' S'')
  handle call s (user_behavior req) =
      map_reply (λ p. record s { user_behavior_proc = p })
        (create_user_behavior_telemetry unmarshal now now_ms prefer_done (context_of call) req s)
  handle call s (gameplay req) =
      map_reply (λ p. record s { gameplay_proc = p })
        (create_gameplay_telemetry unmarshal now now_ms prefer_done (context_of call) req s)
  handle call s (performance req) =
      map_reply (λ p. record s { performance_proc = p })
        (create_performance_telemetry unmarshal now now_ms prefer_done (context_of call) req s)

  module _ (find_options : Text → Text → Result AuthError MethodOptions)
      (validator : Option (Text → Option Permission → Text → Option Text)) (namespace : Text) where
    -- The way through a chain of interceptors, outermost first, to the handler.
    unfoldable pub through :
        List Interceptor
        → Call
        → TelemetryService D S D' S' D'' S''
        → Request
        → Result AuthError (Reply (TelemetryService D S D' S' D'' S''))
    through [] call s req = ok (handle call s req)
    through (metrics ∷ chain) call s req = through chain call s req
    through (logging ∷ chain) call s req = through chain call s req
    through (auth ∷ chain) call s req = flatten (
        intercept find_options validator namespace (full_method req) (authorization_of call)
          (through chain call s) req)
