-- ===== src/Server/Transcoding.antt =====
-- pkg/pb/service.pb.gw.go and pkg/common/gateway.go: how an HTTP request becomes a call of the gRPC
-- server that runs beside it. The gRPC gateway's library is a parameter: its multiplexer, the
-- marshaler of a request, the metadata that it makes of the headers, and the connection. The handlers
-- that call a server directly (RegisterServiceHandlerServer) are not used and left out.
pub mod Successes
pub mod Sources
pub mod Refusals
pub mod Sparing
pub mod Faithful
mod Sample
mod Tests
use extend_game_telemetry_co.Prelude.{ℕ, Bool, Option, none, some, List, [], ◌∷◌, ◌++◌, Text, codes}
use extend_game_telemetry_co.Prelude.Int.{ℤ}
use extend_game_telemetry_co.Prelude.Result.{Result, ok, err, ◌>>=◌}
use extend_game_telemetry_co.Auth.{AuthError, MethodOptions, Permission}
use extend_game_telemetry_co.Events.Gameplay.{CreateGameplayTelemetryRequest}
use extend_game_telemetry_co.Events.Performance.{CreatePerformanceTelemetryRequest}
use extend_game_telemetry_co.Events.UserBehavior.{CreateUserBehaviorTelemetryRequest}
use extend_game_telemetry_co.Service.{
  Claims, Status, TelemetryService, Reply, replied, pending, crashed,
}
use extend_game_telemetry_co.Server.{
  Call, Request, user_behavior, gameplay, performance, full_method, interceptors, through,
}
use extend_game_telemetry_co.Server.Gateway
use extend_game_telemetry_co.Server.Gateway.{Response, gateway_call, Swagger, serve}

-- A request, whose body may fail to be read.
pub record HttpRequest : Type 0 where
  pub method : Text
  pub path : Text
  pub header : Text → List Text
  pub body : Result Text (List ℕ)

pub data DecodeError : Type 0 where
  eof : DecodeError
  malformed : Text → DecodeError

-- `Decode` of a marshaler, for the message of each method: what it leaves in the message, and its
-- error.
pub record Marshaler : Type 0 where
  pub decode_user_behavior : List ℕ → CreateUserBehaviorTelemetryRequest × Option DecodeError
  pub decode_gameplay : List ℕ → CreateGameplayTelemetryRequest × Option DecodeError
  pub decode_performance : List ℕ → CreatePerformanceTelemetryRequest × Option DecodeError

-- The error of a call: of the connection, of an interceptor, or of the handler.
pub data CallError : Type 0 where
  unavailable : Text → CallError
  rejected : AuthError → CallError
  refused : Status → CallError

-- What `runtime.HTTPError` is given.
pub data GatewayError : Type 0 where
  bad_context : Text → GatewayError
  invalid_argument : Text → GatewayError
  call_error : CallError → GatewayError

-- What a call comes to, and what it leaves; it may also not return, or panic. A client that gives up
-- has its error before, while the server's call goes on to what it comes to.
pub data Called (E W : Type 0) : Type 0 where
  returned : Result E (Unit {0}) → W → Called E W
  waiting : Called E W
  aborted : Called E W
  given_up : E → Called E W → Called E W

abbrev pub map_error : {E F W : Type 0} → (E → F) → Called E W → Called F W
map_error f (returned (ok u) w) = returned (ok u) w
map_error f (returned (err e) w) = returned (err (f e)) w
map_error f waiting = waiting
map_error f aborted = aborted
map_error f (given_up e c) = given_up (f e) (map_error f c)

-- The message of a request. A body that is empty is no error.
abbrev pub accept : {A : Type 0} → A × Option DecodeError → Result GatewayError A
accept (message, none) = ok message
accept (message, some eof) = ok message
accept (message, some (malformed failure)) = err (invalid_argument failure)

abbrev pub read_body : HttpRequest → Result GatewayError (List ℕ)
read_body req = elim (req.body) [
  | err failure ↦ err (invalid_argument failure)
  | ok bytes ↦ ok bytes
]

abbrev pub read_user_behavior :
    Marshaler → HttpRequest → Result GatewayError CreateUserBehaviorTelemetryRequest
read_user_behavior marshaler req =
    read_body req >>= λ bytes. accept (marshaler.decode_user_behavior bytes)

abbrev pub read_gameplay :
    Marshaler → HttpRequest → Result GatewayError CreateGameplayTelemetryRequest
read_gameplay marshaler req = read_body req >>= λ bytes. accept (marshaler.decode_gameplay bytes)

abbrev pub read_performance :
    Marshaler → HttpRequest → Result GatewayError CreatePerformanceTelemetryRequest
read_performance marshaler req =
    read_body req >>= λ bytes. accept (marshaler.decode_performance bytes)

pub record Route (H : Type 0) : Type 0 where
  pub method : Text
  pub pattern : List Text
  pub handler : H

abbrev pattern_create_user_behavior_telemetry : List Text
pattern_create_user_behavior_telemetry = codes "v1" ∷ codes "telemetry" ∷ codes "user-behavior" ∷ []

abbrev pattern_create_gameplay_telemetry : List Text
pattern_create_gameplay_telemetry = codes "v1" ∷ codes "telemetry" ∷ codes "gameplay" ∷ []

abbrev pattern_create_performance_telemetry : List Text
pattern_create_performance_telemetry = codes "v1" ∷ codes "telemetry" ∷ codes "performance" ∷ []

module _ {Ctx W : Type 0} (client : Ctx → Request → W → Called CallError W) where
  -- Call the method with the message that was read, or return the error.
  abbrev pub call_with : Ctx → Result GatewayError Request → W → Called GatewayError W
  call_with ctx (err e) w = returned (err e) w
  call_with ctx (ok r) w = map_error call_error (client ctx r w)

  unfoldable pub request_create_user_behavior_telemetry :
      Ctx → Marshaler → HttpRequest → W → Called GatewayError W
  request_create_user_behavior_telemetry ctx marshaler req =
      call_with ctx (read_user_behavior marshaler req >>= λ message. ok (user_behavior message))

  unfoldable pub request_create_gameplay_telemetry :
      Ctx → Marshaler → HttpRequest → W → Called GatewayError W
  request_create_gameplay_telemetry ctx marshaler req =
      call_with ctx (read_gameplay marshaler req >>= λ message. ok (gameplay message))

  unfoldable pub request_create_performance_telemetry :
      Ctx → Marshaler → HttpRequest → W → Called GatewayError W
  request_create_performance_telemetry ctx marshaler req =
      call_with ctx (read_performance marshaler req >>= λ message. ok (performance message))

  module _ (annotate : HttpRequest → Text → Result Text Ctx)
      (marshaler_for : HttpRequest → Marshaler) where
    -- The handler of each route: the context of the call, and then the call. An error of either is
    -- the answer.
    abbrev pub handler_of :
        Text
        → (Ctx → Marshaler → HttpRequest → W → Called GatewayError W)
        → HttpRequest
        → W
        → Called GatewayError W
    handler_of full_name request req w = elim (annotate req full_name) [
      | err failure ↦ returned (err (bad_context failure)) w
      | ok ctx ↦ request ctx (marshaler_for req) req w
    ]

    unfoldable pub register_service_handler_client :
        List (Route (HttpRequest → W → Called GatewayError W))
    register_service_handler_client =
        record {
          method = codes "POST";
          pattern = pattern_create_user_behavior_telemetry;
          handler =
              handler_of (codes "/service.Service/CreateUserBehaviorTelemetry")
                request_create_user_behavior_telemetry;
        }
        ∷ record {
          method = codes "POST";
          pattern = pattern_create_gameplay_telemetry;
          handler =
              handler_of (codes "/service.Service/CreateGameplayTelemetry")
                request_create_gameplay_telemetry;
        }
        ∷ record {
          method = codes "POST";
          pattern = pattern_create_performance_telemetry;
          handler =
              handler_of (codes "/service.Service/CreatePerformanceTelemetry")
                request_create_performance_telemetry;
        }
        ∷ []

-- The answer of the HTTP server: of a handler of the gateway, or of none.
pub data Answer (W : Type 0) : Type 0 where
  called : Called GatewayError W → Answer W
  unrouted : W → Answer W
  page : Response → W → Answer W

module _ {W : Type 0} where
  -- `RegisterServiceHandlerFromEndpoint` and `NewGateway`: no gateway when the endpoint cannot be
  -- dialled.
  unfoldable pub new_gateway :
      {Ctx : Type 0}
      → Result Text (Ctx → Request → W → Called CallError W)
      → (HttpRequest → Text → Result Text Ctx)
      → (HttpRequest → Marshaler)
      → Result Text (List (Route (HttpRequest → W → Called GatewayError W)))
  new_gateway dialled annotate marshaler_for =
      dialled >>= λ client. ok (register_service_handler_client client annotate marshaler_for)

  module _
      (find : List (Route (HttpRequest → W → Called GatewayError W))
        → HttpRequest
        → Option (HttpRequest → W → Called GatewayError W))
      (routes : List (Route (HttpRequest → W → Called GatewayError W))) where
    -- The gateway's multiplexer, on the path without the base path.
    abbrev pub route : HttpRequest → W → Answer W
    route req w = elim (find routes req) [
      | none ↦ unrouted w
      | some handler ↦ called (handler req w)
    ]

    abbrev pub respond : HttpRequest → W → Response → Answer W
    respond req w (gateway_call rest) = route (record req { path = rest }) w
    respond req w response = page response w

    -- A request of the HTTP server.
    unfoldable pub serve_http :
        {Spec : Type 0} → Swagger Spec → Text → Text → HttpRequest → W → Answer W
    serve_http swagger swagger_dir base_path req w =
        respond req w (serve swagger swagger_dir base_path req.path)

-- The state of the server's processors.
abbrev pub called_of : {W : Type 0} → W → Result AuthError (Reply W) → Called CallError W
called_of w (err e) = returned (err (rejected e)) w
called_of w (ok (replied (ok u) w')) = returned (ok u) w'
called_of w (ok (replied (err status) w')) = returned (err (refused status)) w'
called_of w (ok pending) = waiting
called_of w (ok crashed) = aborted

-- A call that reached the server: its metadata, and the client's error if it gives up before the
-- server's call returns, as for a deadline, a cancelled request or a broken connection.
pub record Connected : Type 0 where
  pub call : Call
  pub gives_up : Option Text

abbrev pub interrupted : {W : Type 0} → Option Text → Called CallError W → Called CallError W
interrupted none c = c
interrupted (some failure) c = given_up (unavailable failure) c

module _ {Ctx D S D' S' D'' S'' : Type 0} (unmarshal : List ℕ → Option Claims) (now : ℕ)
    (now_ms : ℤ) (prefer_done : Bool) (find_options : Text → Text → Result AuthError MethodOptions)
    (validator : Option (Text → Option Permission → Text → Option Text)) (environment : Text)
    (enabled : Text) (connect : Ctx → Result Text Connected) where
  -- The client of a connection to the server of internal/server/grpc.go.
  unfoldable pub client_of :
      Ctx
      → Request
      → TelemetryService D S D' S' D'' S''
      → Called CallError (TelemetryService D S D' S' D'' S'')
  client_of ctx r s = elim (connect ctx) [
    | err failure ↦ returned (err (unavailable failure)) s
    | ok connected ↦ interrupted connected.gives_up (
        called_of s (
          through unmarshal now now_ms prefer_done find_options validator environment
            (interceptors enabled) connected.call s r))
  ]
