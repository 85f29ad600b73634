-- ===== src/Server/Creation.antt =====
-- internal/server/grpc.go, with `NewTokenValidator` of pkg/common/authServerInterceptor.go: the gRPC
-- server as it is created, from the environment. The SDK's token validator is a parameter; its own
-- tables start empty. The options that only trace a call, reflection and the health service are
-- left out.
pub mod Denials
use extend_game_telemetry_co.Prelude.{
  ℕ, ◌≡◌, ◌⊎◌, ◌∙◌, refl, sym, ap, Bool, true, false, ◌||◌, Option, none, some, List, [], ◌∷◌, ◌++◌,
  Text, codes, if◌then◌else◌, arith, Bool-cases, Option-cases, inl, inr,
}
use extend_game_telemetry_co.Prelude.Int.{ℤ}
use extend_game_telemetry_co.Prelude.Result.{Result, ok, err, ◌>>=◌, bind_err, err-injective}
use extend_game_telemetry_co.Storage.{Error, wrap_error}
use extend_game_telemetry_co.Auth.{
  AuthError, plain, internal, unauthenticated, permission_denied, AuthRequirement, MethodOptions,
  Permission, Metadata, parse_full_method, extract_auth_requirement, check_authorization_metadata,
  check_values, validated, enforce, intercept, is_some,
}
use extend_game_telemetry_co.Auth.Guard.{intercept_reply}
use extend_game_telemetry_co.Service.{Claims, TelemetryService, Reply}
use extend_game_telemetry_co.Server.{
  Call, Request, full_method, authorization_of, Interceptor, metrics, logging, auth, auth_enabled,
  refresh_interval, interceptors, flatten, handle, through,
}

-- `iam.TokenValidator`, as far as `NewTokenValidator` chooses it.
pub record TokenValidator (O : Type 0) : Type 0 where
  pub auth_service : O
  pub refresh_interval : ℤ
  pub local_validation_active : Bool

unfoldable pub new_token_validator : {O : Type 0} → O → ℤ → Bool → TokenValidator O
new_token_validator auth_service interval validate_locally = record {
  auth_service = auth_service;
  refresh_interval = interval;
  local_validation_active = validate_locally;
}

-- The SDK's methods. A validator works, in some state, even after `Initialize` failed.
pub record ValidatorSdk (O V : Type 0) : Type 0 where
  pub initialize : TokenValidator O → Error × V
  pub validate : V → Text → Option Permission → Text → Option Text

-- The server, the variable `common.Validator`, and what was logged as an error.
pub record GrpcServer (V : Type 0) : Type 0 where
  pub unary_interceptors : List Interceptor
  pub stream_interceptors : List Interceptor
  pub validator : Option V
  pub logged : Error

module _ {O V : Type 0} (sdk : ValidatorSdk O V) (atoi : Text → Option ℤ) where
  -- NewGRPCServer, of the variables PLUGIN_GRPC_SERVER_AUTH_ENABLED and REFRESH_INTERVAL.
  unfoldable pub new_grpc_server : O → Text → Text → GrpcServer V
  new_grpc_server oauth_service enabled interval =
      if auth_enabled enabled
      then (let (failure, v) =
            sdk.initialize
              (new_token_validator oauth_service (refresh_interval atoi interval) true) in
          record {
            unary_interceptors = (metrics ∷ logging ∷ []) ++ auth ∷ [];
            stream_interceptors = (metrics ∷ logging ∷ []) ++ auth ∷ [];
            validator = some v;
            logged = failure;
          })
      else record {
        unary_interceptors = metrics ∷ logging ∷ [];
        stream_interceptors = metrics ∷ logging ∷ [];
        validator = none;
        logged = none;
      }

-- `Validate` of the variable `common.Validator`.
abbrev pub validate_of :
    {O V : Type 0}
    → ValidatorSdk O V
    → Option V
    → Option (Text → Option Permission → Text → Option Text)
validate_of sdk none = none
validate_of sdk (some v) = some (sdk.validate v)

-- StartGRPCServer: `listen` is the error of `net.Listen`.
unfoldable pub start_grpc_server : Text → Error → Error
start_grpc_server port listen =
    wrap_error (codes "failed to listen on port " ++ port ++ codes ": ") listen
