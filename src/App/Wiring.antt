-- ===== src/App/Wiring.antt =====
-- internal/app/app.go, `New` to its end, with `InitializeIAM` of internal/bootstrap/iam.go and
-- NewTelemetryService of pkg/service/telemetry.go: the gRPC server and the service behind it. The
-- SDK's repositories and its OAuth service are parameters.
pub mod Answers
mod Tests
use extend_game_telemetry_co.Prelude.{ℕ, Bool, true, Option, none, some, Text, codes}
use extend_game_telemetry_co.Prelude.Int.{ℤ}
use extend_game_telemetry_co.Prelude.Result.{Result, ok, err}
use extend_game_telemetry_co.Runtime.{Context}
use extend_game_telemetry_co.Storage.{Error}
use extend_game_telemetry_co.Events.Gameplay.{GameplayEvent}
use extend_game_telemetry_co.Events.Performance.{PerformanceEvent}
use extend_game_telemetry_co.Events.UserBehavior.{UserBehaviorEvent}
use extend_game_telemetry_co.Dedup.Redis.{RedisClient, RedisConfig}
use extend_game_telemetry_co.Processor.{Processor}
use extend_game_telemetry_co.Settings.{Config}
use extend_game_telemetry_co.Service.{TelemetryService}
use extend_game_telemetry_co.Server.Creation.{ValidatorSdk, GrpcServer, new_grpc_server}
use extend_game_telemetry_co.Bootstrap.Deduplicators.{AnyDeduplicator}
use extend_game_telemetry_co.Bootstrap.Backends.{Remotes, Backend}
use extend_game_telemetry_co.Bootstrap.StoragePlugins.{AllClients}
use extend_game_telemetry_co.App.{Application, Launched, started, failed, panicked, new}

-- The SDK: its default repositories, a refresh repository for a rate in tenths, and the OAuth
-- service over them, whose login may fail and changes the service.
pub record IamSdk (O Tr Cr Rr : Type 0) : Type 0 where
  pub default_token_repo : Tr
  pub default_config_repo : Cr
  pub refresh_token : ℕ → Bool → Rr
  pub oauth_service : Tr → Cr → Rr → O
  pub get_client_id : Cr → Text
  pub get_client_secret : Cr → Text
  pub login_client : Text → Text → O → Error × O

pub record IamServices (O Tr Cr Rr : Type 0) : Type 0 where
  pub oauth_service : O
  pub token_repo : Tr
  pub config_repo : Cr
  pub refresh_repo : Rr

-- `InitializeIAM`: 8 tenths is the refresh rate, and the refresh is automatic.
unfoldable pub initialize_iam :
    {O Tr Cr Rr : Type 0} → IamSdk O Tr Cr Rr → Result Text (IamServices O Tr Cr Rr)
initialize_iam sdk =
    let config_repo = sdk.default_config_repo in
    let refresh_repo = sdk.refresh_token 8 true in
    let service = sdk.oauth_service sdk.default_token_repo config_repo refresh_repo in
    let (failure, logged_in) =
      sdk.login_client (sdk.get_client_id config_repo) (sdk.get_client_secret config_repo)
        service in
    elim failure [
      | some message ↦ err message
      | none ↦ ok (record {
        oauth_service = logged_in;
        token_repo = sdk.default_token_repo;
        config_repo = config_repo;
        refresh_repo = refresh_repo;
      })
    ]

unfoldable pub new_telemetry_service :
    {D S D' S' D'' S'' : Type 0}
    → Text
    → Processor D S UserBehaviorEvent
    → Processor D' S' GameplayEvent
    → Processor D'' S'' PerformanceEvent
    → TelemetryService D S D' S' D'' S''
new_telemetry_service namespace user_behavior gameplay performance = record {
  namespace = namespace;
  user_behavior_proc = user_behavior;
  gameplay_proc = gameplay;
  performance_proc = performance;
}

-- The service over the processors of an application.
abbrev pub Service : Type 0 → Remotes → Type 0
Service C R =
    TelemetryService (AnyDeduplicator C) (Backend R) (AnyDeduplicator C) (Backend R)
      (AnyDeduplicator C) (Backend R)

-- What `New` returns, with the service that is registered at the server.
pub record Deployment (V C : Type 0) (R : Remotes) : Type 0 where
  pub app : Application C R
  pub grpc_server : GrpcServer V
  pub telemetry_svc : Service C R

pub data Deployed (V C : Type 0) (R : Remotes) : Type 0 where
  up : Deployment V C R → Deployed V C R
  down : Text → Deployed V C R
  crashed : Deployed V C R

-- The error that `InitializeIAM` returns.
abbrev pub failure_of : {A : Type 0} → Result Text A → Error
failure_of (ok a) = none
failure_of (err message) = some message

module _ {C : Type 0} {R : Remotes} (commands : RedisClient C) (fingerprint : Text → Text)
    (connect : RedisConfig → C) {O Tr Cr Rr V : Type 0} (iam : IamSdk O Tr Cr Rr)
    (sdk : ValidatorSdk O V) (atoi : Text → Option ℤ) where
  -- The server and its service for an application.
  abbrev pub wire :
      Text → Text → Result Text (IamServices O Tr Cr Rr) → Application C R → Deployed V C R
  wire enabled interval (err message) app = down message
  wire enabled interval (ok services) app = up (record {
    app = app;
    grpc_server = new_grpc_server sdk atoi services.oauth_service enabled interval;
    telemetry_svc =
        new_telemetry_service app.namespace app.user_behavior.proc app.gameplay.proc
          app.performance.proc;
  })

  abbrev pub wired :
      Text → Text → Result Text (IamServices O Tr Cr Rr) → Launched C R → Deployed V C R
  wired enabled interval services (started app) = wire enabled interval services app
  wired enabled interval services (failed message) = down message
  wired enabled interval services panicked = crashed

  -- `New`, of the variables AB_NAMESPACE, PLUGIN_GRPC_SERVER_AUTH_ENABLED and REFRESH_INTERVAL.
  -- NewGRPCServer has no error of its own. The processors are as they were started, since nothing is
  -- submitted before the server runs.
  unfoldable pub deploy :
      {Tx B : Type 0}
      → AllClients R Tx B
      → Context
      → Result Text Config
      → Text
      → Text
      → Text
      → Error
      → Deployed V C R
  deploy clients ctx parsed ab_namespace enabled interval tracer =
      let services = initialize_iam iam in
      wired enabled interval services (
        new commands fingerprint connect clients ctx parsed ab_namespace (failure_of services)
          tracer)
