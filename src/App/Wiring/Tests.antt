-- ===== src/App/Wiring/Tests.antt =====
-- A service of a small configuration with authorization, and its first call.
use extend_game_telemetry_co.Prelude.{
  ℕ, ◌≡◌, refl, true, Option, none, some, List, [], ◌∷◌, Text, codes, All,
}
use extend_game_telemetry_co.Prelude.Int.{ℤ, pos}
use extend_game_telemetry_co.Prelude.Result.{Result, ok}
use extend_game_telemetry_co.Runtime.{background}
use extend_game_telemetry_co.Auth.{
  AuthError, MethodOptions, parse_full_method, has_security_scheme, extract_auth_requirement,
  check_authorization_metadata,
}
use extend_game_telemetry_co.Plugins.S3
use extend_game_telemetry_co.Plugins.Kafka
use extend_game_telemetry_co.Service.{
  Claims, gameplay_event, extract_user_id, extract_source_ip, user_of_parts, user_of, replied,
}
use extend_game_telemetry_co.Service.Base64.{decode_string, pad, decode_groups, last_group, sextet}
use extend_game_telemetry_co.Settings.{validate_config, get_enabled_plugins}
use extend_game_telemetry_co.Server.{Call, Request, gameplay, auth_enabled, through}
use extend_game_telemetry_co.Server.Creation.{ValidatorSdk, new_grpc_server, validate_of}
use extend_game_telemetry_co.Bootstrap.Backends.{
  known, make_plugin, methods, configured, initialize,
}
use extend_game_telemetry_co.Bootstrap.StoragePlugins.Loading.{known_names, CanOpen}
use extend_game_telemetry_co.Bootstrap.Sample.{config, remotes, redis, clients}
use extend_game_telemetry_co.App.Wiring.{
  IamSdk, IamServices, initialize_iam, Deployment, deploy, up, Service,
}
use extend_game_telemetry_co.App.Wiring.Answers.{deploy_answers}

abbrev iam : IamSdk ℕ ℕ Text ℕ
iam = record {
  default_token_repo = 1;
  default_config_repo = codes "client";
  refresh_token = λ rate automatic. rate;
  oauth_service = λ token config refresh. refresh;
  get_client_id = λ config. config;
  get_client_secret = λ config. [];
  login_client = λ id secret service. (none, service);
}

abbrev sdk : ValidatorSdk ℕ ℕ
sdk = record {
  initialize = λ fresh. (none, fresh.auth_service);
  validate = λ v token permission namespace. none;
}

abbrev no_number : Text → Option ℤ
no_number text = none

abbrev reader : List ℕ → Option Claims
reader raw = some (record { sub = raw; user_id = [] })

abbrev find : Text → Text → Result AuthError MethodOptions
find service_name method =
    ok (record { security = some (some (codes "Bearer" ∷ []) ∷ []); resource = []; action = 0 })

abbrev call : Call
call = record { metadata = some (λ key. some (codes "Bearer h.dTE.s" ∷ [])); peer = none }

abbrev died : Request
died = gameplay (record {
  event_id = codes "died";
  version = codes "1";
  timestamp = codes "10:00";
  game_data = some (record {
    location = none;
    map_id = codes "m";
    cause = [];
    active_weapon = [];
    attacker_id = [];
    current_mission = [];
  });
})

abbrev services : IamServices ℕ ℕ Text ℕ
services = record {
  oauth_service = 8;
  token_repo = 1;
  config_repo = codes "client";
  refresh_repo = 8;
}

can_open : All (CanOpen clients background config) (known_names (get_enabled_plugins config))
unfolding get_enabled_plugins known make_plugin methods configured initialize S3.plugin
    S3.initialize S3.new_plugin Kafka.plugin Kafka.initialize Kafka.new_plugin
can_open = (((_, refl), (_, refl), (_, refl)), (((_, refl), (_, refl), (_, refl)), tt))

deploy_answers_example :
    (d : Deployment ℕ (Unit {0}) remotes) × (deploy redis
        (λ key. key)
        (λ c. tt)
        iam
        sdk
        no_number
        clients
        background
        (ok config)
        (codes "ns")
        []
        []
        none
      ≡ up d)
    × (s' : Service (Unit {0}) remotes) × (through reader 3
          (pos 7)
          true
          find
          (validate_of sdk d.grpc_server.validator)
          (codes "ns")
          d.grpc_server.unary_interceptors
          call
          d.telemetry_svc
          died
        ≡ ok (replied (ok tt) s'))
unfolding initialize_iam validate_config new_grpc_server auth_enabled extract_auth_requirement
    parse_full_method has_security_scheme check_authorization_metadata gameplay_event
    extract_user_id extract_source_ip user_of_parts user_of decode_string pad decode_groups
    last_group sextet
deploy_answers_example =
    deploy_answers redis (λ key. key) (λ c. tt) iam sdk no_number reader 3 (pos 7) true find clients
      background config 2 (codes "ns") [] [] (codes "u1") services call died
      (record { require_token = true; permission = none }) refl refl refl can_open refl refl refl
