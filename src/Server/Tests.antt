-- ===== src/Server/Tests.antt =====
-- A call of the gameplay method, with a token that the validator knows.
use extend_game_telemetry_co.Prelude.{
  ℕ, ◌≡◌, refl, true, false, Option, none, some, List, [], ◌∷◌, Text, codes, text_eq, arith,
  if◌then◌else◌,
}
use extend_game_telemetry_co.Prelude.Int.{pos}
use extend_game_telemetry_co.Prelude.Result.{Result, ok, err}
use extend_game_telemetry_co.Auth.{
  AuthError, internal, MethodOptions, AuthRequirement, Permission, parse_full_method,
  has_security_scheme, extract_auth_requirement, check_authorization_metadata, intercept,
}
use extend_game_telemetry_co.Events.Gameplay.{GameplayEvent}
use extend_game_telemetry_co.Events.Performance.{PerformanceEvent}
use extend_game_telemetry_co.Events.UserBehavior.{UserBehaviorEvent}
use extend_game_telemetry_co.Processor.{
  Processor, submit, check_duplicate, mark_seen, offer, await_room,
}
use extend_game_telemetry_co.Service.{
  Claims, TelemetryService, create_gameplay_telemetry, gameplay_event, extract_user_id, replied,
  extract_source_ip, reply_to_submit, user_of_parts, user_of,
}
use extend_game_telemetry_co.Service.Base64.{decode_string, pad, decode_groups, last_group, sextet}
use extend_game_telemetry_co.Server.{
  Call, Request, gameplay, handle, through, interceptors, auth_enabled,
}
use extend_game_telemetry_co.Service.Identity.{bearer}
use extend_game_telemetry_co.Server.Unsigned.{bearing, disabled_ignores_signature}
use extend_game_telemetry_co.Server.Creation.{ValidatorSdk, new_grpc_server, validate_of}
use extend_game_telemetry_co.Server.Creation.Denials.{new_grpc_server-denies}
use extend_game_telemetry_co.Server.Callers.{built_user, IsCaller, through-IsCaller}

-- A claims reader that takes the payload itself for `sub`.
abbrev pub reader : List ℕ → Option Claims
reader raw = some (record { sub = raw; user_id = [] })

-- Its payload is `u1` in base64url.
abbrev token : Text
token = codes "h.dTE.s"

abbrev pub headers : Text → Option (List Text)
headers key =
    if text_eq key (codes "authorization") then some (codes "Bearer h.dTE.s" ∷ []) else none

abbrev pub call : Call
call = record { metadata = some headers; peer = some (codes "10.0.0.1") }

abbrev quiet : (T : Type 0) → Processor (Unit {0}) (Unit {0}) T
quiet T = record {
  workers = pos 1;
  batch_size = pos 2;
  flush_interval = pos 5;
  input_chan = record { buffer = []; capacity = 1; closed = false };
  plugins = [];
  deduplicator = none;
  ctx = record { cancelled = false; timeout = none };
  metrics = record {
    events_received = 0;
    events_processed = 0;
    events_duplicated = 0;
    events_dropped = 0;
  };
}

abbrev pub Service' : Type 0
Service' = TelemetryService (Unit {0}) (Unit {0}) (Unit {0}) (Unit {0}) (Unit {0}) (Unit {0})

abbrev pub service : Service'
service = record {
  namespace = codes "ns";
  user_behavior_proc = quiet UserBehaviorEvent;
  gameplay_proc = quiet GameplayEvent;
  performance_proc = quiet PerformanceEvent;
}

abbrev pub died : Request
died = gameplay (record {
  event_id = codes "died";
  version = codes "1";
  timestamp = codes "10:00";
  game_data = some (record {
    location = none;
    map_id = codes "m";
    cause = [];
    active_weapon = [];
    attacker_id = [];
    current_mission = [];
  });
})

abbrev pub find : Text → Text → Result AuthError MethodOptions
find service_name method =
    ok (record { security = some (some (codes "Bearer" ∷ []) ∷ []); resource = []; action = 0 })

abbrev pub knows : Text → Option Permission → Text → Option Text
knows t permission namespace = if text_eq t token then none else some (codes "unknown token")

abbrev pub needs_token : AuthRequirement
needs_token = record { require_token = true; permission = none }

answered :
    (s' : Service') × (through reader 3
        (pos 7)
        true
        find
        (some knows)
        (codes "ns")
        (interceptors [])
        call
        service
        died
      ≡ ok (replied (ok tt) s'))
unfolding through handle intercept interceptors auth_enabled extract_auth_requirement
    parse_full_method has_security_scheme check_authorization_metadata create_gameplay_telemetry
    gameplay_event extract_user_id extract_source_ip reply_to_submit user_of_parts user_of
    decode_string pad decode_groups last_group sextet submit check_duplicate mark_seen offer
    await_room
answered = (_, refl)

through-IsCaller_example :
    (user : Text) × (built_user reader (codes "ns") (pos 7) call died ≡ ok user)
    × IsCaller reader find (some knows) (codes "ns") call none user
unfolding auth_enabled extract_auth_requirement parse_full_method has_security_scheme
through-IsCaller_example =
    through-IsCaller reader 3 (pos 7) true find (some knows) (codes "ns") [] call service answered.0
      died needs_token refl refl refl answered.1

disabled_ignores_signature_example :
    through reader 3
      (pos 7)
      true
      find
      none
      (codes "ns")
      (interceptors (codes "False"))
      (bearing (λ key. none) none (bearer (codes "h") (codes "u1") (codes "s")))
      service
      died
    ≡ through reader 3
        (pos 7)
        true
        find
        none
        (codes "ns")
        (interceptors (codes "False"))
        (bearing (λ key. none) none (bearer (codes "h") (codes "u1") []))
        service
        died
unfolding auth_enabled
disabled_ignores_signature_example =
    disabled_ignores_signature reader 3 (pos 7) true find none (codes "ns") (codes "False")
      (λ key. none) none (codes "h") (codes "h") (codes "s") [] (codes "u1") service died refl
      (refl, tt) (refl, tt) (refl, tt) tt (omega arith, (omega arith, tt))

-- A validator whose first login fails.
abbrev sdk : ValidatorSdk Text (List ℕ)
sdk = record {
  initialize = λ fresh. (some (codes "no connection"), fresh.auth_service);
  validate = λ v t permission namespace. knows t permission namespace;
}

find_has_options :
    (service_name method message : Text) → ¬ (find service_name method ≡ err (internal message))
find_has_options service_name method message h = ground arith

new_grpc_server-denies_example :
    ((new_grpc_server sdk (λ t. none) (codes "iam") [] []).unary_interceptors ≡ interceptors [])
    × ((new_grpc_server sdk (λ t. none) (codes "iam") [] []).stream_interceptors ≡ interceptors [])
    × (¬ (
        through reader 3
          (pos 7)
          true
          find
          (validate_of sdk (new_grpc_server sdk (λ t. none) (codes "iam") [] []).validator)
          (codes "ns")
          (new_grpc_server sdk (λ t. none) (codes "iam") [] []).unary_interceptors
          call
          service
          died
        ≡ err (internal (codes "authorization token validator is not set"))))
new_grpc_server-denies_example =
    new_grpc_server-denies sdk (λ t. none) find (codes "ns") reader 3 (pos 7) true (codes "iam") []
      [] (codes "authorization token validator is not set") call service died find_has_options
