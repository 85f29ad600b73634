-- ===== src/Service/Tests.antt =====
-- One call of each handler, with a bearer token.
use extend_game_telemetry_co.Prelude.{
  ℕ, ◌≡◌, true, false, Option, none, some, List, [], ◌∷◌, Text, codes, text_eq, arith,
  if◌then◌else◌,
}
use extend_game_telemetry_co.Prelude.Int.{pos}
use extend_game_telemetry_co.Processor.{Processor}
use extend_game_telemetry_co.Events.Gameplay.{GameplayEvent, CreateGameplayTelemetryRequest}
use extend_game_telemetry_co.Events.Performance.{
  PerformanceEvent, CreatePerformanceTelemetryRequest,
}
use extend_game_telemetry_co.Events.UserBehavior.{
  UserBehaviorEvent, CreateUserBehaviorTelemetryRequest,
}
use extend_game_telemetry_co.Service.{
  CallContext, Claims, TelemetryService, gameplay_event, performance_event, user_behavior_event,
  create_gameplay_telemetry, create_performance_telemetry, create_user_behavior_telemetry,
}
use extend_game_telemetry_co.Service.Base64.{decode_string, pad}
use extend_game_telemetry_co.Service.Base64.RoundTrip.{encode, decode_string-encode}
use extend_game_telemetry_co.Service.Identity.{bearer}
use extend_game_telemetry_co.Service.Handlers.{IsHonest, handlers-IsHonest}

-- A claims reader that takes the payload itself for `sub`.
abbrev reader : List ℕ → Option Claims
reader raw = some (record { sub = raw; user_id = [] })

abbrev token : Text
token = bearer (codes "h") (codes "u1") (codes "s")

abbrev headers : Text → List Text
headers key = if text_eq key (codes "authorization") then token ∷ [] else []

abbrev call : CallContext
call = record { metadata = some headers; peer = some (codes "10.0.0.1") }

abbrev quiet : (T : Type 0) → Processor (Unit {0}) (Unit {0}) T
quiet T = record {
  workers = pos 1;
  batch_size = pos 2;
  flush_interval = pos 5;
  input_chan = record { buffer = []; capacity = 1; closed = false };
  plugins = [];
  deduplicator = none;
  ctx = record { cancelled = false; timeout = none };
  metrics = record {
    events_received = 0;
    events_processed = 0;
    events_duplicated = 0;
    events_dropped = 0;
  };
}

abbrev service : TelemetryService (Unit {0}) (Unit {0}) (Unit {0}) (Unit {0}) (Unit {0}) (Unit {0})
service = record {
  namespace = codes "ns";
  user_behavior_proc = quiet UserBehaviorEvent;
  gameplay_proc = quiet GameplayEvent;
  performance_proc = quiet PerformanceEvent;
}

abbrev behavior : CreateUserBehaviorTelemetryRequest
behavior = record {
  event_id = codes "login";
  version = codes "1";
  timestamp = codes "10:00";
  user = none;
  context = none;
}

abbrev gameplay : CreateGameplayTelemetryRequest
gameplay = record {
  event_id = codes "died";
  version = codes "1";
  timestamp = codes "10:00";
  game_data = some (record {
    location = none;
    map_id = codes "m";
    cause = [];
    active_weapon = [];
    attacker_id = [];
    current_mission = [];
  });
}

abbrev performance : CreatePerformanceTelemetryRequest
performance = record {
  event_id = [];
  version = codes "1";
  timestamp = codes "10:00";
  metrics = none;
  hardware = none;
}

decode_string-encode_example : decode_string (pad (encode (codes "u1"))) ≡ some (codes "u1")
decode_string-encode_example = decode_string-encode (codes "u1") (omega arith, (omega arith, tt))

handlers-IsHonest_example :
    IsHonest 3 true
      (user_behavior_event reader (codes "ns") (pos 7) call behavior)
      (quiet UserBehaviorEvent)
      (create_user_behavior_telemetry reader 3 (pos 7) true call behavior service)
    × IsHonest 3 true
        (gameplay_event reader (codes "ns") (pos 7) call gameplay)
        (quiet GameplayEvent)
        (create_gameplay_telemetry reader 3 (pos 7) true call gameplay service)
    × IsHonest 3 true
        (performance_event reader (codes "ns") (pos 7) call performance)
        (quiet PerformanceEvent)
        (create_performance_telemetry reader 3 (pos 7) true call performance service)
handlers-IsHonest_example =
    handlers-IsHonest reader 3 (pos 7) true call service behavior gameplay performance
