-- ===== src/Events/Tests.antt =====
-- Two gameplay events, and the theorems on keys at them.
use extend_game_telemetry_co.Prelude.{◌≡◌, ◌≢◌, ◌↔◌, refl, none, some, codes, arith}
use extend_game_telemetry_co.Prelude.Int.{pos}
use extend_game_telemetry_co.Events.Gameplay
use extend_game_telemetry_co.Events.Gameplay.{GameplayEvent, CreateGameplayTelemetryRequest}
use extend_game_telemetry_co.Events.Performance
use extend_game_telemetry_co.Events.Performance.{
  PerformanceEvent, CreatePerformanceTelemetryRequest,
}
use extend_game_telemetry_co.Events.UserBehavior
use extend_game_telemetry_co.Events.UserBehavior.{
  UserBehaviorEvent, CreateUserBehaviorTelemetryRequest,
}
use extend_game_telemetry_co.Events.Keys.{gameplay_key_iff, kinds_apart}

abbrev died : CreateGameplayTelemetryRequest
died = record {
  event_id = codes "died";
  version = codes "1";
  timestamp = codes "10:00";
  game_data = none;
}

abbrev death : GameplayEvent
death = record {
  namespace = codes "ns";
  user_id = codes "u1";
  server_timestamp = pos 5;
  source_ip = codes "::1";
  payload = some died;
}

abbrev slow : CreatePerformanceTelemetryRequest
slow = record {
  event_id = codes "fps";
  version = codes "1";
  timestamp = codes "10:00";
  metrics = none;
  hardware = none;
}

abbrev slowdown : PerformanceEvent
slowdown = record {
  namespace = codes "ns";
  user_id = codes "u1";
  server_timestamp = pos 5;
  source_ip = codes "::1";
  payload = some slow;
}

abbrev logged_in : CreateUserBehaviorTelemetryRequest
logged_in = record {
  event_id = codes "login";
  version = codes "1";
  timestamp = codes "10:00";
  user = none;
  context = none;
}

abbrev login : UserBehaviorEvent
login = record {
  namespace = codes "ns";
  user_id = codes "u1";
  server_timestamp = pos 5;
  source_ip = codes "::1";
  payload = some logged_in;
}

death_key : Gameplay.deduplication_key death ≡ codes "gameplay:ns:u1:died:10:00"
unfolding Gameplay.deduplication_key
death_key = refl

gameplay_key_iff_example : (Gameplay.deduplication_key death ≡ Gameplay.deduplication_key death) ↔ (
    (codes "ns" ≡ codes "ns")
    × (codes "u1" ≡ codes "u1")
    × (codes "died" ≡ codes "died")
    × (codes "10:00" ≡ codes "10:00"))
gameplay_key_iff_example =
    gameplay_key_iff death death died died refl refl (omega arith) (omega arith)

kinds_apart_example :
    (Gameplay.deduplication_key death ≢ Performance.deduplication_key slowdown)
    × (Gameplay.deduplication_key death ≢ UserBehavior.deduplication_key login)
    × (Performance.deduplication_key slowdown ≢ UserBehavior.deduplication_key login)
kinds_apart_example = kinds_apart death slowdown login
