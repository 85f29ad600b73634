-- ===== src/Plugins.antt =====
-- pkg/storage/plugins: what the storage backends share. Each backend has three copies in the source,
-- one for each kind of event, that differ in the event type, the kind's label and the default names;
-- the definitions of a backend take these as an `EventKind`.
pub mod Postgres
pub mod S3
pub mod Kafka
pub mod MongoDb
pub mod Noop
mod Tests
use extend_game_telemetry_co.Prelude.{Option, List, Text, codes}
use extend_game_telemetry_co.Prelude.Int.{ℤ}
use extend_game_telemetry_co.Events.{Value, Document}
use extend_game_telemetry_co.Events.Gameplay.{GameplayEvent, CreateGameplayTelemetryRequest}
use extend_game_telemetry_co.Events.Performance.{
  PerformanceEvent, CreatePerformanceTelemetryRequest,
}
use extend_game_telemetry_co.Events.UserBehavior.{
  UserBehaviorEvent, CreateUserBehaviorTelemetryRequest,
}

-- What a plugin reads of its event type: the kind's label, the default name of its table or
-- collection, and the event's members.
pub record EventKind (E P : Type 0) : Type 0 where
  pub label : Text
  pub default_table : Text
  pub to_document : E → Document P
  pub namespace : E → Text
  pub user_id : E → Text
  pub server_timestamp : E → ℤ

abbrev pub gameplay_kind : EventKind GameplayEvent CreateGameplayTelemetryRequest
gameplay_kind = record {
  label = codes "gameplay";
  default_table = codes "gameplay_events";
  to_document = λ e. extend_game_telemetry_co.Events.Gameplay.to_document e;
  namespace = λ e. e.namespace;
  user_id = λ e. e.user_id;
  server_timestamp = λ e. e.server_timestamp;
}

abbrev pub performance_kind : EventKind PerformanceEvent CreatePerformanceTelemetryRequest
performance_kind = record {
  label = codes "performance";
  default_table = codes "performance_events";
  to_document = λ e. extend_game_telemetry_co.Events.Performance.to_document e;
  namespace = λ e. e.namespace;
  user_id = λ e. e.user_id;
  server_timestamp = λ e. e.server_timestamp;
}

abbrev pub user_behavior_kind : EventKind UserBehaviorEvent CreateUserBehaviorTelemetryRequest
user_behavior_kind = record {
  label = codes "user_behavior";
  default_table = codes "user_behavior_events";
  to_document = λ e. extend_game_telemetry_co.Events.UserBehavior.to_document e;
  namespace = λ e. e.namespace;
  user_id = λ e. e.user_id;
  server_timestamp = λ e. e.server_timestamp;
}

-- `json.Marshal` of one member of a document, and of a whole one; `none` is its error.
pub record Json (P : Type 0) : Type 0 where
  pub marshal : Option (Value P) → Option Text
  pub marshal_document : Document P → Option Text
