-- ===== src/Events/Performance.antt =====
-- pkg/events/performance.go, with the request message of pkg/proto/service.proto. A `double` is its 64-bit
-- pattern.
use extend_game_telemetry_co.Prelude.{ℕ, ◌++◌, Option, none, some, [], ◌∷◌, Text, codes}
use extend_game_telemetry_co.Prelude.Int.{ℤ}
use extend_game_telemetry_co.Events.{text, int64, request, Document, key_text}
use extend_game_telemetry_co.Storage.{Deduplicatable}

pub record PerformanceMetrics : Type 0 where
  pub fps_avg : ℕ
  pub fps_min : ℕ
  pub memory_usage_mb : ℤ
  pub ping_ms : ℤ
  pub gpu_load_percent : ℤ

pub record HardwareInfo : Type 0 where
  pub cpu : Text
  pub gpu : Text
  pub driver_version : Text

pub record CreatePerformanceTelemetryRequest : Type 0 where
  pub event_id : Text
  pub version : Text
  pub timestamp : Text
  pub metrics : Option PerformanceMetrics
  pub hardware : Option HardwareInfo

pub record PerformanceEvent : Type 0 where
  pub namespace : Text
  pub user_id : Text
  pub server_timestamp : ℤ
  pub source_ip : Text
  pub payload : Option CreatePerformanceTelemetryRequest

unfoldable pub deduplication_key : PerformanceEvent → Text
deduplication_key e = elim (e.payload) [
  | none ↦ key_text (codes "performance") e.namespace e.user_id [] []
  | some r ↦ key_text (codes "performance") e.namespace e.user_id r.event_id r.timestamp
]

abbrev server_fields : PerformanceEvent → Document CreatePerformanceTelemetryRequest
server_fields e =
    (codes "kind", text (codes "performance"))
    ∷ (codes "namespace", text e.namespace)
    ∷ (codes "user_id", text e.user_id)
    ∷ (codes "server_timestamp", int64 e.server_timestamp)
    ∷ (codes "source_ip", text e.source_ip)
    ∷ []

unfoldable pub to_document : PerformanceEvent → Document CreatePerformanceTelemetryRequest
to_document e = elim (e.payload) [
  | none ↦ server_fields e
  | some r ↦
      server_fields e
      ++ (codes "event_id", text r.event_id)
        ∷ (codes "version", text r.version)
        ∷ (codes "timestamp", text r.timestamp)
        ∷ (codes "payload", request r)
        ∷ []
]

abbrev pub performance_keyed : Deduplicatable PerformanceEvent
performance_keyed = record { deduplication_key = deduplication_key }
