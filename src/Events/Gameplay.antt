-- ===== src/Events/Gameplay.antt =====
-- pkg/events/gameplay.go, with the request message of pkg/proto/service.proto. A `double` is its 64-bit
-- pattern.
use extend_game_telemetry_co.Prelude.{ℕ, ◌++◌, Option, none, some, [], ◌∷◌, Text, codes}
use extend_game_telemetry_co.Prelude.Int.{ℤ}
use extend_game_telemetry_co.Events.{text, int64, request, Document, key_text}
use extend_game_telemetry_co.Storage.{Deduplicatable}

pub record Location : Type 0 where
  pub x : ℕ
  pub y : ℕ
  pub z : ℕ

pub record GameplayData : Type 0 where
  pub location : Option Location
  pub map_id : Text
  pub cause : Text
  pub active_weapon : Text
  pub attacker_id : Text
  pub current_mission : Text

pub record CreateGameplayTelemetryRequest : Type 0 where
  pub event_id : Text
  pub version : Text
  pub timestamp : Text
  pub game_data : Option GameplayData

pub record GameplayEvent : Type 0 where
  pub namespace : Text
  pub user_id : Text
  pub server_timestamp : ℤ
  pub source_ip : Text
  pub payload : Option CreateGameplayTelemetryRequest

unfoldable pub deduplication_key : GameplayEvent → Text
deduplication_key e = elim (e.payload) [
  | none ↦ key_text (codes "gameplay") e.namespace e.user_id [] []
  | some r ↦ key_text (codes "gameplay") e.namespace e.user_id r.event_id r.timestamp
]

abbrev server_fields : GameplayEvent → Document CreateGameplayTelemetryRequest
server_fields e =
    (codes "kind", text (codes "gameplay"))
    ∷ (codes "namespace", text e.namespace)
    ∷ (codes "user_id", text e.user_id)
    ∷ (codes "server_timestamp", int64 e.server_timestamp)
    ∷ (codes "source_ip", text e.source_ip)
    ∷ []

unfoldable pub to_document : GameplayEvent → Document CreateGameplayTelemetryRequest
to_document e = elim (e.payload) [
  | none ↦ server_fields e
  | some r ↦
      server_fields e
      ++ (codes "event_id", text r.event_id)
        ∷ (codes "version", text r.version)
        ∷ (codes "timestamp", text r.timestamp)
        ∷ (codes "payload", request r)
        ∷ []
]

abbrev pub gameplay_keyed : Deduplicatable GameplayEvent
gameplay_keyed = record { deduplication_key = deduplication_key }
