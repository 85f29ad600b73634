-- ===== src/Events/UserBehavior.antt =====
-- pkg/events/user_behavior.go, with the request message of pkg/proto/service.proto. A `double` is its 64-bit
-- pattern.
use extend_game_telemetry_co.Prelude.{ℕ, ◌++◌, Option, none, some, [], ◌∷◌, Text, codes}
use extend_game_telemetry_co.Prelude.Int.{ℤ}
use extend_game_telemetry_co.Events.{text, int64, request, Document, key_text}
use extend_game_telemetry_co.Storage.{Deduplicatable}

pub record UserInfo : Type 0 where
  pub id : Text
  pub country : Text
  pub platform : Text
  pub acquisition_source : Text

pub record UserBehaviorContext : Type 0 where
  pub session_id : Text
  pub total_playtime_hours : ℕ
  pub last_login : Text

pub record CreateUserBehaviorTelemetryRequest : Type 0 where
  pub event_id : Text
  pub version : Text
  pub timestamp : Text
  pub user : Option UserInfo
  pub context : Option UserBehaviorContext

pub record UserBehaviorEvent : Type 0 where
  pub namespace : Text
  pub user_id : Text
  pub server_timestamp : ℤ
  pub source_ip : Text
  pub payload : Option CreateUserBehaviorTelemetryRequest

-- The session, "" where the request or its context is nil.
abbrev pub session_of : CreateUserBehaviorTelemetryRequest → Text
session_of r = elim (r.context) [ none ↦ [] | some c ↦ c.session_id ]

unfoldable pub deduplication_key : UserBehaviorEvent → Text
deduplication_key e = elim (e.payload) [
  | none ↦ key_text (codes "user_behavior") e.namespace e.user_id [] []
  | some r ↦ key_text (codes "user_behavior") e.namespace e.user_id r.event_id (session_of r)
]

abbrev server_fields : UserBehaviorEvent → Document CreateUserBehaviorTelemetryRequest
server_fields e =
    (codes "kind", text (codes "user_behavior"))
    ∷ (codes "namespace", text e.namespace)
    ∷ (codes "user_id", text e.user_id)
    ∷ (codes "server_timestamp", int64 e.server_timestamp)
    ∷ (codes "source_ip", text e.source_ip)
    ∷ []

unfoldable pub to_document : UserBehaviorEvent → Document CreateUserBehaviorTelemetryRequest
to_document e = elim (e.payload) [
  | none ↦ server_fields e
  | some r ↦
      server_fields e
      ++ (codes "event_id", text r.event_id)
        ∷ (codes "version", text r.version)
        ∷ (codes "timestamp", text r.timestamp)
        ∷ (codes "payload", request r)
        ∷ []
]

abbrev pub user_behavior_keyed : Deduplicatable UserBehaviorEvent
user_behavior_keyed = record { deduplication_key = deduplication_key }
