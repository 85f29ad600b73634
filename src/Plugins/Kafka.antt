-- ===== src/Plugins/Kafka.antt =====
-- pkg/storage/plugins/kafka: a batch as messages of one write to a topic. The writer and the broker
-- connection are parameters.
pub mod Publishing
pub mod Journal
use extend_game_telemetry_co.Prelude.{
  ℕ, ◌++◌, Bool, true, false, Option, none, some, List, [], ◌∷◌, Text, codes, text_eq, is_empty,
  length, ◌==◌, if◌then◌else◌,
}
use extend_game_telemetry_co.Prelude.Int.{ℤ, pos}
use extend_game_telemetry_co.Prelude.Result.{Result, ok, err}
use extend_game_telemetry_co.Runtime.{Context}
use extend_game_telemetry_co.Storage.{Error, StoragePlugin}
use extend_game_telemetry_co.Events.Gameplay.{GameplayEvent, CreateGameplayTelemetryRequest}
use extend_game_telemetry_co.Events.Performance.{
  PerformanceEvent, CreatePerformanceTelemetryRequest,
}
use extend_game_telemetry_co.Events.UserBehavior.{
  UserBehaviorEvent, CreateUserBehaviorTelemetryRequest,
}
use extend_game_telemetry_co.Plugins.{
  EventKind, Json, gameplay_kind, performance_kind, user_behavior_kind,
}

pub data Compression : Type 0 where
  gzip snappy lz4 zstd : Compression

unfoldable pub compression_codec : Text → Compression
compression_codec name =
    if text_eq name (codes "gzip")
    then gzip
    else if text_eq name (codes "snappy")
    then snappy
    else if text_eq name (codes "lz4")
    then lz4
    else if text_eq name (codes "zstd")
    then zstd
    else snappy

pub record PluginConfig : Type 0 where
  pub brokers : List Text
  pub topic : Text
  pub compression : Text
  pub batch_size : ℤ
  pub flush_interval : ℤ

-- The `kafka.Writer` of a plugin: hashed by key, synchronous, acknowledged by all replicas.
pub record Writer : Type 0 where
  pub brokers : List Text
  pub topic : Text
  pub batch_size : ℤ
  pub batch_timeout : ℤ
  pub compression : Compression

pub record Message : Type 0 where
  pub key : Text
  pub value : Text
  pub time_ms : ℤ
  pub headers : List (Text × Text)

-- The client, over the broker `W`. A dialled connection gives the topic's number of partitions.
pub record KafkaClient (W : Type 0) : Type 0 where
  pub write_messages : Context → Option Writer → List Message → W → Error × W
  pub close_writer : W → Error × W
  pub dial : Context → Text → W → Error
  pub read_partitions : Text → W → Result Text ℕ

pub record KafkaPlugin (W : Type 0) : Type 0 where
  pub cfg : PluginConfig
  pub writer : Option Writer
  pub broker : W

module _ {E P : Type 0} (kind : EventKind E P) (json : Json P) where
  unfoldable pub transform : E → Option Text
  transform e = json.marshal_document (kind.to_document e)

  abbrev pub message_of : E → Text → Message
  message_of e value = record {
    key = kind.user_id e;
    value = value;
    time_ms = kind.server_timestamp e;
    headers = (codes "namespace", kind.namespace e) ∷ (codes "kind", kind.label) ∷ [];
  }

  -- The loop over the events: those that cannot be serialized are skipped.
  unfoldable pub messages_of : List E → List Message
  messages_of [] = []
  messages_of (e ∷ evts) = elim (transform e) [
    | none ↦ messages_of evts
    | some value ↦ message_of e value ∷ messages_of evts
  ]

module _ {W E P : Type 0} (client : KafkaClient W) (kind : EventKind E P) (json : Json P) where
  unfoldable pub new_plugin : PluginConfig → W → KafkaPlugin W
  new_plugin cfg w = record { cfg = cfg; writer = none; broker = w }

  unfoldable pub initialize : Context → KafkaPlugin W → Error × KafkaPlugin W
  initialize ctx p =
      let compression = if is_empty p.cfg.compression then codes "snappy" else p.cfg.compression in
      (
        none,
        record p {
          cfg = record (p.cfg) { compression = compression };
          writer = some (record {
            brokers = p.cfg.brokers;
            topic = p.cfg.topic;
            batch_size = p.cfg.batch_size;
            batch_timeout = p.cfg.flush_interval;
            compression = compression_codec compression;
          });
        },
      )

  unfoldable pub filter : KafkaPlugin W → E → Bool
  filter p e = true

  abbrev pub publish : Context → List Message → KafkaPlugin W → (ℤ × Error) × KafkaPlugin W
  publish ctx messages p =
      let sent = client.write_messages ctx p.writer messages p.broker in
      let p' = record p { broker = sent.1 } in
      elim (sent.0) [
        | some failure ↦
            ((pos 0, some (codes "failed to write messages to Kafka: " ++ failure)), p')
        | none ↦ ((pos (length messages), none), p')
      ]

  unfoldable pub write_batch : Context → List E → KafkaPlugin W → (ℤ × Error) × KafkaPlugin W
  write_batch ctx evts p =
      let messages = messages_of kind json evts in
      if is_empty evts
      then ((pos 0, none), p)
      else if is_empty messages
      then ((pos 0, some (codes "all events failed transformation")), p)
      else publish ctx messages p

  unfoldable pub close : KafkaPlugin W → Error × KafkaPlugin W
  close p = elim (p.writer) [
    | none ↦ (none, p)
    | some _ ↦ let shut = client.close_writer p.broker in (shut.0, record p { broker = shut.1 })
  ]

  -- The topic must be there, with a partition at least.
  abbrev check_partitions : Text → Result Text ℕ → Error
  check_partitions topic (err failure) = some (codes "failed to read topic partitions: " ++ failure)
  check_partitions topic (ok n) =
      if n == 0 then some (codes "topic " ++ topic ++ codes " has no partitions") else none

  abbrev check_broker : Context → List Text → KafkaPlugin W → Error
  check_broker ctx [] p = some (codes "no kafka brokers configured")
  check_broker ctx (address ∷ _) p = elim (client.dial ctx address p.broker) [
    | some failure ↦ some (codes "kafka health check failed: " ++ failure)
    | none ↦ check_partitions p.cfg.topic (client.read_partitions p.cfg.topic p.broker)
  ]

  unfoldable pub health_check : Context → KafkaPlugin W → Error
  health_check ctx p = check_broker ctx p.cfg.brokers p

  unfoldable pub plugin : StoragePlugin (KafkaPlugin W) E
  unfolding initialize filter write_batch close health_check
  plugin = record {
    name = codes "kafka:" ++ kind.label;
    initialize = initialize;
    filter = filter;
    write_batch = write_batch;
    close = close;
    health_check = health_check;
  }

-- The three plugins.
unfoldable pub gameplay_plugin :
    {W : Type 0}
    → KafkaClient W
    → Json CreateGameplayTelemetryRequest
    → StoragePlugin (KafkaPlugin W) GameplayEvent
gameplay_plugin client json = plugin client gameplay_kind json

unfoldable pub performance_plugin :
    {W : Type 0}
    → KafkaClient W
    → Json CreatePerformanceTelemetryRequest
    → StoragePlugin (KafkaPlugin W) PerformanceEvent
performance_plugin client json = plugin client performance_kind json

unfoldable pub user_behavior_plugin :
    {W : Type 0}
    → KafkaClient W
    → Json CreateUserBehaviorTelemetryRequest
    → StoragePlugin (KafkaPlugin W) UserBehaviorEvent
user_behavior_plugin client json = plugin client user_behavior_kind json
