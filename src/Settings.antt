-- ===== src/Settings.antt =====
-- pkg/config/config.go: the configuration, its list of storage plugins and its validation; and the
-- processor's part of it, as InitializeProcessors of internal/bootstrap/processor.go passes it on.
-- Reading the environment is the `env` package's. Durations are nanoseconds, and the float64
-- multiplier of a retry policy is its 64-bit pattern.
pub mod Enabled
pub mod Accepted
mod Tests
use extend_game_telemetry_co.Prelude.{
  ℕ, Bool, true, false, not, ◌||◌, ◌&&◌, List, [], ◌∷◌, Text, codes, text_eq, is_empty, keep, map,
  split, trim_space, if◌then◌else◌,
}
use extend_game_telemetry_co.Prelude.Int.{ℤ, pos, leb_ℤ, ltb_ℤ}
use extend_game_telemetry_co.Prelude.Result.{Result, ok, err, ◌>>=◌, ◌>>◌, reject_if}
use extend_game_telemetry_co.Processor

pub record AbExtendConfig : Type 0 where
  pub base_url : Text
  pub client_id : Text
  pub client_secret : Text
  pub namespace : Text

pub record ServerConfig : Type 0 where
  pub grpc_port : ℤ
  pub http_port : ℤ
  pub base_path : Text
  pub log_level : Text

pub record ProcessorConfig : Type 0 where
  pub workers : ℤ
  pub channel_buffer : ℤ
  pub default_batch_size : ℤ
  pub default_flush_interval : ℤ

pub record RedisConfig : Type 0 where
  pub addr : Text
  pub password : Text
  pub db : ℤ

pub record DeduplicationConfig : Type 0 where
  pub enabled : Bool
  pub kind : Text
  pub ttl : ℤ
  pub redis : RedisConfig

pub record RetryConfig : Type 0 where
  pub max_retries : ℤ
  pub initial_backoff : ℤ
  pub max_backoff : ℤ
  pub multiplier : ℕ

pub record PluginConfig : Type 0 where
  pub batch_size : ℤ
  pub flush_interval : ℤ
  pub workers : ℤ
  pub retry : RetryConfig
  pub s3_bucket : Text
  pub s3_prefix : Text
  pub s3_region : Text
  pub s3_endpoint : Text
  pub postgres_dsn : Text
  pub postgres_table : Text
  pub kafka_brokers : Text
  pub kafka_topic : Text
  pub kafka_compression : Text
  pub mongo_uri : Text
  pub mongo_database : Text
  pub mongo_collection : Text

pub record StorageConfig : Type 0 where
  pub enabled_plugins : Text
  pub noop : PluginConfig
  pub s3 : PluginConfig
  pub postgres : PluginConfig
  pub kafka : PluginConfig
  pub mongo_db : PluginConfig

pub record Config : Type 0 where
  pub ab_extend : AbExtendConfig
  pub server : ServerConfig
  pub processor : ProcessorConfig
  pub deduplication : DeduplicationConfig
  pub storage : StorageConfig

-- The names between the commas, trimmed, without the empty ones.
abbrev pub names_of : Text → List Text
names_of s = keep (λ name. not (is_empty name)) (map trim_space (split b',' s))

unfoldable pub get_enabled_plugins : Config → List Text
get_enabled_plugins c = names_of c.storage.enabled_plugins

abbrev pub bad_port : ℤ → Bool
bad_port p = leb_ℤ p (pos 0) || ltb_ℤ (pos 65535) p

abbrev pub valid_kind : Text → Bool
valid_kind kind =
    text_eq kind (codes "memory") || text_eq kind (codes "redis") || text_eq kind (codes "noop")

-- The checks in their order; the first that fails names the error, here without the values that
-- the source prints into two of the messages.
unfoldable pub validate_config : Config → Result Text (Unit {0})
validate_config c =
    let dedup = c.deduplication in
    reject_if (bad_port c.server.grpc_port) (codes "invalid GRPC port")
    >> reject_if (bad_port c.server.http_port) (codes "invalid HTTP port")
    >> reject_if (is_empty c.server.base_path) (codes "base_path cannot be empty")
    >> reject_if (leb_ℤ c.processor.workers (pos 0)) (codes "processor workers must be > 0")
    >> reject_if (leb_ℤ c.processor.channel_buffer (pos 0))
        (codes "processor channel buffer must be > 0")
    >> reject_if (dedup.enabled && not (valid_kind dedup.kind)) (codes "invalid deduplication type")
    >> reject_if
        (dedup.enabled && (text_eq dedup.kind (codes "redis") && is_empty dedup.redis.addr))
        (codes "redis addr is required when deduplication type is redis")
    >> reject_if (is_empty (trim_space c.storage.enabled_plugins))
        (codes "at least one storage plugin must be enabled (STORAGE_ENABLED_PLUGINS)")

-- `processorCfg` of InitializeProcessors.
unfoldable pub processor_config : Config → Processor.Config
processor_config c = record {
  workers = c.processor.workers;
  channel_buffer = c.processor.channel_buffer;
  batch_size = c.processor.default_batch_size;
  flush_interval = c.processor.default_flush_interval;
}
