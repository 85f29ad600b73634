-- ===== src/Settings/Tests.antt =====
-- A configuration that is accepted, and one whose batch size is negative.
use extend_game_telemetry_co.Prelude.{◌≡◌, refl, true, [], codes}
use extend_game_telemetry_co.Prelude.Int.{pos}
use extend_game_telemetry_co.Prelude.Result.{ok}
use extend_game_telemetry_co.Settings.{Config, PluginConfig, validate_config, names_of}

abbrev plain : PluginConfig
plain = record {
  batch_size = pos 100;
  flush_interval = pos 5;
  workers = pos 2;
  retry = record {
    max_retries = pos 3;
    initial_backoff = pos 100;
    max_backoff = pos 10000;
    multiplier = 0;
  };
  s3_bucket = [];
  s3_prefix = [];
  s3_region = [];
  s3_endpoint = [];
  postgres_dsn = [];
  postgres_table = [];
  kafka_brokers = [];
  kafka_topic = [];
  kafka_compression = [];
  mongo_uri = [];
  mongo_database = [];
  mongo_collection = [];
}

abbrev config : Config
config = record {
  ab_extend = record { base_url = []; client_id = []; client_secret = []; namespace = codes "ns" };
  server = record {
    grpc_port = pos 6565;
    http_port = pos 8000;
    base_path = codes "/telemetry";
    log_level = codes "info";
  };
  processor = record {
    workers = pos 10;
    channel_buffer = pos 100;
    default_batch_size = pos 100;
    default_flush_interval = pos 5;
  };
  deduplication = record {
    enabled = true;
    kind = codes "memory";
    ttl = pos 60;
    redis = record { addr = []; password = []; db = pos 0 };
  };
  storage = record {
    enabled_plugins = codes "s3, kafka";
    noop = plain;
    s3 = plain;
    postgres = plain;
    kafka = plain;
    mongo_db = plain;
  };
}

config_accepted : validate_config config ≡ ok tt
unfolding validate_config
config_accepted = refl

-- A list of commas alone passes the check that asks for a plugin, and names none.
commas_accepted :
    (validate_config
        (record config { storage = record (config.storage) { enabled_plugins = codes "," } })
      ≡ ok tt)
    × (names_of (codes ",") ≡ [])
unfolding validate_config
commas_accepted = (refl, refl)
