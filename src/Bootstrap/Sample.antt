-- ===== src/Bootstrap/Sample.antt =====
-- A configuration and clients for the tests: stores that keep nothing and never fail.
use extend_game_telemetry_co.Prelude.{true, none, some, [], codes}
use extend_game_telemetry_co.Prelude.Int.{pos}
use extend_game_telemetry_co.Prelude.Result.{ok}
use extend_game_telemetry_co.Dedup.Redis.{RedisClient}
use extend_game_telemetry_co.Plugins.Kafka.{KafkaClient}
use extend_game_telemetry_co.Settings.{Config, PluginConfig}
use extend_game_telemetry_co.Bootstrap.Backends.{Remotes, Clients}
use extend_game_telemetry_co.Bootstrap.StoragePlugins.{AllClients}

abbrev plain : PluginConfig
plain = record {
  batch_size = pos 100;
  flush_interval = pos 5;
  workers = pos 2;
  retry = record {
    max_retries = pos 3;
    initial_backoff = pos 100;
    max_backoff = pos 10000;
    multiplier = 0;
  };
  s3_bucket = codes "b";
  s3_prefix = [];
  s3_region = [];
  s3_endpoint = [];
  postgres_dsn = [];
  postgres_table = [];
  kafka_brokers = codes "k1:9092, k2:9092";
  kafka_topic = codes "telemetry";
  kafka_compression = [];
  mongo_uri = [];
  mongo_database = [];
  mongo_collection = [];
}

-- Two backends and a name that is not known.
abbrev pub config : Config
config = record {
  ab_extend = record { base_url = []; client_id = []; client_secret = []; namespace = codes "ns" };
  server = record {
    grpc_port = pos 6565;
    http_port = pos 8000;
    base_path = codes "/telemetry";
    log_level = codes "info";
  };
  processor = record {
    workers = pos 1;
    channel_buffer = pos 3;
    default_batch_size = pos 2;
    default_flush_interval = pos 5;
  };
  deduplication = record {
    enabled = true;
    kind = codes "memory";
    ttl = pos 60;
    redis = record { addr = []; password = []; db = pos 0 };
  };
  storage = record {
    enabled_plugins = codes "s3, tape, kafka";
    noop = plain;
    s3 = plain;
    postgres = plain;
    kafka = plain;
    mongo_db = plain;
  };
}

abbrev pub remotes_with : Type 0 → Remotes
remotes_with W = record { database = Unit {0}; bucket = Unit {0}; broker = W; documents = Unit {0} }

abbrev pub remotes : Remotes
remotes = remotes_with (Unit {0})

abbrev pub redis : RedisClient (Unit {0})
redis = record {
  exists = λ ctx k c. ok 0;
  set = λ ctx k v ttl c. (none, c);
  ping = λ ctx c. none;
  info = λ ctx part c. ok [];
  close = λ c. (none, c);
}

abbrev pub clients_with :
    {W : Type 0}
    → KafkaClient W
    → W
    → (P : Type 0) → Clients (remotes_with W) (Unit {0}) (Unit {0}) P
clients_with stream broker P = record {
  sql = record {
    open_db = λ dsn n idle w. (none, w);
    ping = λ ctx w. none;
    create_table = λ ctx table columns w. (none, w);
    begin_tx = λ ctx w. ok tt;
    exec = λ ctx statement args tx. ok (pos 0, tx);
    commit = λ tx w. (none, w);
    close = λ w. (none, w);
  };
  json = record { marshal = λ v. some (codes "{}"); marshal_document = λ d. some (codes "{}") };
  s3 = record {
    set_up = λ ctx region endpoint w. (none, w);
    now = λ w. record { year = pos 2025; month = 3; day = 4; unix_milli = pos 7 };
    marshal_indent = λ docs. ok (codes "[]");
    put_object = λ ctx input w. (none, w);
    head_bucket = λ ctx bucket w. none;
  };
  kafka = stream;
  mongo = record {
    connect = λ ctx uri n w. (none, w);
    ping = λ ctx w. none;
    disconnect = λ ctx w. (none, w);
    create_indexes = λ ctx database collection w. (none, w);
    insert_many = λ ctx database collection documents w. ((none, none), w);
    now = λ w. pos 7;
    round_trip = λ v. none;
  };
  database = tt;
  bucket = tt;
  broker = broker;
  documents = tt;
}

abbrev forgetful : KafkaClient (Unit {0})
forgetful = record {
  write_messages = λ ctx writer messages w. (none, w);
  close_writer = λ w. (none, w);
  dial = λ ctx addr w. none;
  read_partitions = λ topic w. ok 1;
}

abbrev clients_for : (P : Type 0) → Clients remotes (Unit {0}) (Unit {0}) P
clients_for P = clients_with forgetful tt P

abbrev pub clients : AllClients remotes (Unit {0}) (Unit {0})
clients = record {
  for_user_behavior = clients_for _;
  for_gameplay = clients_for _;
  for_performance = clients_for _;
}
