-- ===== src/Plugins/Tests.antt =====
-- Each backend at a batch of gameplay events, with a remote store that is a list.
use extend_game_telemetry_co.Prelude.{
  ℕ, ◌≡◌, refl, true, map, ◌++◌, Option, none, some, List, [], ◌∷◌, Text, codes, length,
}
use extend_game_telemetry_co.Prelude.Int.{pos}
use extend_game_telemetry_co.Prelude.Result.{Result, ok, err}
use extend_game_telemetry_co.Runtime.{background}
use extend_game_telemetry_co.Events.Gameplay.{GameplayEvent, CreateGameplayTelemetryRequest}
use extend_game_telemetry_co.Plugins.{Json, gameplay_kind}
use extend_game_telemetry_co.Plugins.Postgres
use extend_game_telemetry_co.Plugins.Postgres.{Sql, Insert, Arg, PostgresPlugin, rows_from}
use extend_game_telemetry_co.Plugins.Postgres.Journal.{Rows, row_of}
use extend_game_telemetry_co.Plugins.S3
use extend_game_telemetry_co.Plugins.S3.{S3Client, S3Plugin, ObjectKey, PutObjectInput, object_of}
use extend_game_telemetry_co.Plugins.S3.Objects.{key_of, same_millisecond_overwrites}
use extend_game_telemetry_co.Plugins.Kafka.{KafkaClient, KafkaPlugin}
use extend_game_telemetry_co.Plugins.MongoDb.{MongoClient, MongoPlugin, Bson}

abbrev Request : Type 0
Request = CreateGameplayTelemetryRequest

abbrev event_of : Text → GameplayEvent
event_of user = record {
  namespace = codes "ns";
  user_id = user;
  server_timestamp = pos 5;
  source_ip = codes "::1";
  payload = some (record {
    event_id = codes "died";
    version = codes "1";
    timestamp = codes "10:00";
    game_data = none;
  });
}

abbrev batch : List GameplayEvent
batch = event_of (codes "u1") ∷ event_of (codes "u2") ∷ []

abbrev json : Json Request
json = record { marshal = λ v. some (codes "{}"); marshal_document = λ d. some (codes "{}") }

-- A database that is a list of inserted statements; a transaction holds what it will add.
abbrev sql : Sql (List Insert) (List Insert) Request
sql = record {
  open_db = λ dsn n idle w. (none, w);
  ping = λ ctx w. none;
  create_table = λ ctx table columns w. (none, w);
  begin_tx = λ ctx w. ok [];
  exec = λ ctx statement args tx. ok (pos (length statement.values), statement ∷ tx);
  commit = λ tx w. (none, tx);
  close = λ w. (none, w);
}

abbrev postgres : PostgresPlugin (List Insert)
postgres = record {
  cfg = record { dsn = codes "postgres://"; table = codes "gameplay_events"; workers = pos 2 };
  connected = true;
  database = [];
}

-- A database that is a list of the rows of one table, and refuses a batch of more than one row.
abbrev small : Sql (Rows Request) (Rows Request) Request
small = record {
  open_db = λ dsn n idle w. (none, w);
  ping = λ ctx w. none;
  create_table = λ ctx table columns w. (none, w);
  begin_tx = λ ctx w. ok [];
  exec = λ ctx statement args tx. elim (map (row_of args) statement.values) [
    | [] ↦ ok (pos 0, tx ++ [])
    | row ∷ rows ↦ elim rows [
      | [] ↦ ok (pos 1, tx ++ row ∷ [])
      | _ ∷ _ ↦ err (codes "too many rows")
    ]
  ];
  commit = λ tx w. (none, w ++ tx);
  close = λ w. (none, w);
}

abbrev postgres_of_rows : PostgresPlugin (Rows Request)
postgres_of_rows = record { cfg = postgres.cfg; connected = true; database = [] }

-- A bucket that keeps its latest object.
abbrev s3 : S3Client (Option PutObjectInput) Request
s3 = record {
  set_up = λ ctx region endpoint w. (none, w);
  now = λ w. record { year = pos 2025; month = 3; day = 4; unix_milli = pos 7 };
  marshal_indent = λ docs. ok (codes "[]");
  put_object = λ ctx input w. (none, some input);
  head_bucket = λ ctx bucket w. none;
}

abbrev latest : Text → ObjectKey → Option PutObjectInput → Option Text
latest bucket key none = none
latest bucket key (some input) = some input.body

abbrev s3_plugin : S3Plugin (Option PutObjectInput)
s3_plugin = record {
  cfg = record {
    bucket = codes "b";
    prefix = codes "telemetry";
    region = codes "us-east-1";
    endpoint = [];
  };
  remote = none;
}

same_millisecond_overwrites_example :
    (latest
        (codes "b")
        (key_of s3 gameplay_kind batch s3_plugin)
        (S3.write_batch s3 gameplay_kind background batch s3_plugin).1.remote
      ≡ some (codes "[]"))
    × ((S3.write_batch s3 gameplay_kind background batch
          (S3.write_batch s3 gameplay_kind background batch s3_plugin).1).0
        ≡ (pos 2, none))
    × (latest
          (codes "b")
          (key_of s3 gameplay_kind batch s3_plugin)
          (S3.write_batch s3 gameplay_kind background batch
            (S3.write_batch s3 gameplay_kind background batch s3_plugin).1).1.remote
        ≡ some (codes "[]"))
same_millisecond_overwrites_example =
    same_millisecond_overwrites s3 gameplay_kind latest background batch batch s3_plugin
      (S3.write_batch s3 gameplay_kind background batch s3_plugin).1 (λ ctx input w h. refl) refl
      refl refl refl refl refl refl refl refl

abbrev kafka : KafkaClient ℕ
kafka = record {
  write_messages = λ ctx writer messages w. (none, length messages);
  close_writer = λ w. (none, w);
  dial = λ ctx address w. none;
  read_partitions = λ topic w. ok 1;
}

abbrev kafka_plugin : KafkaPlugin ℕ
kafka_plugin = record {
  cfg = record {
    brokers = [];
    topic = codes "t";
    compression = [];
    batch_size = pos 1;
    flush_interval = pos 1;
  };
  writer = none;
  broker = 0;
}

-- A client whose round trip of a payload fails.
abbrev mongo : MongoClient (List (Bson Request ℕ)) Request ℕ
mongo = record {
  connect = λ ctx uri n w. (none, w);
  ping = λ ctx w. none;
  disconnect = λ ctx w. (none, w);
  create_indexes = λ ctx database collection w. (none, w);
  insert_many = λ ctx database collection docs w. ((some (length docs), none), docs);
  now = λ w. pos 9;
  round_trip = λ v. none;
}

abbrev mongo_plugin : MongoPlugin (List (Bson Request ℕ))
mongo_plugin = record {
  cfg = record {
    uri = codes "mongodb://";
    database = codes "telemetry";
    collection = codes "gameplay_events";
    workers = pos 2;
  };
  connected = true;
  remote = [];
}
