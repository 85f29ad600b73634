-- ===== src/Bootstrap/Backends.antt =====
-- The storage plugins by name, as the `switch` of InitializeStoragePlugins in
-- internal/bootstrap/plugins.go builds them. A plugin of the interface type is one of the five
-- backends, with its state; a call of a method goes to that backend's.
use extend_game_telemetry_co.Prelude.{
  ◌++◌, Bool, Option, none, some, List, ◌∷◌, Text, codes, text_eq, map, split, trim_space,
  if◌then◌else◌,
}
use extend_game_telemetry_co.Prelude.Int.{ℤ}
use extend_game_telemetry_co.Runtime.{Context}
use extend_game_telemetry_co.Storage.{Error, StoragePlugin, Plugin}
use extend_game_telemetry_co.Plugins.{EventKind, Json}
use extend_game_telemetry_co.Plugins.Postgres
use extend_game_telemetry_co.Plugins.Postgres.{Sql, PostgresPlugin}
use extend_game_telemetry_co.Plugins.S3
use extend_game_telemetry_co.Plugins.S3.{S3Client, S3Plugin}
use extend_game_telemetry_co.Plugins.Kafka
use extend_game_telemetry_co.Plugins.Kafka.{KafkaClient, KafkaPlugin}
use extend_game_telemetry_co.Plugins.MongoDb
use extend_game_telemetry_co.Plugins.MongoDb.{MongoClient, MongoPlugin}
use extend_game_telemetry_co.Plugins.Noop.{noop_plugin}
use extend_game_telemetry_co.Settings

pub data BackendName : Type 0 where
  postgres s3 kafka mongo_db noop : BackendName

-- The cases of the `switch`; `none` is its default.
unfoldable pub known : Text → Option BackendName
known name =
    if text_eq name (codes "postgres")
    then some postgres
    else if text_eq name (codes "s3")
    then some s3
    else if text_eq name (codes "kafka")
    then some kafka
    else if text_eq name (codes "mongodb")
    then some mongo_db
    else if text_eq name (codes "noop")
    then some noop
    else none

-- The remote stores that plugins reach: a database, a bucket, a broker and a document store.
pub record Remotes : Type 1 where
  pub database : Type 0
  pub bucket : Type 0
  pub broker : Type 0
  pub documents : Type 0

-- The state of a plugin, by its backend.
pub data Backend (R : Remotes) : Type 0 where
  in_postgres : PostgresPlugin R.database → Backend R
  in_s3 : S3Plugin R.bucket → Backend R
  in_kafka : KafkaPlugin R.broker → Backend R
  in_mongo_db : MongoPlugin R.documents → Backend R
  in_noop : Backend R

-- The clients of the backends for one kind of event, and the stores as they are at first.
pub record Clients (R : Remotes) (Tx B P : Type 0) : Type 0 where
  pub sql : Sql R.database Tx P
  pub json : Json P
  pub s3 : S3Client R.bucket P
  pub kafka : KafkaClient R.broker
  pub mongo : MongoClient R.documents P B
  pub database : R.database
  pub bucket : R.bucket
  pub broker : R.broker
  pub documents : R.documents

abbrev with_state : {A B X : Type 0} → (A → B) → X × A → X × B
with_state f (x, a) = (x, f a)

module _ {R : Remotes} {Tx B E P : Type 0} (kind : EventKind E P) (clients : Clients R Tx B P) where
  abbrev pg : StoragePlugin (PostgresPlugin R.database) E
  pg = Postgres.plugin clients.sql kind clients.json

  abbrev aws : StoragePlugin (S3Plugin R.bucket) E
  aws = S3.plugin clients.s3 kind

  abbrev stream : StoragePlugin (KafkaPlugin R.broker) E
  stream = Kafka.plugin clients.kafka kind clients.json

  abbrev store : StoragePlugin (MongoPlugin R.documents) E
  store = MongoDb.plugin clients.mongo kind

  abbrev nowhere : StoragePlugin (Unit {0}) E
  nowhere = noop_plugin E

  unfoldable pub name_of : BackendName → Text
  name_of postgres = pg.name
  name_of s3 = aws.name
  name_of kafka = stream.name
  name_of mongo_db = store.name
  name_of noop = nowhere.name

  unfoldable pub initialize : Context → Backend R → Error × Backend R
  initialize ctx (in_postgres p) = with_state in_postgres (pg.initialize ctx p)
  initialize ctx (in_s3 p) = with_state in_s3 (aws.initialize ctx p)
  initialize ctx (in_kafka p) = with_state in_kafka (stream.initialize ctx p)
  initialize ctx (in_mongo_db p) = with_state in_mongo_db (store.initialize ctx p)
  initialize ctx in_noop = with_state (λ _. in_noop) (nowhere.initialize ctx tt)

  unfoldable pub filter : Backend R → E → Bool
  filter (in_postgres p) e = pg.filter p e
  filter (in_s3 p) e = aws.filter p e
  filter (in_kafka p) e = stream.filter p e
  filter (in_mongo_db p) e = store.filter p e
  filter in_noop e = nowhere.filter tt e

  unfoldable pub write_batch : Context → List E → Backend R → (ℤ × Error) × Backend R
  write_batch ctx batch (in_postgres p) = with_state in_postgres (pg.write_batch ctx batch p)
  write_batch ctx batch (in_s3 p) = with_state in_s3 (aws.write_batch ctx batch p)
  write_batch ctx batch (in_kafka p) = with_state in_kafka (stream.write_batch ctx batch p)
  write_batch ctx batch (in_mongo_db p) = with_state in_mongo_db (store.write_batch ctx batch p)
  write_batch ctx batch in_noop = with_state (λ _. in_noop) (nowhere.write_batch ctx batch tt)

  unfoldable pub close : Backend R → Error × Backend R
  close (in_postgres p) = with_state in_postgres (pg.close p)
  close (in_s3 p) = with_state in_s3 (aws.close p)
  close (in_kafka p) = with_state in_kafka (stream.close p)
  close (in_mongo_db p) = with_state in_mongo_db (store.close p)
  close in_noop = with_state (λ _. in_noop) (nowhere.close tt)

  unfoldable pub health_check : Context → Backend R → Error
  health_check ctx (in_postgres p) = pg.health_check ctx p
  health_check ctx (in_s3 p) = aws.health_check ctx p
  health_check ctx (in_kafka p) = stream.health_check ctx p
  health_check ctx (in_mongo_db p) = store.health_check ctx p
  health_check ctx in_noop = nowhere.health_check ctx tt

  -- The methods of a plugin of a backend.
  unfoldable pub methods : BackendName → StoragePlugin (Backend R) E
  methods backend = record {
    name = name_of backend;
    initialize = initialize;
    filter = filter;
    write_batch = write_batch;
    close = close;
    health_check = health_check;
  }

  -- The plugin's configuration, of its backend's part of the service's.
  unfoldable pub configured : Settings.Config → BackendName → Backend R
  configured c postgres = in_postgres (
      Postgres.new_plugin clients.sql kind clients.json
        (record {
          dsn = c.storage.postgres.postgres_dsn;
          table = kind.default_table;
          workers = c.storage.postgres.workers;
        })
        clients.database)
  configured c s3 = in_s3 (
      S3.new_plugin clients.s3 kind
        (record {
          bucket = c.storage.s3.s3_bucket;
          prefix = c.storage.s3.s3_prefix;
          region = c.storage.s3.s3_region;
          endpoint = c.storage.s3.s3_endpoint;
        })
        clients.bucket)
  configured c kafka = in_kafka (
      Kafka.new_plugin clients.kafka kind clients.json
        (record {
          brokers = map trim_space (split b',' c.storage.kafka.kafka_brokers);
          topic = c.storage.kafka.kafka_topic ++ b'.' ∷ kind.label;
          compression = c.storage.kafka.kafka_compression;
          batch_size = c.storage.kafka.batch_size;
          flush_interval = c.storage.kafka.flush_interval;
        })
        clients.broker)
  configured c mongo_db = in_mongo_db (
      MongoDb.new_plugin clients.mongo kind
        (record {
          uri = c.storage.mongo_db.mongo_uri;
          database = c.storage.mongo_db.mongo_database;
          collection = kind.default_table;
          workers = c.storage.mongo_db.workers;
        })
        clients.documents)
  configured c noop = in_noop

  unfoldable pub make_plugin : Settings.Config → BackendName → Plugin (Backend R) E
  make_plugin c backend = record { methods = methods backend; state = configured c backend }
