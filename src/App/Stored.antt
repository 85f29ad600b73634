-- ===== src/App/Stored.antt =====
-- From `Submit` to the database: the MongoDB plugin that internal/bootstrap/plugins.go makes, in a
-- processor that internal/bootstrap/processor.go starts and
-- internal/app/app.go shuts down.
mod Tests
use mathlib.Core.Path.{subst}
use extend_game_telemetry_co.Prelude.{
  ◌∙◌, sym, ap, true, Option, List, [], ◌∷◌, ◌++◌, Text, images, map, is_empty, codes,
  if◌then◌else◌,
}
use extend_game_telemetry_co.Prelude.Int.{ℤ}
use extend_game_telemetry_co.Prelude.Result.{Result, err}
use extend_game_telemetry_co.Storage.{StoragePlugin}
use extend_game_telemetry_co.Processor.Fanout.{Journals, IsSink}
use extend_game_telemetry_co.System.{System}
use extend_game_telemetry_co.Settings
use extend_game_telemetry_co.Plugins.{EventKind, Json}
use extend_game_telemetry_co.Plugins.MongoDb
use extend_game_telemetry_co.Plugins.MongoDb.{Bson}
use extend_game_telemetry_co.Plugins.MongoDb.Journal as MongoJournal
use extend_game_telemetry_co.Plugins.MongoDb.Journal.{untimed}
use extend_game_telemetry_co.Bootstrap.Backends.{
  BackendName, postgres, mongo_db, Remotes, Backend, in_postgres, in_s3, in_kafka, in_mongo_db,
  in_noop, Clients,
}

module _ {R : Remotes} {Tx B E P : Type 0} (kind : EventKind E P) (clients : Clients R Tx B P) where
  module _ (stored : Text → Text → R.documents → List (Bson P B)) (database : Text) where
    -- The documents of the kind's collection, without their times.
    abbrev pub collection_of : Backend R → List (Bson P B)
    collection_of (in_mongo_db p) = map untimed (stored database kind.default_table p.remote)
    collection_of (in_postgres p) = []
    collection_of (in_kafka p) = []
    collection_of (in_s3 p) = []
    collection_of in_noop = []

  -- The plugin's part of the configuration.
  abbrev mongo_db_part : Settings.Config → MongoDb.PluginConfig
  mongo_db_part c = record {
    uri = c.storage.mongo_db.mongo_uri;
    database = c.storage.mongo_db.mongo_database;
    collection = kind.default_table;
    workers = c.storage.mongo_db.workers;
  }
