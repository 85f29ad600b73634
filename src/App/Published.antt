-- ===== src/App/Published.antt =====
-- From `Submit` to the broker: the Kafka plugin that internal/bootstrap/plugins.go makes, in a processor
-- that internal/bootstrap/processor.go starts and internal/app/app.go shuts down.
mod Tests
use extend_game_telemetry_co.Prelude.{
  ◌∙◌, sym, ap, Option, none, List, [], ◌∷◌, ◌++◌, images, arith,
}
use extend_game_telemetry_co.System.{System}
use extend_game_telemetry_co.Settings
use extend_game_telemetry_co.Plugins.{EventKind, Json}
use extend_game_telemetry_co.Plugins.Kafka
use extend_game_telemetry_co.Plugins.Kafka.{KafkaPlugin, Message}
use extend_game_telemetry_co.Bootstrap.Backends.{
  Remotes, Backend, in_postgres, in_s3, in_kafka, in_mongo_db, in_noop, Clients,
}

module _ {R : Remotes} {Tx B E P : Type 0} (kind : EventKind E P) (clients : Clients R Tx B P)
    (published : R.broker → List Message) where
  -- What the topic of a Kafka plugin holds.
  abbrev pub topic_of : Backend R → List Message
  topic_of (in_kafka p) = published p.broker
  topic_of (in_postgres p) = []
  topic_of (in_s3 p) = []
  topic_of (in_mongo_db p) = []
  topic_of in_noop = []
