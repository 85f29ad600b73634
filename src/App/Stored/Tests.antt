-- ===== src/App/Stored/Tests.antt =====
-- One gameplay event on its way to a collection.
use mathlib.Core.Option
use extend_game_telemetry_co.Prelude.{
  ◌++◌, ◌≡◌, refl, false, none, some, List, [], ◌∷◌, Text, codes, length, ℕ,
}
use extend_game_telemetry_co.Prelude.Int.{pos}
use extend_game_telemetry_co.Prelude.Result.{ok}
use extend_game_telemetry_co.Runtime.{background}
use extend_game_telemetry_co.Storage.{Plugin}
use extend_game_telemetry_co.Events.Gameplay.{
  GameplayEvent, CreateGameplayTelemetryRequest, gameplay_keyed,
}
use extend_game_telemetry_co.Dedup.Memory
use extend_game_telemetry_co.Dedup.Memory.{memory_deduplicator, new_memory_deduplicator, lookup}
use extend_game_telemetry_co.Plugins.{gameplay_kind}
use extend_game_telemetry_co.Plugins.MongoDb
use extend_game_telemetry_co.Plugins.MongoDb.{MongoClient, Bson}
use extend_game_telemetry_co.Plugins.MongoDb.Journal as MongoJournal
use extend_game_telemetry_co.App.Stored.{collection_of}
use extend_game_telemetry_co.Plugins.Kafka.{KafkaClient}
use extend_game_telemetry_co.Batcher
use extend_game_telemetry_co.Processor.{new_processor, advance, check_duplicate, mark_seen, offer}
use extend_game_telemetry_co.System.{
  System, Action, submits, proceeds, receives, stores, hands, writes, stops, next, boot, start,
  launch, step, run, settle, on_caller,
}
use extend_game_telemetry_co.Settings.{Config, processor_config}
use extend_game_telemetry_co.Bootstrap.Deduplicators.{
  AnyDeduplicator, build_deduplicator, any_deduplicator, is_duplicate, mark,
}
use extend_game_telemetry_co.Bootstrap.Backends.{
  mongo_db, Remotes, Backend, Clients, make_plugin, methods, configured, initialize,
}
use extend_game_telemetry_co.Bootstrap.StoragePlugins.{initialize_plugin}
use extend_game_telemetry_co.Bootstrap.Sample.{config, redis, clients_with}
use extend_game_telemetry_co.App.{Plan, start_processor}

-- The payloads of the test's kind, and the collections by name.
abbrev P : Type 0
P = CreateGameplayTelemetryRequest

abbrev Collections : Type 0
Collections = List (Bson P ℕ)

abbrev mongo : MongoClient Collections P ℕ
mongo = record {
  connect = λ ctx uri n w. (none, w);
  ping = λ ctx w. none;
  disconnect = λ ctx w. (none, w);
  create_indexes = λ ctx database collection w. (none, w);
  insert_many =
      λ ctx database collection documents w. ((some (length documents), none), w ++ documents);
  now = λ w. pos 7;
  round_trip = λ v. some 3;
}

abbrev documents_in : Text → Text → Collections → List (Bson P ℕ)
documents_in database collection w = w

abbrev forgetful : KafkaClient (Unit {0})
forgetful = record {
  write_messages = λ ctx writer messages w. (none, w);
  close_writer = λ w. (none, w);
  dial = λ ctx addr w. none;
  read_partitions = λ topic w. ok 1;
}

abbrev R : Remotes
R = record { database = Unit {0}; bucket = Unit {0}; broker = Unit {0}; documents = Collections }

abbrev clients : Clients R (Unit {0}) ℕ P
clients = record {
  sql = (clients_with forgetful tt P).sql;
  json = record { marshal = λ v. some (codes "{}"); marshal_document = λ d. some (codes "{}") };
  s3 = (clients_with forgetful tt P).s3;
  kafka = forgetful;
  mongo = mongo;
  database = tt;
  bucket = tt;
  broker = tt;
  documents = [];
}

abbrev stored_config : Config
stored_config = record config {
  storage = record (config.storage) {
    mongo_db = record (config.storage.mongo_db) { mongo_uri = codes "uri" };
  };
}

abbrev same : Text → Text
same key = key

abbrev died : GameplayEvent
died = record {
  namespace = codes "ns";
  user_id = codes "u1";
  server_timestamp = pos 5;
  source_ip = codes "::1";
  payload = none;
}

opened_mongo_db :
    (p : Plugin (Backend R) GameplayEvent) × (initialize_plugin background
        (make_plugin gameplay_kind clients stored_config mongo_db)
      ≡ ok p)
    × (collection_of gameplay_kind clients documents_in (codes "telemetry") p.state ≡ [])
unfolding make_plugin methods configured initialize MongoDb.plugin MongoDb.initialize
    MongoDb.new_plugin
opened_mongo_db = (_, refl, refl)

begun :
    (s : System (AnyDeduplicator (Unit {0})) (Backend R) GameplayEvent) × (start_processor redis
        same
        (λ c. tt)
        gameplay_keyed
        stored_config
        (opened_mongo_db.0 ∷ [])
      ≡ some s)
unfolding start_processor boot new_processor start launch processor_config Batcher.new_batcher
    Option.bind
begun = (_, refl)

abbrev arrives : List (Action GameplayEvent)
arrives = submits died ∷ proceeds 0 1 false ∷ proceeds 0 1 false ∷ proceeds 0 1 false ∷ []

abbrev drains : Plan GameplayEvent
drains = record {
  before = receives 0 ∷ [];
  during = stores 0 2 ∷ stops 0 ∷ hands 0 0 ∷ writes 0 ∷ [];
  timed_out = false;
  after = [];
}

queued_one :
    (s : System (AnyDeduplicator (Unit {0})) (Backend R) GameplayEvent) × (run arrives begun.0
      ≡ next s)
unfolding begun run step settle on_caller advance check_duplicate mark_seen offer build_deduplicator
    any_deduplicator is_duplicate mark memory_deduplicator Memory.is_duplicate Memory.mark
    new_memory_deduplicator lookup
queued_one = (_, refl)

abbrev Ended : Type 0
Ended = System (AnyDeduplicator (Unit {0})) (Backend R) GameplayEvent
