-- ===== src/App/Published/Tests.antt =====
-- One gameplay event on its way to a topic that is a list of messages.
use mathlib.Core.Option
use extend_game_telemetry_co.Prelude.{
  ◌++◌, ◌≡◌, refl, false, none, some, List, [], ◌∷◌, Text, codes,
}
use extend_game_telemetry_co.Prelude.Int.{pos}
use extend_game_telemetry_co.Prelude.Result.{ok}
use extend_game_telemetry_co.Runtime.{background}
use extend_game_telemetry_co.Storage.{Plugin}
use extend_game_telemetry_co.Events.Gameplay.{
  GameplayEvent, CreateGameplayTelemetryRequest, gameplay_keyed,
}
use extend_game_telemetry_co.Dedup.Memory
use extend_game_telemetry_co.Dedup.Memory.{memory_deduplicator, new_memory_deduplicator, lookup}
use extend_game_telemetry_co.Plugins.{gameplay_kind}
use extend_game_telemetry_co.Plugins.Kafka
use extend_game_telemetry_co.Plugins.Kafka.{KafkaClient, Message}
use extend_game_telemetry_co.Batcher
use extend_game_telemetry_co.Processor.{new_processor, advance, check_duplicate, mark_seen, offer}
use extend_game_telemetry_co.System.{
  System, Action, submits, proceeds, receives, stores, hands, writes, stops, next, boot, start,
  launch, step, run, settle, on_caller,
}
use extend_game_telemetry_co.Settings.{processor_config}
use extend_game_telemetry_co.Bootstrap.Deduplicators.{
  AnyDeduplicator, build_deduplicator, any_deduplicator, is_duplicate, mark,
}
use extend_game_telemetry_co.Bootstrap.Backends.{
  kafka, Remotes, Backend, Clients, make_plugin, methods, configured, initialize,
}
use extend_game_telemetry_co.Bootstrap.StoragePlugins.{initialize_plugin}
use extend_game_telemetry_co.Bootstrap.Sample.{config, remotes_with, redis, clients_with}
use extend_game_telemetry_co.App.{Plan, start_processor}

abbrev stream : KafkaClient (List Message)
stream = record {
  write_messages = λ ctx writer messages w. (none, w ++ messages);
  close_writer = λ w. (none, w);
  dial = λ ctx addr w. none;
  read_partitions = λ topic w. ok 1;
}

abbrev topic : List Message → List Message
topic messages = messages

abbrev R : Remotes
R = remotes_with (List Message)

abbrev clients : Clients R (Unit {0}) (Unit {0}) CreateGameplayTelemetryRequest
clients = clients_with stream [] CreateGameplayTelemetryRequest

abbrev same : Text → Text
same key = key

abbrev died : GameplayEvent
died = record {
  namespace = codes "ns";
  user_id = codes "u1";
  server_timestamp = pos 5;
  source_ip = codes "::1";
  payload = none;
}

opened :
    (p : Plugin (Backend R) GameplayEvent) × (initialize_plugin background
        (make_plugin gameplay_kind clients config kafka)
      ≡ ok p)
unfolding make_plugin methods configured initialize Kafka.plugin Kafka.initialize Kafka.new_plugin
opened = (_, refl)

begun :
    (s : System (AnyDeduplicator (Unit {0})) (Backend R) GameplayEvent) × (start_processor redis
        same
        (λ c. tt)
        gameplay_keyed
        config
        (opened.0 ∷ [])
      ≡ some s)
unfolding start_processor boot new_processor start launch processor_config Batcher.new_batcher
    Option.bind
begun = (_, refl)

abbrev arrives : List (Action GameplayEvent)
arrives = submits died ∷ proceeds 0 1 false ∷ proceeds 0 1 false ∷ proceeds 0 1 false ∷ []

abbrev drains : Plan GameplayEvent
drains = record {
  before = receives 0 ∷ [];
  during = stores 0 2 ∷ stops 0 ∷ hands 0 0 ∷ writes 0 ∷ [];
  timed_out = false;
  after = [];
}

queued_one :
    (s : System (AnyDeduplicator (Unit {0})) (Backend R) GameplayEvent) × (run arrives begun.0
      ≡ next s)
unfolding begun run step settle on_caller advance check_duplicate mark_seen offer build_deduplicator
    any_deduplicator is_duplicate mark memory_deduplicator Memory.is_duplicate Memory.mark
    new_memory_deduplicator lookup
queued_one = (_, refl)

abbrev Ended : Type 0
Ended = System (AnyDeduplicator (Unit {0})) (Backend R) GameplayEvent
