-- ===== src/App/Tests.antt =====
-- The service of a small configuration, and a processor that is shut down.
use mathlib.Core.Option
use extend_game_telemetry_co.Prelude.{
  Bool, ◌||◌, text_eq, if◌then◌else◌, ap, sym, ◌+◌, images-some, yields, ℕ, ◌++◌, ◌≡◌, refl, true,
  false, ◌&&◌, Option, none, some, List, [], ◌∷◌, Text, codes, ltb, count, get_elem?, All, arith,
}
use extend_game_telemetry_co.Prelude.Int.{pos}
use extend_game_telemetry_co.Prelude.Result.{Result, ok}
use extend_game_telemetry_co.Runtime.{background}
use extend_game_telemetry_co.Storage.{StoragePlugin, Plugin}
use extend_game_telemetry_co.Events.Gameplay.{GameplayEvent, gameplay_keyed, deduplication_key}
use extend_game_telemetry_co.Plugins.S3
use extend_game_telemetry_co.Plugins.Kafka
use extend_game_telemetry_co.Batcher
use extend_game_telemetry_co.Processor
use extend_game_telemetry_co.Processor.{
  Processor, DedupObject, new_processor, count_processed, write_to_plugin, advance, check_duplicate,
  mark_seen, offer, await_room, close_input, force_exit, submit,
}
use extend_game_telemetry_co.Processor.Fanout.{Journals}
use extend_game_telemetry_co.Processor.Once.{firsts, submit_each}
use extend_game_telemetry_co.System.{
  System, Action, submits, proceeds, receives, stores, hands, writes, stops, next, boot, start,
  launch, step, run, settle, on_worker, on_receive, on_hand, on_write, on_caller, on_close, receive,
  store, fire, stop,
}
use extend_game_telemetry_co.Settings.{
  Config, validate_config, processor_config, get_enabled_plugins,
}
use extend_game_telemetry_co.Bootstrap.Deduplicators.{AnyDeduplicator}
use extend_game_telemetry_co.Bootstrap.Deduplicators.Choice.{print_of, IsUp}
use extend_game_telemetry_co.Bootstrap.Backends.{
  Backend, known, configured, initialize, make_plugin, methods,
}
use extend_game_telemetry_co.Bootstrap.StoragePlugins.{
  StoragePlugins, initialize_storage_plugins, close_plugin,
}
use extend_game_telemetry_co.Bootstrap.StoragePlugins.Loading.{known_names, CanOpen}
use extend_game_telemetry_co.Bootstrap.Sample.{config, remotes, redis, clients}
use extend_game_telemetry_co.App.{
  Application, started, Plan, namespace_of, start_processor, new, wind_down, close_deduplicator,
  close_stores, shut_down,
}
use extend_game_telemetry_co.App.Start.{IsReady, new_starts}
use extend_game_telemetry_co.App.Shutdown.{shut_down_stores}
use extend_game_telemetry_co.Service.{replied, reply_to_submit, submit_result}
use extend_game_telemetry_co.App.Deduplicated.{memory_once, redis_once}
use extend_game_telemetry_co.Dedup.Redis.{RedisClient}
use extend_game_telemetry_co.Dedup.Redis.Marks.{IsStore}

can_open : All (CanOpen clients background config) (known_names (get_enabled_plugins config))
unfolding get_enabled_plugins known make_plugin methods configured initialize S3.plugin
    S3.initialize S3.new_plugin Kafka.plugin Kafka.initialize Kafka.new_plugin
can_open = (((_, refl), (_, refl), (_, refl)), (((_, refl), (_, refl), (_, refl)), tt))

config_accepted : validate_config config ≡ ok tt
unfolding validate_config
config_accepted = refl

abbrev same : Text → Text
same key = key

new_starts_example :
    (app : Application (Unit {0}) remotes) × (plugins : StoragePlugins remotes) × (new redis same
        (λ c. tt)
        clients
        background
        (ok config)
        []
        none
        none
      ≡ started app)
    × (initialize_storage_plugins clients background config ≡ ok plugins)
    × (app.config ≡ config)
    × (app.namespace ≡ namespace_of [])
    × IsReady plugins.user_behavior app.user_behavior
    × IsReady plugins.gameplay app.gameplay
    × IsReady plugins.performance app.performance
new_starts_example =
    new_starts redis same (λ c. tt) clients background config 2 [] config_accepted refl can_open

-- The key of an event is its user here, since nothing else differs.
abbrev event_of : Text → GameplayEvent
event_of user = record {
  namespace = codes "ns";
  user_id = user;
  server_timestamp = pos 5;
  source_ip = codes "::1";
  payload = none;
}

abbrev twice : List (ℕ × GameplayEvent)
twice = (1, event_of (codes "u1")) ∷ (2, event_of (codes "u2")) ∷ (3, event_of (codes "u1")) ∷ []

abbrev no_plugins : List (Plugin (Backend remotes) GameplayEvent)
no_plugins = []

gameplay_starts :
    (s : System (AnyDeduplicator (Unit {0})) (Backend remotes) GameplayEvent) × (start_processor
        redis same
        (λ c. tt)
        gameplay_keyed
        config
        no_plugins
      ≡ some s)
unfolding start_processor boot new_processor start launch processor_config Batcher.new_batcher
    Option.bind
gameplay_starts = (_, refl)

memory_once_example :
    (p : Processor (AnyDeduplicator (Unit {0})) (Backend remotes) GameplayEvent) × (submit_each true
        twice gameplay_starts.0.proc
      ≡ some p)
    × (p.input_chan.buffer ≡ firsts (print_of redis same gameplay_keyed) (λ _. false) twice)
memory_once_example =
    memory_once redis same (λ c. tt) gameplay_keyed config no_plugins true twice gameplay_starts.1
      refl refl (omega arith)

-- The third event has the key of the first.
first_two :
    firsts (print_of redis same gameplay_keyed) (λ _. false) twice
    ≡ event_of (codes "u1") ∷ event_of (codes "u2") ∷ []
unfolding deduplication_key
first_two = refl

-- A backend of numbers below 9, which forgets nothing when it is closed.
abbrev journal : StoragePlugin (List ℕ) ℕ
journal = record {
  name = codes "journal";
  initialize = λ ctx st. (none, st);
  filter = λ st e. ltb e 9;
  write_batch = λ ctx batch st. ((pos 0, none), st ++ batch);
  close = λ st. (none, st);
  health_check = λ ctx st. none;
}

journal-Journals :
    Journals {S = List ℕ} (λ st. Unit {0}) (λ st. st) (λ e. some e) (λ e. ltb e 9) journal
journal-Journals = record {
  filters = λ st good. refl;
  appends = λ ctx batch st good. ap (λ xs. st ++ xs) (sym (images-some batch));
  stays = λ ctx batch st good. tt;
}

abbrev backend : Plugin (List ℕ) ℕ
backend = record { methods = journal; state = [] }

abbrev small : Processor.Config
small = record {
  workers = pos 1;
  channel_buffer = pos 2;
  batch_size = pos 2;
  flush_interval = pos 5;
}

abbrev no_dedup : Option (DedupObject (Unit {0}) ℕ)
no_dedup = none

abbrev System' : Type 0
System' = System (Unit {0}) (List ℕ) ℕ

boots : (s : System') × (boot small (backend ∷ []) no_dedup ≡ some s)
unfolding boot new_processor start launch Batcher.new_batcher Option.bind
boots = (_, refl)

-- Two events are queued, one of them received, when the shutdown begins.
abbrev before : List (Action ℕ)
before =
    submits 4
    ∷ proceeds 0 0 false
    ∷ proceeds 0 0 false
    ∷ proceeds 0 0 false
    ∷ receives 0
    ∷ submits 7
    ∷ proceeds 0 0 false
    ∷ proceeds 0 0 false
    ∷ proceeds 0 0 false
    ∷ []

abbrev drains : Plan ℕ
drains = record {
  before = stores 0 1 ∷ [];
  during = receives 0 ∷ stores 0 2 ∷ hands 0 0 ∷ writes 0 ∷ stops 0 ∷ [];
  timed_out = false;
  after = [];
}

busy : (s : System') × (run before boots.0 ≡ next s)
unfolding boots run step settle on_caller on_receive receive advance check_duplicate mark_seen offer
    await_room
busy = (_, refl)

ended :
    (s : System') × (shut_down drains busy.0 ≡ next s)
    × (s.proc.ctx.cancelled ≡ false)
    × (s.accepted ≡ 4 ∷ 7 ∷ [])
unfolding boots busy shut_down wind_down close_stores close_deduplicator run step settle on_worker
    on_receive on_hand on_write on_caller on_close receive store fire stop advance check_duplicate
    mark_seen offer await_room close_input count_processed write_to_plugin Batcher.add Batcher.flush
    Batcher.flush_all Batcher.start_timer
ended = (_, refl, refl, refl)

shut_down_stores_example :
    (stored : Plugin (List ℕ) ℕ) × (get_elem? ended.0.proc.plugins 0 ≡ some (close_plugin stored))
    × (count (λ _. true) stored.state
        ≡ count (λ e. ltb e 9 && yields (λ _. true) (λ x. some x) e) ended.0.accepted)
shut_down_stores_example =
    shut_down_stores journal-Journals 0 small (backend ∷ []) no_dedup (λ _. true) before drains
      boots.1 (omega arith) busy.1 ended.1 refl ended.2 refl (refl, tt, refl)

one_queued :
    (s : System') × (run
        (submits 4 ∷ proceeds 0 0 false ∷ proceeds 0 0 false ∷ proceeds 0 0 false ∷ receives 0 ∷ [])
        boots.0
      ≡ next s)
unfolding boots run step settle on_caller on_receive receive advance check_duplicate mark_seen offer
    await_room
one_queued = (_, refl)

answered :
    (p : Processor (Unit {0}) (List ℕ) ℕ) × (submit_result 0 false (ok 7) one_queued.0.proc
      ≡ replied (ok tt) p)
unfolding boots one_queued reply_to_submit submit advance check_duplicate mark_seen offer await_room
answered = (_, refl)

abbrev acknowledged : System'
acknowledged = record (one_queued.0) {
  proc = answered.0;
  submissions = one_queued.0.submissions + 1;
  accepted = one_queued.0.accepted ++ 7 ∷ [];
}

-- A server that keeps the keys that were set.
abbrev is_key : Text → List Text → Bool
is_key k [] = false
is_key k (j ∷ keys) = text_eq j k || is_key k keys

abbrev server : RedisClient (List Text)
server = record {
  exists = λ ctx k keys. ok (if is_key k keys then 1 else 0);
  set = λ ctx k v ttl keys. (none, k ∷ keys);
  ping = λ ctx keys. none;
  info = λ ctx part keys. ok [];
  close = λ keys. (none, keys);
}

counts_lem :
    (b : Bool) (n : ℕ) (m : Result Text ℕ) → m ≡ ok (if b then 1 else 0) → m ≡ ok n → ltb 0 n ≡ b
counts_lem b n m h h' = ground arith

server-IsStore : IsStore server is_key
server-IsStore = record {
  counts = λ ctx k keys n h. counts_lem (is_key k keys) n (server.exists ctx k keys) refl h;
  sets = λ ctx k v ttl keys h k'. refl;
}

server-IsUp : IsUp server
server-IsUp = record { answers = λ ctx k keys. (_, refl); accepts = λ ctx k v ttl keys. refl }

abbrev on_redis : Config
on_redis = record config { deduplication = record (config.deduplication) { kind = codes "redis" } }

redis_starts :
    (s : System (AnyDeduplicator (List Text)) (Backend remotes) GameplayEvent) × (start_processor
        server same
        (λ c. [])
        gameplay_keyed
        on_redis
        no_plugins
      ≡ some s)
unfolding start_processor boot new_processor start launch processor_config Batcher.new_batcher
    Option.bind
redis_starts = (_, refl)

redis_once_example :
    (p : Processor (AnyDeduplicator (List Text)) (Backend remotes) GameplayEvent) × (submit_each
        true twice redis_starts.0.proc
      ≡ some p)
    × (p.input_chan.buffer
        ≡ firsts
            (print_of server same gameplay_keyed)
            (λ k. is_key (codes "telemetry:dedup:" ++ k) [])
            twice)
redis_once_example =
    redis_once server same (λ c. []) server-IsStore server-IsUp gameplay_keyed on_redis no_plugins
      true twice redis_starts.1 refl refl (omega arith)
