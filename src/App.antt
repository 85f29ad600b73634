-- ===== src/App.antt =====
-- internal/app/app.go, with InitializeProcessors and ShutdownProcessors of
-- internal/bootstrap/processor.go and CloseDeduplicators of internal/bootstrap/deduplicator.go: the
-- service from its start to its shutdown. The parsed environment, the login of the IAM client, the
-- tracer and the network are parameters. The application and its processors share the plugin and
-- the deduplicator objects, which are kept in the processors here.
pub mod Shutdown
pub mod Acknowledged
pub mod Start
pub mod Deduplicated
pub mod Published
pub mod Stored
pub mod Wiring
mod Tests
use extend_game_telemetry_co.Prelude.{
  ℕ, ◌++◌, Bool, true, false, not, ◌&&◌, ◌||◌, Option, none, some, List, [], ◌∷◌, Text, codes,
  text_eq, is_empty, map, if◌then◌else◌,
}
use extend_game_telemetry_co.Prelude.Result.{Result, ok, err, ◌>>=◌}
use extend_game_telemetry_co.Runtime.{Context}
use extend_game_telemetry_co.Storage.{Error, Plugin, Deduplicatable, wrap_error}
use extend_game_telemetry_co.Events.Gameplay.{GameplayEvent, gameplay_keyed}
use extend_game_telemetry_co.Events.Performance.{PerformanceEvent, performance_keyed}
use extend_game_telemetry_co.Events.UserBehavior.{UserBehaviorEvent, user_behavior_keyed}
use extend_game_telemetry_co.Dedup.Redis.{RedisClient, RedisConfig}
use extend_game_telemetry_co.Processor.{Processor, DedupObject}
use extend_game_telemetry_co.System.{
  Worker, System, Action, forces, Outcome, next, disabled, crash, boot, run, step, on_close,
  and_then, is_none,
}
use extend_game_telemetry_co.Settings.{Config, validate_config, processor_config}
use extend_game_telemetry_co.Server.{to_lower}
use extend_game_telemetry_co.Bootstrap.Deduplicators.{AnyDeduplicator, build_deduplicator}
use extend_game_telemetry_co.Bootstrap.Backends.{Remotes, Backend}
use extend_game_telemetry_co.Bootstrap.StoragePlugins.{
  StoragePlugins, AllClients, initialize_storage_plugins, close_plugin,
}

-- `LoadConfig` of pkg/config/config.go, after the environment is parsed.
unfoldable pub load_config : Result Text Config → Result Text Config
load_config (err failure) = err (codes "failed to parse config from environment: " ++ failure)
load_config (ok c) = elim (validate_config c) [
  | err failure ↦ err (codes "invalid configuration: " ++ failure)
  | ok _ ↦ ok c
]

-- `GetNamespace` of internal/bootstrap/iam.go, of the variable AB_NAMESPACE.
unfoldable pub namespace_of : Text → Text
namespace_of value = if is_empty value then codes "accelbyte" else value

pub data Level : Type 0 where
  debug info warn error : Level

unfoldable pub parse_slog_level : Text → Level
parse_slog_level text =
    let s = to_lower text in
    if text_eq s (codes "debug")
    then debug
    else if text_eq s (codes "info")
    then info
    else if text_eq s (codes "warn") || text_eq s (codes "warning")
    then warn
    else if text_eq s (codes "error") || (text_eq s (codes "fatal") || text_eq s (codes "panic"))
    then error
    else info

-- The base path that `Run` gives to the gateway, of the variables SERVER_BASE_PATH and BASE_PATH.
unfoldable pub base_path : Text → Text → Text
base_path server_base_path plain_base_path =
    if not (is_empty server_base_path)
    then server_base_path
    else if not (is_empty plain_base_path)
    then plain_base_path
    else codes "/telemetry"

-- `Run`: the metrics server's start has no error of its own; the gRPC server listens, and then the
-- gateway is created.
unfoldable pub run_servers : Error → Error → Error
run_servers (some failure) gateway =
    some (codes "failed to start gRPC server: failed to listen on port 6565: " ++ failure)
run_servers none gateway =
    wrap_error (codes "failed to start gRPC-Gateway: failed to create gRPC-Gateway: ") gateway

-- One processor's part of a shutdown: what its goroutines do until its own `Shutdown` is called,
-- until that returns, and while the other processors are shut down. The three processors share
-- nothing, so that each has a schedule of its own.
pub record Plan (T : Type 0) : Type 0 where
  pub before : List (Action T)
  pub during : List (Action T)
  pub timed_out : Bool
  pub after : List (Action T)

-- `wg.Wait()` returns when every worker has.
abbrev pub is_done : {T : Type 0} → Worker T → Bool
is_done w = not w.running && is_none w.writing

abbrev pub all_done : {T : Type 0} → List (Worker T) → Bool
all_done [] = true
all_done (w ∷ ws) = is_done w && all_done ws

module _ {D S T : Type 0} where
  -- The `select` of the processor's `Shutdown`.
  abbrev pub wait_or_force : Bool → System D S T → Outcome D S T
  wait_or_force true s = step forces s
  wait_or_force false s = if all_done s.workers then next s else disabled

  -- The processor's `Shutdown`, and what goes on around it.
  unfoldable pub wind_down : Plan T → System D S T → Outcome D S T
  wind_down plan s = and_then (run plan.before s) λ s₁. and_then (on_close s₁) λ s₂.
      and_then (run plan.during s₂)
        λ s₃. and_then (wait_or_force plan.timed_out s₃) λ s₄. run plan.after s₄

  -- `Close` of the deduplicator, which may panic, and then of each plugin. Errors are only logged.
  unfoldable pub close_deduplicator : Processor D S T → Option (Processor D S T)
  close_deduplicator p = elim (p.deduplicator) [
    | none ↦ some p
    | some o ↦ elim (o.methods.close o.state) [
      | none ↦ none
      | some (_, d) ↦ some (record p { deduplicator = some (record o { state = d }) })
    ]
  ]

  unfoldable pub close_stores : System D S T → Outcome D S T
  close_stores s = elim (close_deduplicator s.proc) [
    | none ↦ crash
    | some p ↦ next (record s { proc = record p { plugins = map close_plugin p.plugins } })
  ]

  -- What the application's shutdown does to one processor. Only after a timeout can a worker still
  -- write when its plugins are closed, and that is left out.
  unfoldable pub shut_down : Plan T → System D S T → Outcome D S T
  shut_down plan s = and_then (wind_down plan s) close_stores

-- `Application`: the configuration, the namespace and the running processors.
pub record Application (C : Type 0) (R : Remotes) : Type 0 where
  pub config : Config
  pub namespace : Text
  pub user_behavior : System (AnyDeduplicator C) (Backend R) UserBehaviorEvent
  pub gameplay : System (AnyDeduplicator C) (Backend R) GameplayEvent
  pub performance : System (AnyDeduplicator C) (Backend R) PerformanceEvent

-- What `New` comes to: an application, an error, or a panic.
pub data Launched (C : Type 0) (R : Remotes) : Type 0 where
  started : Application C R → Launched C R
  failed : Text → Launched C R
  panicked : Launched C R

abbrev launched : {C : Type 0} {R : Remotes} → Option (Application C R) → Launched C R
launched none = panicked
launched (some app) = started app

module _ {C : Type 0} {R : Remotes} (commands : RedisClient C) (fingerprint : Text → Text)
    (connect : RedisConfig → C) where
  -- `buildDeduplicator`, NewProcessor and Start for one kind of event.
  unfoldable pub start_processor :
      {T : Type 0}
      → Deduplicatable T
      → Config
      → List (Plugin (Backend R) T)
      → Option (System (AnyDeduplicator C) (Backend R) T)
  start_processor keyed c plugins =
      boot (processor_config c) plugins
        (some (build_deduplicator commands fingerprint keyed connect c))

  -- `none` is the panic of a channel or a batcher of negative size.
  unfoldable pub initialize_processors : Config → Text → StoragePlugins R → Option (Application C R)
  initialize_processors c namespace plugins =
      elim (start_processor user_behavior_keyed c plugins.user_behavior) [
        | none ↦ none
        | some ub ↦ elim (start_processor gameplay_keyed c plugins.gameplay) [
          | none ↦ none
          | some gp ↦ elim (start_processor performance_keyed c plugins.performance) [
            | none ↦ none
            | some perf ↦ some (record {
              config = c;
              namespace = namespace;
              user_behavior = ub;
              gameplay = gp;
              performance = perf;
            })
          ]
        ]
      ]

  -- The end of `New`; the gRPC server's creation has no error of its own.
  abbrev pub with_plugins : Config → Text → Result Text (StoragePlugins R) → Launched C R
  with_plugins c namespace (err failure) =
      failed (codes "failed to initialize storage plugins: " ++ failure)
  with_plugins c namespace (ok plugins) = launched (initialize_processors c namespace plugins)

  -- `New`: `login` and `tracer` are the errors of the IAM login and of the tracer's setup.
  unfoldable pub new :
      {Tx B : Type 0}
      → AllClients R Tx B
      → Context
      → Result Text Config
      → Text
      → Error
      → Error
      → Launched C R
  new clients ctx parsed ab_namespace login tracer = elim (load_config parsed) [
    | err failure ↦ failed (codes "failed to load configuration: " ++ failure)
    | ok c ↦ elim login [
      | some failure ↦ failed (codes "failed to initialize IAM: " ++ failure)
      | none ↦ elim tracer [
        | some failure ↦
            failed
              (codes "failed to setup telemetry: failed to create tracer provider: " ++ failure)
        | none ↦
            with_plugins c (namespace_of ab_namespace) (initialize_storage_plugins clients ctx c)
      ]
    ]
  ]

-- `Shutdown`: `none` is a panic, or a plan that the goroutines do not follow.
abbrev reached : {D S T : Type 0} → Outcome D S T → Option (System D S T)
reached (next s) = some s
reached disabled = none
reached crash = none

unfoldable pub shutdown :
    {C : Type 0} {R : Remotes}
    → Plan UserBehaviorEvent
    → Plan GameplayEvent
    → Plan PerformanceEvent
    → Application C R
    → Option (Application C R)
shutdown for_behavior for_gameplay for_performance app =
    elim (reached (shut_down for_behavior app.user_behavior)) [
      | none ↦ none
      | some ub ↦ elim (reached (shut_down for_gameplay app.gameplay)) [
        | none ↦ none
        | some gp ↦ elim (reached (shut_down for_performance app.performance)) [
          | none ↦ none
          | some perf ↦ some (record app { user_behavior = ub; gameplay = gp; performance = perf })
        ]
      ]
    ]

-- `main`: the exit code, when the process gets as far; `none` stands for a panic, as above. The
-- shutdown begins with a signal.
unfoldable pub main :
    {C : Type 0} {R : Remotes}
    → Plan UserBehaviorEvent
    → Plan GameplayEvent
    → Plan PerformanceEvent
    → Launched C R
    → Error
    → Option ℕ
main for_behavior for_gameplay for_performance (failed _) run_error = some 1
main for_behavior for_gameplay for_performance panicked run_error = none
main for_behavior for_gameplay for_performance (started app) (some _) = some 1
main for_behavior for_gameplay for_performance (started app) none =
    elim (shutdown for_behavior for_gameplay for_performance app) [ none ↦ none | some _ ↦ some 0 ]
