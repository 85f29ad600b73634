-- ===== src/Bootstrap/StoragePlugins.antt =====
-- internal/bootstrap/plugins.go: the plugins of the three kinds of event, built and initialized name
-- by name, and closed. Logging is left out.
pub mod Loading
use extend_game_telemetry_co.Prelude.{
  ◌++◌, Option, none, some, List, [], ◌∷◌, Text, is_empty, map, if◌then◌else◌,
}
use extend_game_telemetry_co.Prelude.Result.{Result, ok, err, ◌>>=◌}
use extend_game_telemetry_co.Runtime.{Context}
use extend_game_telemetry_co.Storage.{Error, Plugin}
use extend_game_telemetry_co.Events.Gameplay.{GameplayEvent, CreateGameplayTelemetryRequest}
use extend_game_telemetry_co.Events.Performance.{
  PerformanceEvent, CreatePerformanceTelemetryRequest,
}
use extend_game_telemetry_co.Events.UserBehavior.{
  UserBehaviorEvent, CreateUserBehaviorTelemetryRequest,
}
use extend_game_telemetry_co.Plugins.{gameplay_kind, performance_kind, user_behavior_kind}
use extend_game_telemetry_co.Settings
use extend_game_telemetry_co.Settings.{get_enabled_plugins}
use extend_game_telemetry_co.Bootstrap.Backends.{
  BackendName, noop, Remotes, Backend, Clients, known, make_plugin,
}

pub record StoragePlugins (R : Remotes) : Type 0 where
  pub user_behavior : List (Plugin (Backend R) UserBehaviorEvent)
  pub gameplay : List (Plugin (Backend R) GameplayEvent)
  pub performance : List (Plugin (Backend R) PerformanceEvent)

-- `if err := plugin.Initialize(ctx); err != nil { return nil, err }`
abbrev pub initialized : {S E : Type 0} → Error × S → Plugin S E → Result Text (Plugin S E)
initialized (none, s) p = ok (record p { state = s })
initialized (some failure, s) p = err failure

abbrev pub initialize_plugin : {S E : Type 0} → Context → Plugin S E → Result Text (Plugin S E)
initialize_plugin ctx p = initialized (p.methods.initialize ctx p.state) p

-- The clients of each kind's plugins, which share nothing.
pub record AllClients (R : Remotes) (Tx B : Type 0) : Type 0 where
  pub for_user_behavior : Clients R Tx B CreateUserBehaviorTelemetryRequest
  pub for_gameplay : Clients R Tx B CreateGameplayTelemetryRequest
  pub for_performance : Clients R Tx B CreatePerformanceTelemetryRequest

module _ {R : Remotes} {Tx B : Type 0} (clients : AllClients R Tx B) (ctx : Context)
    (c : Settings.Config) where
  -- The body of the loop, for a name of a backend: three plugins, initialized in this order, and
  -- then appended.
  unfoldable pub add_backend : BackendName → StoragePlugins R → Result Text (StoragePlugins R)
  add_backend backend plugins =
      initialize_plugin ctx (make_plugin user_behavior_kind clients.for_user_behavior c backend)
      >>= λ ub.
          initialize_plugin ctx (make_plugin gameplay_kind clients.for_gameplay c backend) >>= λ gp.
          initialize_plugin ctx (make_plugin performance_kind clients.for_performance c backend)
          >>= λ perf. ok (record {
            user_behavior = plugins.user_behavior ++ ub ∷ [];
            gameplay = plugins.gameplay ++ gp ∷ [];
            performance = plugins.performance ++ perf ∷ [];
          })

  -- A name that is not known is passed over.
  abbrev pub add_named : Text → StoragePlugins R → Result Text (StoragePlugins R)
  add_named name plugins = elim (known name) [
    | none ↦ ok plugins
    | some backend ↦ add_backend backend plugins
  ]

  -- The loop over the enabled names.
  unfoldable pub add_all : List Text → StoragePlugins R → Result Text (StoragePlugins R)
  add_all [] plugins = ok plugins
  add_all (name ∷ names) plugins = add_named name plugins >>= λ plugins'. add_all names plugins'

  abbrev pub no_plugins : StoragePlugins R
  no_plugins = record { user_behavior = []; gameplay = []; performance = [] }

  -- Without any plugin, the no-op plugin of each kind, whose `Initialize` has no error to check.
  abbrev pub or_noop : StoragePlugins R → StoragePlugins R
  or_noop plugins =
      if is_empty plugins.user_behavior
      then record {
        user_behavior =
            plugins.user_behavior
            ++ make_plugin user_behavior_kind clients.for_user_behavior c noop ∷ [];
        gameplay = plugins.gameplay ++ make_plugin gameplay_kind clients.for_gameplay c noop ∷ [];
        performance =
            plugins.performance ++ make_plugin performance_kind clients.for_performance c noop ∷ [];
      }
      else plugins

  unfoldable pub initialize_storage_plugins : Result Text (StoragePlugins R)
  initialize_storage_plugins =
      add_all (get_enabled_plugins c) no_plugins >>= λ plugins. ok (or_noop plugins)

-- `Close` of one plugin, whose error is only logged.
abbrev pub close_plugin : {S E : Type 0} → Plugin S E → Plugin S E
close_plugin p = record p { state = (p.methods.close p.state).1 }

unfoldable pub close_storage_plugins : {R : Remotes} → StoragePlugins R → StoragePlugins R
close_storage_plugins plugins = record {
  user_behavior = map close_plugin plugins.user_behavior;
  gameplay = map close_plugin plugins.gameplay;
  performance = map close_plugin plugins.performance;
}
