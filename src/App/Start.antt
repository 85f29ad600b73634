-- ===== src/App/Start.antt =====
-- When `New` of internal/app/app.go returns an application, and what it is then.
use mathlib.Core.Option
use mathlib.Core.Path.{subst}
use extend_game_telemetry_co.Prelude.{
  ℕ, suc, ◌<◌, ◌≡◌, ◌∙◌, refl, sym, ap, Option, none, some, List, Text, All, arith,
}
use extend_game_telemetry_co.Prelude.Int.{pos, pos_part}
use extend_game_telemetry_co.Prelude.Result.{ok}
use extend_game_telemetry_co.Runtime.{Context}
use extend_game_telemetry_co.Storage.{Plugin, Deduplicatable}
use extend_game_telemetry_co.Events.Gameplay.{gameplay_keyed}
use extend_game_telemetry_co.Events.Performance.{performance_keyed}
use extend_game_telemetry_co.Events.UserBehavior.{user_behavior_keyed}
use extend_game_telemetry_co.Dedup.Redis.{RedisClient, RedisConfig}
use extend_game_telemetry_co.Batcher
use extend_game_telemetry_co.Processor.{DedupObject, new_processor}
use extend_game_telemetry_co.System.{System, boot, start}
use extend_game_telemetry_co.System.Launch.{IsFresh, boot-IsFresh, boot-plugins, boot-capacity}
use extend_game_telemetry_co.Settings
use extend_game_telemetry_co.Settings.{validate_config, processor_config, get_enabled_plugins}
use extend_game_telemetry_co.Settings.Accepted.{validate_config-IsAccepted, positive}
use extend_game_telemetry_co.Bootstrap.Deduplicators.{AnyDeduplicator, build_deduplicator}
use extend_game_telemetry_co.Bootstrap.Backends.{Remotes, Backend}
use extend_game_telemetry_co.Bootstrap.StoragePlugins.{
  StoragePlugins, AllClients, initialize_storage_plugins,
}
use extend_game_telemetry_co.Bootstrap.StoragePlugins.Loading.{
  known_names, CanOpen, initialize_storage_plugins_succeeds,
}
use extend_game_telemetry_co.App.{
  Application, started, load_config, namespace_of, start_processor, initialize_processors,
  with_plugins, new,
}

-- A processor with at least one worker and room in its channel, just started on the plugins.
abbrev pub IsReady : {D S T : Type 0} → List (Plugin S T) → System D S T → Type 0
IsReady plugins s =
    (n : ℕ) × (0 < n) × IsFresh n s × (s.proc.plugins ≡ plugins) × (0 < s.proc.input_chan.capacity)

module _ {D S T : Type 0} where
  boot_succeeds :
      (c : Settings.Config) (n k : ℕ) (plugins : List (Plugin S T)) (o : Option (DedupObject D T))
      → c.processor.channel_buffer ≡ pos n
      → c.processor.default_batch_size ≡ pos k
      → (s : System D S T) × (boot (processor_config c) plugins o ≡ some s)
  unfolding boot new_processor start processor_config Batcher.new_batcher Option.bind
  boot_succeeds c n k plugins o hc hb = rw (hc, hb) (_, refl)

  accepted-IsReady :
      (c : Settings.Config) (k : ℕ) (plugins : List (Plugin S T)) (o : Option (DedupObject D T))
      → validate_config c ≡ ok tt
      → c.processor.default_batch_size ≡ pos k
      → (s : System D S T) × (boot (processor_config c) plugins o ≡ some s) × IsReady plugins s
  unfolding processor_config
  accepted-IsReady c k plugins o valid size =
      let accepted = validate_config-IsAccepted c valid in
      let (w, workers) = positive c.processor.workers accepted.3 in
      let (n, buffer) = positive c.processor.channel_buffer accepted.4 in
      let (s, up) = boot_succeeds c (suc n) k plugins o buffer size in
      (
        s,
        up,
        (
          pos_part c.processor.workers,
          rw workers (omega arith),
          boot-IsFresh (processor_config c) plugins o up,
          boot-plugins (processor_config c) plugins o up,
          subst (λ k. 0 < k)
              (sym (boot-capacity (processor_config c) plugins o up ∙ ap pos_part buffer))
              (omega arith),
        ),
      )

module _ {C : Type 0} {R : Remotes} (commands : RedisClient C) (fingerprint : Text → Text)
    (connect : RedisConfig → C) where
  start_processor-IsReady :
      {T : Type 0} (keyed : Deduplicatable T) (c : Settings.Config) (k : ℕ)
      (plugins : List (Plugin (Backend R) T))
      → validate_config c ≡ ok tt
      → c.processor.default_batch_size ≡ pos k
      → (s : System (AnyDeduplicator C) (Backend R) T) × (start_processor commands fingerprint
            connect keyed c plugins
          ≡ some s)
        × IsReady plugins s
  unfolding start_processor
  start_processor-IsReady keyed c k plugins valid size =
      accepted-IsReady c k plugins (some (build_deduplicator commands fingerprint keyed connect c))
        valid size

  -- The configuration passes `ValidateConfig`, its batch size is not negative, the login and the
  -- tracer's setup succeed, and each backend that is named can be initialized for the three kinds
  -- of event: `New` returns an application, with no panic and no error. It has that configuration
  -- and the namespace of the environment, and its three processors are just started, each with at
  -- least one worker and room in its channel, on the initialized plugins of their kind of event.
  pub new_starts :
      {Tx B : Type 0} (clients : AllClients R Tx B) (ctx : Context) (c : Settings.Config) (k : ℕ)
      (ab_namespace : Text)
      → validate_config c ≡ ok tt
      → c.processor.default_batch_size ≡ pos k
      → All (CanOpen clients ctx c) (known_names (get_enabled_plugins c))
      → (app : Application C R) × (plugins : StoragePlugins R) × (new commands fingerprint connect
            clients ctx
            (ok c)
            ab_namespace
            none
            none
          ≡ started app)
        × (initialize_storage_plugins clients ctx c ≡ ok plugins)
        × (app.config ≡ c)
        × (app.namespace ≡ namespace_of ab_namespace)
        × IsReady plugins.user_behavior app.user_behavior
        × IsReady plugins.gameplay app.gameplay
        × IsReady plugins.performance app.performance
  unfolding new load_config initialize_processors
  new_starts clients ctx c k ab_namespace valid size can =
      let (plugins, loaded) = initialize_storage_plugins_succeeds clients ctx c can in
      let (ub, ub_up, ub_ready) =
        start_processor-IsReady user_behavior_keyed c k plugins.user_behavior valid size in
      let (gp, gp_up, gp_ready) =
        start_processor-IsReady gameplay_keyed c k plugins.gameplay valid size in
      let (perf, perf_up, perf_ready) =
        start_processor-IsReady performance_keyed c k plugins.performance valid size in
      (
        record {
          config = c;
          namespace = namespace_of ab_namespace;
          user_behavior = ub;
          gameplay = gp;
          performance = perf;
        },
        plugins,
        rw
            (
              new, load_config, valid, loaded, with_plugins, initialize_processors, ub_up, gp_up,
              perf_up,
            )
            refl,
        loaded,
        refl,
        refl,
        ub_ready,
        gp_ready,
        perf_ready,
      )
