-- ===== src/Bootstrap/Tests.antt =====
-- The plugins of a configuration that names two backends, and a third that is not known.
use extend_game_telemetry_co.Prelude.{◌≡◌, refl, [], ◌∷◌, All}
use extend_game_telemetry_co.Prelude.Result.{ok}
use extend_game_telemetry_co.Runtime.{background}
use extend_game_telemetry_co.Settings.{get_enabled_plugins}
use extend_game_telemetry_co.Plugins.S3
use extend_game_telemetry_co.Plugins.Kafka
use extend_game_telemetry_co.Bootstrap.Backends.{
  s3, kafka, known, configured, initialize, make_plugin, methods,
}
use extend_game_telemetry_co.Bootstrap.StoragePlugins.{StoragePlugins, initialize_storage_plugins}
use extend_game_telemetry_co.Bootstrap.StoragePlugins.Loading.{
  known_names, backends_spelled, noop_if_none, IsLoaded, CanOpen,
  initialize_storage_plugins-IsLoaded, initialize_storage_plugins_succeeds,
}
use extend_game_telemetry_co.Bootstrap.Sample.{config, remotes, clients}

names : known_names (get_enabled_plugins config) ≡ s3 ∷ kafka ∷ []
unfolding get_enabled_plugins known
names = refl

can_open : All (CanOpen clients background config) (known_names (get_enabled_plugins config))
unfolding get_enabled_plugins known make_plugin methods configured initialize S3.plugin
    S3.initialize S3.new_plugin Kafka.plugin Kafka.initialize Kafka.new_plugin
can_open = (((_, refl), (_, refl), (_, refl)), (((_, refl), (_, refl), (_, refl)), tt))

opened :
    (plugins : StoragePlugins remotes) × (initialize_storage_plugins clients background config
      ≡ ok plugins)
opened = initialize_storage_plugins_succeeds clients background config can_open

initialize_storage_plugins-IsLoaded_example :
    IsLoaded clients background config
      (noop_if_none (backends_spelled (get_enabled_plugins config)))
      opened.0
initialize_storage_plugins-IsLoaded_example =
    initialize_storage_plugins-IsLoaded clients background config opened.0 opened.1
