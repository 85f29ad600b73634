-- ===== src/Plugins/Noop.antt =====
-- pkg/storage/plugins/noop/noop.go: the plugin that accepts every event and stores none. It keeps no
-- state but its logger.
use extend_game_telemetry_co.Prelude.{true, none, codes, length}
use extend_game_telemetry_co.Prelude.Int.{pos}
use extend_game_telemetry_co.Storage.{StoragePlugin}

unfoldable pub noop_plugin : (T : Type 0) → StoragePlugin (Unit {0}) T
noop_plugin T = record {
  name = codes "noop";
  initialize = λ ctx s. (none, s);
  filter = λ s event. true;
  write_batch = λ ctx batch s. ((pos (length batch), none), s);
  close = λ s. (none, s);
  health_check = λ ctx s. none;
}
