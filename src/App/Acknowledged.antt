-- ===== src/App/Acknowledged.antt =====
-- What a success that a handler of pkg/service/telemetry.go replies with is worth: the event in the
-- backends, after the application's shutdown (internal/app/app.go).
use extend_game_telemetry_co.Prelude.{◌<◌, Bool, count}
use extend_game_telemetry_co.Prelude.Result.{Result}
use extend_game_telemetry_co.Processor
use extend_game_telemetry_co.Processor.{Processor}
use extend_game_telemetry_co.System.{System}

module _ {D S T : Type 0} (g : T → Bool) where
  -- An event that passes the test was accepted.
  abbrev Accepted : System D S T → Type 0
  Accepted s = 0 < count g s.accepted
