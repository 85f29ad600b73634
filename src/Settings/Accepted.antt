-- ===== src/Settings/Accepted.antt =====
-- What `ValidateConfig` of pkg/config/config.go secures, and what it does not.
use extend_game_telemetry_co.Prelude.{
  ℕ, zero, suc, ◌≡◌, refl, Bool, true, false, not, ◌&&◌, Option, none, some, List, [], codes,
  is_empty, text_eq, trim_space, arith, ltb,
}
use extend_game_telemetry_co.Prelude.Int.{ℤ, pos, negsuc, leb_ℤ}
use extend_game_telemetry_co.Prelude.Result.{Result, ok, err, reject_if, ◌>>◌}
use extend_game_telemetry_co.Batcher.{new_batcher}
use extend_game_telemetry_co.Storage.{Plugin}
use extend_game_telemetry_co.Processor.{Processor, DedupObject, new_processor}
use extend_game_telemetry_co.Settings.{
  Config, bad_port, valid_kind, validate_config, processor_config,
}

-- What an accepted configuration has.
abbrev pub IsAccepted : Config → Type 0
IsAccepted c =
    (bad_port c.server.grpc_port ≡ false)
    × (bad_port c.server.http_port ≡ false)
    × (is_empty c.server.base_path ≡ false)
    × (leb_ℤ c.processor.workers (pos 0) ≡ false)
    × (leb_ℤ c.processor.channel_buffer (pos 0) ≡ false)
    × ((c.deduplication.enabled && not (valid_kind c.deduplication.kind)) ≡ false)
    × ((c.deduplication.enabled
          && (text_eq c.deduplication.kind (codes "redis") && is_empty c.deduplication.redis.addr))
        ≡ false)
    × (is_empty (trim_space c.storage.enabled_plugins) ≡ false)

then_ok : {E : Type 0} (m k : Result E (Unit {0})) → m >> k ≡ ok tt → (m ≡ ok tt) × (k ≡ ok tt)
then_ok (ok u) k h = (refl, h)
then_ok (err e) k h = ground arith

passed : {E : Type 0} (b : Bool) (m : E) → reject_if b m ≡ ok tt → b ≡ false
passed true m h = ground arith
passed false m h = refl

pub validate_config-IsAccepted : (c : Config) → validate_config c ≡ ok tt → IsAccepted c
unfolding validate_config
validate_config-IsAccepted c h =
    let h8 = then_ok _ _ h in
    let h7 = then_ok _ _ h8.0 in
    let h6 = then_ok _ _ h7.0 in
    let h5 = then_ok _ _ h6.0 in
    let h4 = then_ok _ _ h5.0 in
    let h3 = then_ok _ _ h4.0 in
    let h2 = then_ok _ _ h3.0 in
    (
      passed _ _ h2.0,
      passed _ _ h2.1,
      passed _ _ h3.1,
      passed _ _ h4.1,
      passed _ _ h5.1,
      passed _ _ h6.1,
      passed _ _ h7.1,
      passed _ _ h8.1,
    )

pub positive : (z : ℤ) → leb_ℤ z (pos 0) ≡ false → (n : ℕ) × (z ≡ pos (suc n))
positive (pos zero) h = ground arith
positive (pos (suc n)) h = (n, refl)
positive (negsuc n) h = ground arith

-- With an accepted configuration, `NewProcessor` never panics: it returns a processor with an
-- open, empty channel that has room for an event.
pub accepted_processor :
    {D S T : Type 0} (c : Config) (plugins : List (Plugin S T)) (o : Option (DedupObject D T))
    → validate_config c ≡ ok tt
    → (p : Processor D S T) × (new_processor (processor_config c) plugins o ≡ some p)
      × (p.input_chan.buffer ≡ [])
      × (p.input_chan.closed ≡ false)
      × (ltb 0 p.input_chan.capacity ≡ true)
unfolding new_processor processor_config
accepted_processor c plugins o h =
    let accepted = validate_config-IsAccepted c h in
    let (n, e) = positive c.processor.channel_buffer accepted.4 in
    rw e (_, refl, refl, refl, ground arith)

-- `ValidateConfig` never looks at the batch size: with any negative one, the same answer is given,
-- and the batcher that a worker makes of an accepted one panics.
pub batch_size_unchecked :
    {T : Type 0} (c : Config) (n : ℕ)
    → let changed = record c {
      processor = record (c.processor) { default_batch_size = negsuc n };
    } in
      (validate_config changed ≡ validate_config c)
      × (new_batcher {T = T}
            (processor_config changed).batch_size
            (processor_config changed).flush_interval
          ≡ none)
unfolding validate_config processor_config new_batcher
batch_size_unchecked c n = (refl, refl)
