-- ===== src/System/Launch.antt =====
-- The state of a processor that was just built and started (`NewProcessor` and `Start` of
-- pkg/processor/processor.go).
use mathlib.Core.Option
use mathlib.Core.Option.{none-ne-some, some-injective}
use mathlib.Core.Path.{subst}
use extend_game_telemetry_co.Prelude.{
  ℕ, ◌≡◌, refl, sym, ap, true, false, Option, none, some, List, [], length, All, All-replicate,
  length-replicate,
}
use extend_game_telemetry_co.Prelude.Int.{ℤ, pos, negsuc, pos_part}
use extend_game_telemetry_co.Storage.{Plugin}
use extend_game_telemetry_co.Batcher
use extend_game_telemetry_co.Processor
use extend_game_telemetry_co.Processor.{DedupObject, new_processor}
use extend_game_telemetry_co.System.{Worker, System, launch, start, boot}

pub record IsNew {T : Type 0} (w : Worker T) : Type 0 where
  pub nothing_pending : w.batcher.events ≡ []
  pub nothing_held : w.holding ≡ none
  pub nothing_written : w.writing ≡ none
  pub is_running : w.running ≡ true

-- `n` workers, all new; nothing was submitted, and every counter is 0.
pub record IsFresh {D S T : Type 0} (n : ℕ) (s : System D S T) : Type 0 where
  pub empty : s.proc.input_chan.buffer ≡ []
  pub is_open : s.proc.input_chan.closed ≡ false
  pub is_live : s.proc.ctx.cancelled ≡ false
  pub none_received : s.proc.metrics.events_received ≡ 0
  pub none_processed : s.proc.metrics.events_processed ≡ 0
  pub none_duplicated : s.proc.metrics.events_duplicated ≡ 0
  pub none_dropped : s.proc.metrics.events_dropped ≡ 0
  pub no_callers : s.callers ≡ []
  pub no_submissions : s.submissions ≡ 0
  pub no_accepted : s.accepted ≡ []
  pub no_delivered : s.delivered ≡ []
  pub staffed : length s.workers ≡ n
  pub new_workers : All IsNew s.workers

module _ {D S T : Type 0} where
  -- The same, by the signs of the two sizes.
  boot_by_sizes :
      (workers channel_buffer batch_size flush_interval : ℤ) (plugins : List (Plugin S T))
      (deduplicator : Option (DedupObject D T)) {s : System D S T}
      → boot
          (record {
            workers = workers;
            channel_buffer = channel_buffer;
            batch_size = batch_size;
            flush_interval = flush_interval;
          })
          plugins
          deduplicator
        ≡ some s
      → IsFresh (pos_part workers) s
  unfolding boot new_processor start launch Batcher.new_batcher Option.bind
  boot_by_sizes w (pos c) (pos n) wait plugins deduplicator h =
      subst (IsFresh (pos_part w)) (some-injective _ _ h) (record {
        empty = refl;
        is_open = refl;
        is_live = refl;
        none_received = refl;
        none_processed = refl;
        none_duplicated = refl;
        none_dropped = refl;
        no_callers = refl;
        no_submissions = refl;
        no_accepted = refl;
        no_delivered = refl;
        staffed = length-replicate (pos_part w) _;
        new_workers = All-replicate IsNew (pos_part w) _ (record {
          nothing_pending = refl;
          nothing_held = refl;
          nothing_written = refl;
          is_running = refl;
        });
      })
  boot_by_sizes w (pos c) (negsuc n) wait plugins deduplicator h = absurd (none-ne-some _ h)
  boot_by_sizes w (negsuc c) (pos n) wait plugins deduplicator h = absurd (none-ne-some _ h)
  boot_by_sizes w (negsuc c) (negsuc n) wait plugins deduplicator h = absurd (none-ne-some _ h)

  pub boot-IsFresh :
      (config : Processor.Config) (plugins : List (Plugin S T))
      (deduplicator : Option (DedupObject D T)) {s : System D S T}
      → boot config plugins deduplicator ≡ some s
      → IsFresh (pos_part config.workers) s
  boot-IsFresh config plugins deduplicator h =
      boot_by_sizes config.workers config.channel_buffer config.batch_size config.flush_interval
        plugins deduplicator h

  plugins_by_sizes :
      (workers channel_buffer batch_size flush_interval : ℤ) (plugins : List (Plugin S T))
      (deduplicator : Option (DedupObject D T)) {s : System D S T}
      → boot
          (record {
            workers = workers;
            channel_buffer = channel_buffer;
            batch_size = batch_size;
            flush_interval = flush_interval;
          })
          plugins
          deduplicator
        ≡ some s
      → s.proc.plugins ≡ plugins
  unfolding boot new_processor start launch Batcher.new_batcher Option.bind
  plugins_by_sizes w (pos c) (pos n) wait plugins deduplicator h =
      ap (λ (s : System D S T). s.proc.plugins) (sym (some-injective _ _ h))
  plugins_by_sizes w (pos c) (negsuc n) wait plugins deduplicator h = absurd (none-ne-some _ h)
  plugins_by_sizes w (negsuc c) (pos n) wait plugins deduplicator h = absurd (none-ne-some _ h)
  plugins_by_sizes w (negsuc c) (negsuc n) wait plugins deduplicator h = absurd (none-ne-some _ h)

  pub boot-plugins :
      (config : Processor.Config) (plugins : List (Plugin S T))
      (deduplicator : Option (DedupObject D T)) {s : System D S T}
      → boot config plugins deduplicator ≡ some s
      → s.proc.plugins ≡ plugins
  boot-plugins config plugins deduplicator h =
      plugins_by_sizes config.workers config.channel_buffer config.batch_size config.flush_interval
        plugins deduplicator h

  shared_by_sizes :
      (workers channel_buffer batch_size flush_interval : ℤ) (plugins : List (Plugin S T))
      (deduplicator : Option (DedupObject D T)) {s : System D S T}
      → boot
          (record {
            workers = workers;
            channel_buffer = channel_buffer;
            batch_size = batch_size;
            flush_interval = flush_interval;
          })
          plugins
          deduplicator
        ≡ some s
      → (s.proc.deduplicator ≡ deduplicator)
        × (s.proc.input_chan.capacity ≡ pos_part channel_buffer)
  unfolding boot new_processor start launch Batcher.new_batcher Option.bind
  shared_by_sizes w (pos c) (pos n) wait plugins deduplicator h = (
    ap (λ (s : System D S T). s.proc.deduplicator) (sym (some-injective _ _ h)),
    ap (λ (s : System D S T). s.proc.input_chan.capacity) (sym (some-injective _ _ h)),
  )
  shared_by_sizes w (pos c) (negsuc n) wait plugins deduplicator h = absurd (none-ne-some _ h)
  shared_by_sizes w (negsuc c) (pos n) wait plugins deduplicator h = absurd (none-ne-some _ h)
  shared_by_sizes w (negsuc c) (negsuc n) wait plugins deduplicator h = absurd (none-ne-some _ h)

  pub boot-shared :
      (config : Processor.Config) (plugins : List (Plugin S T))
      (deduplicator : Option (DedupObject D T)) {s : System D S T}
      → boot config plugins deduplicator ≡ some s
      → (s.proc.deduplicator ≡ deduplicator)
        × (s.proc.input_chan.capacity ≡ pos_part config.channel_buffer)
  boot-shared config plugins deduplicator h =
      shared_by_sizes config.workers config.channel_buffer config.batch_size config.flush_interval
        plugins deduplicator h

  capacity_by_sizes :
      (workers channel_buffer batch_size flush_interval : ℤ) (plugins : List (Plugin S T))
      (deduplicator : Option (DedupObject D T)) {s : System D S T}
      → boot
          (record {
            workers = workers;
            channel_buffer = channel_buffer;
            batch_size = batch_size;
            flush_interval = flush_interval;
          })
          plugins
          deduplicator
        ≡ some s
      → s.proc.input_chan.capacity ≡ pos_part channel_buffer
  unfolding boot new_processor start launch Batcher.new_batcher Option.bind
  capacity_by_sizes w (pos c) (pos n) wait plugins deduplicator h =
      subst (λ (s : System D S T). s.proc.input_chan.capacity ≡ c) (some-injective _ _ h) refl
  capacity_by_sizes w (pos c) (negsuc n) wait plugins deduplicator h = absurd (none-ne-some _ h)
  capacity_by_sizes w (negsuc c) (pos n) wait plugins deduplicator h = absurd (none-ne-some _ h)
  capacity_by_sizes w (negsuc c) (negsuc n) wait plugins deduplicator h = absurd (none-ne-some _ h)

  -- The channel has the configured size.
  pub boot-capacity :
      (config : Processor.Config) (plugins : List (Plugin S T))
      (deduplicator : Option (DedupObject D T)) {s : System D S T}
      → boot config plugins deduplicator ≡ some s
      → s.proc.input_chan.capacity ≡ pos_part config.channel_buffer
  boot-capacity config plugins deduplicator h =
      capacity_by_sizes config.workers config.channel_buffer config.batch_size config.flush_interval
        plugins deduplicator h
