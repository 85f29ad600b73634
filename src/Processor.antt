-- ===== src/Processor.antt =====
-- pkg/processor/processor.go: the state that the goroutines of one processor share, and what each of
-- its methods does to it. Logging is left out. The parameters are the deduplicator's state `D`, a
-- plugin's state `S` and the event type `T`.
pub mod Fanout
pub mod Embedding
pub mod Submission
pub mod Once
mod Tests
use extend_game_telemetry_co.Prelude.{
  ℕ, zero, suc, ◌+◌, Bool, true, false, ◌&&◌, Option, none, some, List, [], ◌∷◌, Text, codes,
  length, is_empty, keep, u64, if◌then◌else◌,
}
use extend_game_telemetry_co.Prelude.Int.{ℤ}
use extend_game_telemetry_co.Prelude.Result.{Result, ok, err}
use extend_game_telemetry_co.Runtime.{
  Context, background, with_timeout, Chan, make_chan, has_room, push,
}
use extend_game_telemetry_co.Storage.{Error, StoragePlugin, Plugin}
use extend_game_telemetry_co.Dedup.{Deduplicator}

-- `Config`.
pub record Config : Type 0 where
  pub workers : ℤ
  pub channel_buffer : ℤ
  pub batch_size : ℤ
  pub flush_interval : ℤ

-- The four atomic counters, 64 bits each.
pub record Metrics : Type 0 where
  pub events_received : ℕ
  pub events_processed : ℕ
  pub events_duplicated : ℕ
  pub events_dropped : ℕ

-- A deduplicator object: its methods and its state.
pub record DedupObject (D T : Type 0) : Type 0 where
  pub methods : Deduplicator D T
  pub state : D

-- `Processor[T]`.
pub record Processor (D S T : Type 0) : Type 0 where
  pub workers : ℤ
  pub batch_size : ℤ
  pub flush_interval : ℤ
  pub input_chan : Chan T
  pub plugins : List (Plugin S T)
  pub deduplicator : Option (DedupObject D T)
  pub ctx : Context
  pub metrics : Metrics

-- `writeToPlugin`: the events that pass the filter, if there are any, go to `WriteBatch` in one
-- call, with 30 seconds; its count and its error are only logged.
unfoldable pub write_to_plugin : {S T : Type 0} → Context → List T → Plugin S T → Plugin S T
write_to_plugin ctx batch plugin =
    let filtered = keep (plugin.methods.filter plugin.state) batch in
    if is_empty filtered then plugin else record plugin {
      state = (plugin.methods.write_batch (with_timeout ctx 30000) filtered plugin.state).1;
    }

-- What a caller of `Submit` goes through: before `IsDuplicate`, between it and `Mark`, before the
-- first `select` on the channel, blocked in the second, and between the send and
-- `eventsReceived.Add`.
pub data Stage : Type 0 where
  entered unmarked offering waiting counting : Stage

-- Where a step of `Submit` leaves its caller: at a further stage, with the event sent on the channel,
-- returned without sending it (nil for a duplicate or after a send that was counted, or an error),
-- unable to move, or in a panic.
pub data Progress (D S T : Type 0) : Type 0 where
  moved : Stage → Processor D S T → Progress D S T
  queued : Processor D S T → Progress D S T
  returned : Error → Processor D S T → Progress D S T
  blocked : Progress D S T
  panicked : Progress D S T

-- What `Stats` reports.
pub record Stats : Type 0 where
  pub workers : ℤ
  pub queue_depth : ℕ
  pub queue_capacity : ℕ
  pub counters : Metrics
  pub plugins : ℕ

module _ {D S T : Type 0} where
  -- `NewProcessor`; `none` is the panic of `make(chan T, n)` at a negative size.
  unfoldable pub new_processor :
      Config → List (Plugin S T) → Option (DedupObject D T) → Option (Processor D S T)
  new_processor config plugins deduplicator = elim (make_chan {T = T} config.channel_buffer) [
    | none ↦ none
    | some input_chan ↦ some (record {
      workers = config.workers;
      batch_size = config.batch_size;
      flush_interval = config.flush_interval;
      input_chan = input_chan;
      plugins = plugins;
      deduplicator = deduplicator;
      ctx = background;
      metrics = record {
        events_received = 0;
        events_processed = 0;
        events_duplicated = 0;
        events_dropped = 0;
      };
    })
  ]

  -- The end of `processBatch`, when every plugin's goroutine is done.
  unfoldable pub count_processed : List T → Processor D S T → Processor D S T
  count_processed batch p = record p {
    metrics = record (p.metrics) {
      events_processed = u64 (p.metrics.events_processed + length batch);
    };
  }

  abbrev pub count_received : Processor D S T → Processor D S T
  count_received p = record p {
    metrics = record (p.metrics) { events_received = u64 (p.metrics.events_received + 1) };
  }

  abbrev pub count_duplicated : Processor D S T → Processor D S T
  count_duplicated p = record p {
    metrics = record (p.metrics) { events_duplicated = u64 (p.metrics.events_duplicated + 1) };
  }

  abbrev pub count_dropped : Processor D S T → Processor D S T
  count_dropped p = record p {
    metrics = record (p.metrics) { events_dropped = u64 (p.metrics.events_dropped + 1) };
  }

  -- `p.inputChan <- event`
  abbrev pub send : T → Processor D S T → Processor D S T
  send e p = record p { input_chan = push p.input_chan e }

  -- An event that is sent, and then counted.
  abbrev pub enqueue : T → Processor D S T → Processor D S T
  enqueue e p = count_received (send e p)

  -- `IsDuplicate`, with 100 ms: an error is logged and the event goes on.
  unfoldable pub check_duplicate : T → Processor D S T → Progress D S T
  check_duplicate e p = elim (p.deduplicator) [
    | none ↦ moved offering p
    | some o ↦ elim (o.methods.is_duplicate (with_timeout p.ctx 100) e o.state) [
      | err _ ↦ moved unmarked p
      | ok is_dupe ↦ if is_dupe then returned none (count_duplicated p) else moved unmarked p
    ]
  ]

  -- `Mark`, whose error is logged and ignored.
  unfoldable pub mark_seen : ℕ → T → Processor D S T → Progress D S T
  mark_seen now e p = elim (p.deduplicator) [
    | none ↦ moved offering p
    | some o ↦ moved offering (record p {
      deduplicator =
          some (record o { state = (o.methods.mark (with_timeout p.ctx 100) now e o.state).1 });
    })
  ]

  -- The first `select`: a send on a closed channel panics, a full channel takes the default.
  unfoldable pub offer : T → Processor D S T → Progress D S T
  offer e p =
      if p.input_chan.closed
      then panicked
      else if has_room p.input_chan
      then queued (send e p)
      else moved waiting p

  -- The second `select`, where both cases may be ready: `prefer_done` is the runtime's choice.
  unfoldable pub await_room : Bool → T → Processor D S T → Progress D S T
  await_room prefer_done e p =
      if p.ctx.cancelled && prefer_done
      then returned (some (codes "processor is shutting down")) (count_dropped p)
      else if p.input_chan.closed
      then panicked
      else if has_room p.input_chan
      then queued (send e p)
      else if p.ctx.cancelled
      then returned (some (codes "processor is shutting down")) (count_dropped p)
      else blocked

  -- One step of a caller.
  unfoldable pub advance : Stage → ℕ → Bool → T → Processor D S T → Progress D S T
  advance entered now prefer_done e p = check_duplicate e p
  advance unmarked now prefer_done e p = mark_seen now e p
  advance offering now prefer_done e p = offer e p
  advance waiting now prefer_done e p = await_room prefer_done e p
  advance counting now prefer_done e p = returned none (count_received p)

  -- `Submit` with nothing else running in between: four steps at most, and a send is counted at
  -- once.
  abbrev pub resume : ℕ → Stage → ℕ → Bool → T → Processor D S T → Progress D S T
  resume zero stage now prefer_done e p = moved stage p
  resume (suc steps) stage now prefer_done e p = elim (advance stage now prefer_done e p) [
    | moved stage' p' ↦ resume steps stage' now prefer_done e p'
    | queued p' ↦ queued (count_received p')
    | returned failure p' ↦ returned failure p'
    | blocked ↦ blocked
    | panicked ↦ panicked
  ]

  unfoldable pub submit : ℕ → Bool → T → Processor D S T → Progress D S T
  unfolding advance
  submit now prefer_done e p = resume 4 entered now prefer_done e p

  -- The start of `Shutdown`: closing a closed channel panics.
  unfoldable pub close_input : Processor D S T → Option (Processor D S T)
  close_input p =
      if p.input_chan.closed
      then none
      else some (record p { input_chan = record (p.input_chan) { closed = true } })

  -- The end of `Shutdown`, when its timeout passes first: the context is cancelled.
  unfoldable pub force_exit : Processor D S T → Error × Processor D S T
  force_exit p = (
    some (codes "shutdown timeout exceeded"),
    record p { ctx = record (p.ctx) { cancelled = true } },
  )

  -- `Shutdown`: `timed_out` says whether the timeout passes before the workers are done.
  unfoldable pub shutdown : Bool → Processor D S T → Option (Error × Processor D S T)
  unfolding close_input force_exit
  shutdown timed_out p = elim (close_input p) [
    | none ↦ none
    | some p' ↦ some (if timed_out then force_exit p' else (none, p'))
  ]

  unfoldable pub stats : Processor D S T → Stats
  stats p = record {
    workers = p.workers;
    queue_depth = length p.input_chan.buffer;
    queue_capacity = p.input_chan.capacity;
    counters = p.metrics;
    plugins = length p.plugins;
  }
