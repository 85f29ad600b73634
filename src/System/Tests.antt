-- ===== src/System/Tests.antt =====
-- One worker with batches of two, a backend that stores numbers below 9, and a schedule of its
-- goroutines from the start to a graceful shutdown.
use mathlib.Core.Option
use extend_game_telemetry_co.Prelude.{
  ◌+◌, total, ap, sym, images, images-some, ℕ, ◌++◌, ◌≡◌, refl, true, false, ◌&&◌, Option, none,
  some, List, [], ◌∷◌, codes, ltb, count, ◌==◌, ==_iff, get_elem?, keep, All, arith,
}
use extend_game_telemetry_co.Prelude.Int.{pos}
use extend_game_telemetry_co.Prelude.Result.{ok}
use extend_game_telemetry_co.Storage.{StoragePlugin, Plugin}
use extend_game_telemetry_co.Dedup.{Remembers}
use extend_game_telemetry_co.Batcher
use extend_game_telemetry_co.Processor
use extend_game_telemetry_co.Processor.{
  Processor, DedupObject, new_processor, count_processed, write_to_plugin, advance, check_duplicate,
  submit, mark_seen, offer, await_room, close_input, force_exit,
}
use extend_game_telemetry_co.Processor.Fanout.{Journals}
use extend_game_telemetry_co.System.{
  System, Action, submits, proceeds, receives, stores, hands, writes, stops, closes, Outcome, next,
  disabled, crash, boot, start, launch, step, run, settle, on_worker, on_receive, on_hand, on_write,
  on_caller, on_close, receive, store, fire, stop,
}
use extend_game_telemetry_co.System.Reasoning.{Ensures}
use extend_game_telemetry_co.System.Conservation.{IsConserved, step-IsConserved}
use extend_game_telemetry_co.System.Accounting.{IsAccounted, run-IsAccounted}
use extend_game_telemetry_co.System.Exit.{IsDone, exit_delivers}
use extend_game_telemetry_co.System.Drain.{IsOwn, closed_drains}
use extend_game_telemetry_co.System.Fifo.{exit_in_order}
use extend_game_telemetry_co.System.Retry.{refused_and_retried, IsLost, retry_swallowed}
use extend_game_telemetry_co.System.Race.{by_turns, race_accepts_twice}
use extend_game_telemetry_co.System.Backends.{backend_stores, exit_stores}
use extend_game_telemetry_co.System.Flight.{counts, in_flight}

-- The state of a test backend is what it has stored.
abbrev journal : StoragePlugin (List ℕ) ℕ
journal = record {
  name = codes "journal";
  initialize = λ ctx st. (none, st);
  filter = λ st e. ltb e 9;
  write_batch = λ ctx batch st. ((pos 0, none), st ++ batch);
  close = λ st. (none, st);
  health_check = λ ctx st. none;
}

journal-Journals :
    Journals {S = List ℕ} (λ st. Unit {0}) (λ st. st) (λ e. some e) (λ e. ltb e 9) journal
journal-Journals = record {
  filters = λ st good. refl;
  appends = λ ctx batch st good. ap (λ xs. st ++ xs) (sym (images-some batch));
  stays = λ ctx batch st good. tt;
}

abbrev backend : Plugin (List ℕ) ℕ
backend = record { methods = journal; state = [] }

abbrev config : Processor.Config
config = record {
  workers = pos 1;
  channel_buffer = pos 2;
  batch_size = pos 2;
  flush_interval = pos 5;
}

abbrev no_dedup : Option (DedupObject (Unit {0}) ℕ)
no_dedup = none

abbrev System' : Type 0
System' = System (Unit {0}) (List ℕ) ℕ

abbrev booted : Processor (Unit {0}) (List ℕ) ℕ
booted = record {
  workers = pos 1;
  batch_size = pos 2;
  flush_interval = pos 5;
  input_chan = record { buffer = []; capacity = 2; closed = false };
  plugins = backend ∷ [];
  deduplicator = none;
  ctx = record { cancelled = false; timeout = none };
  metrics = record {
    events_received = 0;
    events_processed = 0;
    events_duplicated = 0;
    events_dropped = 0;
  };
}

abbrev first : System'
first = record {
  proc = booted;
  workers =
      record {
        batcher = record { events = []; max_size = pos 2; max_wait = pos 5; timer = none };
        holding = none;
        writing = none;
        written = [];
        running = true;
      }
      ∷ [];
  callers = [];
  submissions = 0;
  accepted = [];
  delivered = [];
}

first_boots : boot config (backend ∷ []) no_dedup ≡ some first
unfolding boot new_processor start launch Batcher.new_batcher Option.bind
first_boots = refl

-- One call of `Submit` with nothing in between.
abbrev sends : ℕ → List (Action ℕ) → List (Action ℕ)
sends e rest = submits e ∷ proceeds 0 0 false ∷ proceeds 0 0 false ∷ proceeds 0 0 false ∷ rest

abbrev takes : List (Action ℕ) → List (Action ℕ)
takes rest = receives 0 ∷ stores 0 1 ∷ rest

abbrev schedule : List (Action ℕ)
schedule = sends 4 (
    sends 9 (
      takes (
        sends 7
          (takes (hands 0 0 ∷ writes 0 ∷ closes ∷ takes (stops 0 ∷ hands 0 0 ∷ writes 0 ∷ []))))))

abbrev left_by : Outcome (Unit {0}) (List ℕ) ℕ → System'
left_by (next s) = s
left_by disabled = first
left_by crash = first

last : System'
last = left_by (run schedule first)

schedule_runs : run schedule first ≡ next last
unfolding last run step settle on_worker on_receive on_hand on_write on_caller on_close receive
    store fire stop advance check_duplicate mark_seen offer await_room close_input count_processed
    write_to_plugin Batcher.add Batcher.flush Batcher.flush_all Batcher.start_timer
schedule_runs = refl

last_delivered :
    (last.delivered ≡ 4 ∷ 9 ∷ 7 ∷ []) × (last.proc.ctx.cancelled ≡ false) × All IsDone last.workers
unfolding last run step settle on_worker on_receive on_hand on_write on_caller on_close receive
    store fire stop advance check_duplicate mark_seen offer await_room close_input count_processed
    write_to_plugin Batcher.add Batcher.flush Batcher.flush_all Batcher.start_timer
last_delivered = (refl, refl, ((refl, refl), tt))

step-IsConserved_example : Ensures (IsConserved (λ e. ltb e 9)) (step (submits 4) first)
step-IsConserved_example = step-IsConserved (λ e. ltb e 9) (submits 4) first refl

run-IsAccounted_example : IsAccounted last
run-IsAccounted_example =
    run-IsAccounted config (backend ∷ []) no_dedup schedule first_boots schedule_runs

exit_delivers_example : count (λ e. ltb e 9) last.accepted ≡ count (λ e. ltb e 9) last.delivered
exit_delivers_example =
    exit_delivers config (backend ∷ []) no_dedup (λ e. ltb e 9) schedule first_boots (omega arith)
      schedule_runs last_delivered.1 last_delivered.2

-- A batch that the backend was handed and whose processing goes on.
abbrev halfway : List (Action ℕ)
halfway = sends 4 (sends 7 (takes (takes (hands 0 0 ∷ []))))

mid : (s : System') × (run halfway first ≡ next s)
unfolding run step settle on_worker on_receive on_hand on_caller receive store advance
    check_duplicate mark_seen offer await_room write_to_plugin Batcher.add Batcher.flush
    Batcher.start_timer
mid = (_, refl)

backend_stores_example :
    (plugin : Plugin (List ℕ) ℕ) × (get_elem? mid.0.proc.plugins 0 ≡ some plugin)
    × (count (λ _. true) plugin.state
        ≡ count (counts (λ e. some e) (λ e. ltb e 9) (λ _. true)) mid.0.delivered
          + total
              (λ w. count (counts (λ e. some e) (λ e. ltb e 9) (λ _. true)) (in_flight 0 w))
              mid.0.workers)
backend_stores_example =
    backend_stores journal-Journals 0 config (backend ∷ []) no_dedup halfway first_boots mid.1 refl
      (refl, tt, refl) (λ _. true)

exit_stores_example :
    (plugin : Plugin (List ℕ) ℕ) × (get_elem? last.proc.plugins 0 ≡ some plugin)
    × (count (λ _. true) plugin.state ≡ count (λ e. ltb e 9 && true) last.accepted)
exit_stores_example =
    exit_stores journal-Journals 0 config (backend ∷ []) no_dedup schedule first_boots schedule_runs
      refl (refl, tt, refl) (λ _. true) (omega arith) last_delivered.1 last_delivered.2

-- The first state with its channel closed and an event still queued.
abbrev closing : System'
closing = record first {
  proc = record booted { input_chan = record { buffer = 4 ∷ []; capacity = 2; closed = true } };
}

closed_drains_example :
    (actions : List (Action ℕ)) × All IsOwn actions
    × (s' : System') × (run actions closing ≡ next s')
    × All IsDone s'.workers
closed_drains_example = closed_drains closing refl

-- A deduplicator that lists what was marked.
abbrev listing : DedupObject (List ℕ) ℕ
listing = record {
  methods = record {
    is_duplicate = λ ctx e d. ok (ltb 0 (count (λ x. x == e) d));
    mark = λ ctx now e d. (none, e ∷ d);
    close = λ d. some (none, d);
  };
  state = [];
}

abbrev guarded : System (List ℕ) (List ℕ) ℕ
guarded = record {
  proc = record {
    workers = pos 1;
    batch_size = pos 2;
    flush_interval = pos 5;
    input_chan = record { buffer = []; capacity = 2; closed = false };
    plugins = backend ∷ [];
    deduplicator = some listing;
    ctx = record { cancelled = false; timeout = none };
    metrics = booted.metrics;
  };
  workers = first.workers;
  callers = [];
  submissions = 0;
  accepted = [];
  delivered = [];
}

race_accepts_twice_example :
    (s' : System (List ℕ) (List ℕ) ℕ) × (run (by_turns 1 2 4) guarded ≡ next s')
    × (s'.accepted ≡ [] ++ 4 ∷ 4 ∷ [])
race_accepts_twice_example =
    race_accepts_twice 1 2 4 guarded listing refl refl refl refl (omega arith)

exit_in_order_example :
    (plugin : Plugin (List ℕ) ℕ) × (get_elem? last.proc.plugins 0 ≡ some plugin)
    × (plugin.state ≡ images (λ x. some x) (keep (λ e. ltb e 9) last.accepted))
exit_in_order_example =
    exit_in_order config (backend ∷ []) no_dedup schedule first_boots refl schedule_runs
      journal-Journals 0 refl (refl, tt, refl) last_delivered.1 last_delivered.2

-- A processor with a channel of one place, whose one worker has not received the event in it.
abbrev narrow : Processor.Config
narrow = record {
  workers = pos 1;
  channel_buffer = pos 1;
  batch_size = pos 2;
  flush_interval = pos 5;
}

abbrev narrow_start : System (List ℕ) (List ℕ) ℕ
narrow_start = record guarded {
  proc = record (guarded.proc) {
    input_chan = record { buffer = []; capacity = 1; closed = false };
  };
}

narrow_boots : boot narrow (backend ∷ []) (some listing) ≡ some narrow_start
unfolding boot new_processor start launch Batcher.new_batcher Option.bind
narrow_boots = refl

narrow_filled :
    (full : System (List ℕ) (List ℕ) ℕ) × (run
        (submits 9
          ∷ proceeds 0 0 false
          ∷ proceeds 0 0 false
          ∷ proceeds 0 0 false
          ∷ proceeds 0 0 false
          ∷ [])
        narrow_start
      ≡ next full)
unfolding run step settle on_caller advance check_duplicate mark_seen offer await_room
narrow_filled = (_, refl)

-- What it has marked.
abbrev listed : DedupObject (List ℕ) ℕ
listed = record listing { state = 9 ∷ [] }

listing-Remembers : Remembers listing.methods
listing-Remembers ctx ctx' now e d = ground (arith, ==_iff e e)

retry_swallowed_example :
    (s' : System (List ℕ) (List ℕ) ℕ) × (run (refused_and_retried 3 4 7) narrow_filled.0 ≡ next s')
    × IsLost 3 4 7 narrow_filled.0 listed s'
unfolding narrow_filled
retry_swallowed_example =
    retry_swallowed 3 4 7 narrow_filled.0 listed listing-Remembers refl refl refl refl refl
