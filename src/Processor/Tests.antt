-- ===== src/Processor/Tests.antt =====
-- `Submit` at a processor with the in-memory deduplicator, and the fan-out to a storing backend.
use extend_game_telemetry_co.Prelude.{
  ap, sym, images-some, ◌++◌, ◌≡◌, refl, Bool, true, false, none, some, List, [], ◌∷◌, Text, codes,
  if◌then◌else◌,
}
use extend_game_telemetry_co.Prelude.Int.{pos}
use extend_game_telemetry_co.Storage.{StoragePlugin, Deduplicatable}
use extend_game_telemetry_co.Dedup.Memory.{MemoryDeduplicator, memory_deduplicator}
use extend_game_telemetry_co.Processor.{Processor, DedupObject, returned, submit, count_duplicated}
use extend_game_telemetry_co.Processor.Fanout.{Journals}
use extend_game_telemetry_co.Processor.Submission.{seen_before, send_outcome, submit_cases}

abbrev by_itself : Deduplicatable Text
by_itself = record { deduplication_key = λ e. e }

abbrev memory : DedupObject MemoryDeduplicator Text
memory = record {
  methods = memory_deduplicator (λ k. k) by_itself;
  state = record { cache = []; ttl = pos 60; stopped = false };
}

abbrev storing : StoragePlugin (List Text) Text
storing = record {
  name = codes "storing";
  initialize = λ ctx st. (none, st);
  filter = λ st e. true;
  write_batch = λ ctx batch st. ((pos 0, none), st ++ batch);
  close = λ st. (none, st);
  health_check = λ ctx st. none;
}

storing-Journals :
    Journals {S = List Text} (λ st. Unit {0}) (λ st. st) (λ e. some e) (λ e. true) storing
storing-Journals = record {
  filters = λ st good. refl;
  appends = λ ctx batch st good. ap (λ xs. st ++ xs) (sym (images-some batch));
  stays = λ ctx batch st good. tt;
}

-- A processor with a queue of one event, empty or full, open or closed, cancelled or not.
abbrev processor_at : List Text → Bool → Bool → Processor MemoryDeduplicator (List Text) Text
processor_at buffer closed cancelled = record {
  workers = pos 1;
  batch_size = pos 2;
  flush_interval = pos 5;
  input_chan = record { buffer = buffer; capacity = 1; closed = closed };
  plugins = record { methods = storing; state = [] } ∷ [];
  deduplicator = some memory;
  ctx = record { cancelled = cancelled; timeout = none };
  metrics = record {
    events_received = 0;
    events_processed = 0;
    events_duplicated = 0;
    events_dropped = 0;
  };
}

abbrev login : Text
login = codes "login"

abbrev idle : Processor MemoryDeduplicator (List Text) Text
idle = processor_at [] false false

submit_cases_example : submit 3 true login idle ≡ (
    if seen_before 3 true login idle
    then returned none (count_duplicated idle)
    else send_outcome 3 true login idle)
submit_cases_example = submit_cases 3 true login idle
