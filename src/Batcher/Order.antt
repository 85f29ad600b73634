-- ===== src/Batcher/Order.antt =====
-- No event is lost, repeated or reordered by a batcher (pkg/processor/batcher.go).
use mathlib.Core.List.{append_assoc, append-nil, flatten}
use extend_game_telemetry_co.Prelude.{
  ℕ, ◌≡◌, refl, sym, ◌∙◌, ◌++◌, Option, none, some, List, [], ◌∷◌, arith,
}
use extend_game_telemetry_co.Batcher.{
  Batcher, Call, add_at, timer_fires, flush_now, call, run, optional_cons, add, flush,
  timeout_flush, flush_all, start_timer,
}

module _ {T : Type 0} where
  -- The events of an optional batch.
  abbrev pub batch_of : Option (List T) → List T
  batch_of none = []
  batch_of (some batch) = batch

  -- The events that a history adds, in order.
  abbrev pub added : List (Call T) → List T
  added [] = []
  added (add_at now e ∷ calls) = e ∷ added calls
  added (timer_fires ∷ calls) = added calls
  added (flush_now ∷ calls) = added calls

  pub flush_order : (b : Batcher T) → batch_of (flush b).1 ++ (flush b).0.events ≡ b.events
  unfolding flush
  flush_order b = ground (arith, append-nil b.events)

  pub events-start_timer : (now : ℕ) (b : Batcher T) → (start_timer now b).events ≡ b.events
  unfolding start_timer
  events-start_timer now b = ground arith

  pub add_order :
      (now : ℕ) (e : T) (b : Batcher T)
      → batch_of (add now e b).1 ++ (add now e b).0.events ≡ b.events ++ e ∷ []
  unfolding add
  add_order now e b =
      let b' = start_timer now (record b { events = b.events ++ e ∷ [] }) in
      ground
        (arith, flush_order b', events-start_timer now (record b { events = b.events ++ e ∷ [] }))

  call_order :
      (c : Call T) (b : Batcher T)
      → batch_of (call c b).1 ++ (call c b).0.events ≡ b.events ++ added (c ∷ [])
  unfolding call timeout_flush flush_all
  call_order (add_at now e) b = add_order now e b
  call_order timer_fires b = flush_order b ∙ sym (append-nil b.events)
  call_order flush_now b = flush_order b ∙ sym (append-nil b.events)

  flatten-optional_cons :
      (batch : Option (List T)) (rest : List (List T))
      → flatten (optional_cons batch rest) ≡ batch_of batch ++ flatten rest
  unfolding flatten
  flatten-optional_cons none rest = refl
  flatten-optional_cons (some batch) rest = refl

  added-cons :
      (c : Call T) (calls : List (Call T)) → added (c ∷ []) ++ added calls ≡ added (c ∷ calls)
  added-cons (add_at now e) calls = refl
  added-cons timer_fires calls = refl
  added-cons flush_now calls = refl

  -- Over any history of calls, the batches handed to the flush function, put end to end, and
  -- then what is still pending are the events that were pending before and then the added ones,
  -- each once and in the order of the calls.
  pub run_order :
      (calls : List (Call T)) (b : Batcher T)
      → flatten (run calls b).1 ++ (run calls b).0.events ≡ b.events ++ added calls
  unfolding run flatten
  run_order [] b = sym (append-nil b.events)
  run_order (c ∷ calls) b = rw (flatten-optional_cons (call c b).1 (run calls (call c b).0).1) (
      simp (append_assoc, run_order calls (call c b).0)
        (simp (← append_assoc, call_order c b) (simp (append_assoc, added-cons c calls))))
