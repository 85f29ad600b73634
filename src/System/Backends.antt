-- ===== src/System/Backends.antt =====
-- From `Submit` to a storage backend: what a plugin has stored after any schedule
-- (pkg/processor/processor.go).
use mathlib.Core.Path.{subst}
use mathlib.Core.Option.{some-injective}
use extend_game_telemetry_co.Prelude.{
  none, ◌∷◌, ◌+◌, ◌==◌, ==_iff, length, total, total-set, total-eq-zero, All-mono, count-append,
  images, refl, Bool-cases, inl, inr, ℕ, ◌<◌, ◌≡◌, sym, ap, ◌∙◌, Bool, false, ◌&&◌, Option, some,
  List, [], keep, count, count-keep, yields, count-images, get_elem?, All, arith,
}
use extend_game_telemetry_co.Prelude.Int.{pos_part}
use extend_game_telemetry_co.Storage.{StoragePlugin, Plugin}
use extend_game_telemetry_co.Processor
use extend_game_telemetry_co.Processor.{
  write_to_plugin, Processor, DedupObject, Stage, entered, Progress, moved, queued, returned,
  blocked, panicked, advance, count_processed, close_input, force_exit, check_duplicate, mark_seen,
  offer, await_room,
}
use extend_game_telemetry_co.Processor.Fanout.{Journals, IsSink, write_to_plugin-log}
use extend_game_telemetry_co.System.{
  on_hand, hands, has, Worker, Caller, System, Action, submits, proceeds, receives, stores, fires,
  writes, stops, closes, forces, next, settle, on_worker, on_receive, on_write, on_caller, on_close,
  step, run, store, fire, stop, receive, boot,
}
use extend_game_telemetry_co.System.Reasoning.{
  on_force-Ensures, on_hand-Ensures, on_write-Ensures, Ensures, run-Ensures, Ensures_next,
  with_some-Ensures,
}
use extend_game_telemetry_co.System.Launch.{IsNew, IsFresh, boot-plugins, boot-IsFresh}
use extend_game_telemetry_co.System.Exit.{IsDone, exit_delivers}
use extend_game_telemetry_co.System.Flight.{
  counts, covers-has, done_flight, fire_flight, get_elem?-length, get_elem?-set, in_flight,
  new_flight, receive_flight, stop_flight, store_flight,
}

module _ {D S T : Type 0} where
  -- A caller's step leaves the plugins alone.
  abbrev pub SamePlugins : Processor D S T → Progress D S T → Type 0
  SamePlugins p (moved stage p') = p'.plugins ≡ p.plugins
  SamePlugins p (queued p') = p'.plugins ≡ p.plugins
  SamePlugins p (returned failure p') = p'.plugins ≡ p.plugins
  SamePlugins p blocked = Unit
  SamePlugins p panicked = Unit

  pub advance-SamePlugins :
      (stage : Stage) (now : ℕ) (prefer_done : Bool) (e : T) (p : Processor D S T)
      → SamePlugins p (advance stage now prefer_done e p)
  unfolding advance check_duplicate mark_seen offer await_room
  advance-SamePlugins Processor.entered now prefer_done e p = ground arith
  advance-SamePlugins Processor.unmarked now prefer_done e p = ground arith
  advance-SamePlugins Processor.offering now prefer_done e p = ground arith
  advance-SamePlugins Processor.waiting now prefer_done e p = ground arith
  advance-SamePlugins Processor.counting now prefer_done e p = ground arith

module _ {D S T X : Type 0} {IsGood : S → Type 0} {log : S → List X} {image : T → Option X}
    {passes : T → Bool} {m : StoragePlugin S T} (j : Journals IsGood log image passes m) (i : ℕ)
    (f : X → Bool) where
  -- The plugin at place `i` has stored the entries of the delivered events that pass its filter and
  -- of those of the running batches that it has been handed.
  abbrev pub HasStored : System D S T → Type 0
  HasStored s =
      (plugin : Plugin S T) × (get_elem? s.proc.plugins i ≡ some plugin)
      × (plugin.methods ≡ m)
      × IsGood plugin.state
      × (count f (log plugin.state)
          ≡ count (counts image passes f) s.delivered
            + total (λ w. count (counts image passes f) (in_flight i w)) s.workers)

  settle-HasStored :
      (k : ℕ) (c : Caller T) (s : System D S T) (o : Progress D S T)
      → SamePlugins s.proc o
      → HasStored s
      → Ensures HasStored (settle k c s o)
  unfolding settle
  settle-HasStored k c s (moved stage p) same h =
      (h.0, ap (λ ps. get_elem? ps i) same ∙ h.1, h.2, h.3, h.4)
  settle-HasStored k c s (queued p) same h =
      (h.0, ap (λ ps. get_elem? ps i) same ∙ h.1, h.2, h.3, h.4)
  settle-HasStored k c s (returned failure p) same h =
      (h.0, ap (λ ps. get_elem? ps i) same ∙ h.1, h.2, h.3, h.4)
  settle-HasStored k c s blocked same h = tt
  settle-HasStored k c s panicked same h = tt

  -- A worker's step that leaves its running batch alone, or begins one.
  on_worker-HasStored :
      (k : ℕ) (g : Worker T → Option (Worker T)) (s : System D S T)
      → ((w w' : Worker T) → g w ≡ some w' → in_flight i w' ≡ in_flight i w)
      → HasStored s
      → Ensures HasStored (on_worker k g s)
  unfolding on_worker
  on_worker-HasStored k g s keep (plugin, at, same, good, stored) =
      with_some-Ensures HasStored (get_elem? s.workers k) _ λ w e.
        with_some-Ensures HasStored (g w) _ λ w' went. (
          plugin,
          at,
          same,
          good,
          omega (
            arith,
            stored,
            total-set (λ v. count (counts image passes f) (in_flight i v)) s.workers k w w' e,
            ap (count (counts image passes f)) (keep w w' went),
          ),
        )

  on_hand-HasStored : (n k : ℕ) (s : System D S T) → HasStored s → Ensures HasStored (on_hand n k s)
  on_hand-HasStored n k s (plugin, at, same, good, stored) =
      on_hand-Ensures HasStored n k s λ w batch handed at_worker busy there new.
        let w' : Worker T = record w { written = k ∷ w.written } in
        let set_at =
          get_elem?-set s.proc.plugins k i plugin (write_to_plugin s.proc.ctx batch handed) at in
        let weight =
          total-set (λ v. count (counts image passes f) (in_flight i v)) s.workers n w w'
            at_worker in
        elim (Bool-cases (k == i)) [
          | inl here ↦
              let it_is : plugin ≡ handed =
                some-injective _ _
                  (sym at ∙ ap (get_elem? s.proc.plugins) (sym ((==_iff k i).0 here)) ∙ there) in
              let (same', good', logged) =
                write_to_plugin-log j s.proc.ctx batch handed
                  (ap (λ (p : Plugin S T). p.methods) (sym it_is) ∙ same)
                  (subst (λ (p : Plugin S T). IsGood p.state) it_is good) in
              let unflown : in_flight i w ≡ [] =
                rw (ap (λ x. has x w.written) (sym ((==_iff k i).0 here)) ∙ new) refl in
              let flown : in_flight i w' ≡ batch = rw (here, busy) refl in
              (
                write_to_plugin s.proc.ctx batch handed,
                set_at ∙ rw here refl,
                same',
                good',
                omega (
                  arith,
                  stored,
                  weight,
                  ap (λ (p : Plugin S T). count f (log p.state)) it_is,
                  ap (count f) logged,
                  count-append f (log handed.state) (images image (keep passes batch)),
                  count-images f image (keep passes batch),
                  count-keep passes (yields f image) batch,
                  ap (count (counts image passes f)) unflown,
                  ap (count (counts image passes f)) flown,
                ),
              )
          | inr other ↦
              let still : in_flight i w' ≡ in_flight i w = rw other refl in
              (
                plugin,
                set_at ∙ rw other refl,
                same,
                good,
                omega (arith, stored, weight, ap (count (counts image passes f)) still),
              )
        ]

  on_write-HasStored : (n : ℕ) (s : System D S T) → HasStored s → Ensures HasStored (on_write n s)
  unfolding count_processed
  on_write-HasStored n s (plugin, at, same, good, stored) =
      on_write-Ensures HasStored n s λ w batch at_worker busy all_written.
        let handed =
          covers-has (length s.proc.plugins) w.written i all_written
            (get_elem?-length s.proc.plugins i at) in
        let w' : Worker T = record w { writing = none; written = [] } in
        let flew : in_flight i w ≡ batch = rw (handed, busy) refl in
        (
          plugin,
          at,
          same,
          good,
          omega (
            arith,
            stored,
            count-append (counts image passes f) s.delivered batch,
            total-set (λ v. count (counts image passes f) (in_flight i v)) s.workers n w w'
                at_worker,
            ap (count (counts image passes f)) flew,
          ),
        )

  step-HasStored : (a : Action T) (s : System D S T) → HasStored s → Ensures HasStored (step a s)
  unfolding step on_caller on_receive on_close close_input force_exit
  step-HasStored (submits e) s h = h
  step-HasStored (proceeds k now prefer_done) s h =
      with_some-Ensures HasStored (get_elem? s.callers k) _ λ c e.
        settle-HasStored k c s (advance c.stage now prefer_done c.event s.proc)
          (advance-SamePlugins c.stage now prefer_done c.event s.proc) h
  step-HasStored (receives k) s (plugin, at, same, good, stored) =
      with_some-Ensures HasStored (get_elem? s.workers k) _ λ w e.
        with_some-Ensures HasStored (receive s.proc.input_chan w) _ λ (w', c) went. (
          plugin,
          at,
          same,
          good,
          omega (
            arith,
            stored,
            total-set (λ v. count (counts image passes f) (in_flight i v)) s.workers k w w' e,
            ap (count (counts image passes f)) (receive_flight i s.proc.input_chan w w' c went),
          ),
        )
  step-HasStored (stores k now) s h = on_worker-HasStored k (store now) s (store_flight i now) h
  step-HasStored (fires k) s h = on_worker-HasStored k fire s (fire_flight i) h
  step-HasStored (hands n k) s h = on_hand-HasStored n k s h
  step-HasStored (writes n) s h = on_write-HasStored n s h
  step-HasStored (stops k) s h =
      on_worker-HasStored k (stop s.proc.ctx.cancelled s.proc.input_chan) s
        (stop_flight i s.proc.ctx.cancelled s.proc.input_chan) h
  step-HasStored closes s h = ground arith
  step-HasStored forces s h = on_force-Ensures HasStored s h

  IsFresh-HasStored :
      {n : ℕ} {plugin : Plugin S T} (s : System D S T)
      → IsFresh n s
      → get_elem? s.proc.plugins i ≡ some plugin
      → IsSink j [] plugin
      → HasStored s
  IsFresh-HasStored {plugin = plugin} s fresh at unused =
      let idle =
        total-eq-zero (λ w. count (counts image passes f) (in_flight i w)) s.workers
          (All-mono IsNew (λ w. count (counts image passes f) (in_flight i w) ≡ 0) s.workers
            (λ w new. ap (count (counts image passes f)) (new_flight i w new)) fresh.new_workers) in
      (
        plugin,
        at,
        unused.0,
        unused.1,
        omega (
          arith,
          ap (count f) unused.2,
          ap (count (counts image passes f)) fresh.no_delivered,
          idle,
        ),
      )

module _ {D S T X : Type 0} {IsGood : S → Type 0} {log : S → List X} {image : T → Option X}
    {passes : T → Bool} {m : StoragePlugin S T} (j : Journals IsGood log image passes m) (i : ℕ)
    (config : Processor.Config) (plugins : List (Plugin S T))
    (deduplicator : Option (DedupObject D T)) (actions : List (Action T)) {s₀ s : System D S T}
    {plugin : Plugin S T} (up : boot config plugins deduplicator ≡ some s₀)
    (went : run actions s₀ ≡ next s) (at : get_elem? plugins i ≡ some plugin)
    (unused : IsSink j [] plugin) where
  -- A backend that stores an entry of each event that it is handed and can represent, started empty
  -- at any place among the plugins: after any schedule, whatever the order in which the workers'
  -- batches reach the plugins, it has stored the entry of every event that passes its filter in the
  -- processed batches and in those of the batches still being processed that it has been handed,
  -- each as often as the event is there, and nothing else. (For every test `f` as many stored
  -- entries pass it as these events have an entry that does.)
  pub backend_stores :
      (f : X → Bool)
      → (plugin' : Plugin S T) × (get_elem? s.proc.plugins i ≡ some plugin')
        × (count f (log plugin'.state)
            ≡ count (counts image passes f) s.delivered
              + total (λ w. count (counts image passes f) (in_flight i w)) s.workers)
  backend_stores f =
      let (plugin', at', same, good, stored) = Ensures_next (HasStored j i f) went (
        run-Ensures (HasStored j i f) (step-HasStored j i f) actions s₀ (
          IsFresh-HasStored j i f s₀ (boot-IsFresh config plugins deduplicator up)
            (ap (λ ps. get_elem? ps i) (boot-plugins config plugins deduplicator up) ∙ at)
            unused)) in
      (plugin', at', stored)

  -- A backend that stores an entry of each event that it is handed and can represent, started
  -- empty at any place among the plugins: after any schedule in which the context was not
  -- cancelled and every one of at least one worker has exited, it has stored the entry of every
  -- accepted event that passes its filter, as often as it was accepted, and nothing else. (For
  -- every test `f` as many stored entries pass it as accepted events have an entry that does.)
  pub exit_stores :
      (f : X → Bool)
      → 0 < pos_part config.workers
      → s.proc.ctx.cancelled ≡ false
      → All IsDone s.workers
      → (plugin' : Plugin S T) × (get_elem? s.proc.plugins i ≡ some plugin')
        × (count f (log plugin'.state) ≡ count (λ e. passes e && yields f image e) s.accepted)
  exit_stores f some_worker live done =
      let (plugin', at', stored) = backend_stores f in
      let idle =
        total-eq-zero (λ w. count (counts image passes f) (in_flight i w)) s.workers
          (All-mono IsDone (λ w. count (counts image passes f) (in_flight i w) ≡ 0) s.workers
            (λ w out. ap (count (counts image passes f)) (done_flight i w out)) done) in
      (
        plugin',
        at',
        omega (
          arith,
          stored,
          idle,
          exit_delivers config plugins deduplicator (counts image passes f) actions up some_worker
              went live done,
        ),
      )
