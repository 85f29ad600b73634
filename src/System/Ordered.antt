-- ===== src/System/Ordered.antt =====
-- What a plugin has stored of the one worker's batches, in order (pkg/processor/processor.go).
use mathlib.Core.List.{append-nil}
use mathlib.Core.Option.{some-injective}
use mathlib.Core.Path.{subst}
use extend_game_telemetry_co.Prelude.{
  length, keep-append, ◌==◌, ==_iff, Bool-cases, inl, inr, ℕ, ◌++◌, ◌≡◌, ◌∙◌, refl, sym, ap, Bool,
  Option, none, some, List, [], ◌∷◌, keep, get_elem?, arith, All,
}
use extend_game_telemetry_co.Storage.{StoragePlugin, Plugin}
use extend_game_telemetry_co.Processor.{
  write_to_plugin, Progress, moved, queued, returned, blocked, panicked, advance, count_processed,
  close_input, force_exit,
}
use extend_game_telemetry_co.System.{
  on_hand, hands, has, Worker, Caller, System, Action, submits, proceeds, receives, stores, fires,
  writes, stops, closes, forces, settle, on_worker, on_receive, on_write, on_caller, on_close, step,
  store, fire, stop, receive,
}
use extend_game_telemetry_co.System.Reasoning.{
  on_force-Ensures, on_hand-Ensures, on_write-Ensures, Ensures, with_some-Ensures,
}
use extend_game_telemetry_co.Processor.Fanout.{Journals, IsSink, write_to_plugin-IsSink}
use extend_game_telemetry_co.System.Backends.{SamePlugins, advance-SamePlugins}
use extend_game_telemetry_co.System.Flight.{
  covers-has, fire_flight, get_elem?-length, get_elem?-set, in_flight, new_flight, receive_flight,
  stop_flight, store_flight,
}
use extend_game_telemetry_co.System.Launch.{IsNew, IsFresh}
use extend_game_telemetry_co.System.Line.{single, sole}

module _ {D S T X : Type 0} {IsGood : S → Type 0} {log : S → List X} {image : T → Option X}
    {passes : T → Bool} {m : StoragePlugin S T} (j : Journals IsGood log image passes m)
    (i : ℕ) where
  -- With one worker, the plugin at place `i` has stored the entries of the delivered events that pass
  -- its filter, in order, and then those of the running batch, if it has been handed that.
  abbrev pub HasInOrder : System D S T → Type 0
  HasInOrder s =
      (w : Worker T) × (s.workers ≡ w ∷ [])
      × (plugin : Plugin S T) × (get_elem? s.proc.plugins i ≡ some plugin)
      × IsSink j (keep passes (s.delivered ++ in_flight i w)) plugin

  on_worker-HasInOrder :
      (n : ℕ) (g : Worker T → Option (Worker T)) (s : System D S T)
      → ((w w' : Worker T) → g w ≡ some w' → in_flight i w' ≡ in_flight i w)
      → HasInOrder s
      → Ensures HasInOrder (on_worker n g s)
  unfolding on_worker
  on_worker-HasInOrder n g s keeps (w, one, plugin, at, sink) =
      with_some-Ensures HasInOrder (get_elem? s.workers n) _ λ v here.
        with_some-Ensures HasInOrder (g v) _ λ w' went.
          let (same, after) = sole s.workers w v w' n one here in
          (
            w',
            after,
            plugin,
            at,
            subst (λ es. IsSink j (keep passes (s.delivered ++ es)) plugin)
                (sym (keeps v w' went ∙ ap (in_flight i) same)) sink,
          )

  on_hand-HasInOrder :
      (n k : ℕ) (s : System D S T) → HasInOrder s → Ensures HasInOrder (on_hand n k s)
  on_hand-HasInOrder n k s (w, one, plugin, at, sink) =
      on_hand-Ensures HasInOrder n k s λ v batch handed here busy there new.
        let v' : Worker T = record v { written = k ∷ v.written } in
        let (same, after) = sole s.workers w v v' n one here in
        let set_at =
          get_elem?-set s.proc.plugins k i plugin (write_to_plugin s.proc.ctx batch handed) at in
        elim (Bool-cases (k == i)) [
          | inl place ↦
              let it_is : plugin ≡ handed =
                some-injective _ _
                  (sym at ∙ ap (get_elem? s.proc.plugins) (sym ((==_iff k i).0 place)) ∙ there) in
              let unflown : in_flight i w ≡ [] =
                ap (in_flight i) (sym same)
                ∙ rw (ap (λ x. has x v.written) (sym ((==_iff k i).0 place)) ∙ new) refl in
              let flown : in_flight i v' ≡ batch = rw (place, busy) refl in
              let before : s.delivered ++ in_flight i w ≡ s.delivered =
                ap (λ es. s.delivered ++ es) unflown ∙ append-nil s.delivered in
              let sunk =
                write_to_plugin-IsSink j s.proc.ctx batch (keep passes s.delivered) handed (
                  subst (λ p. IsSink j (keep passes s.delivered) p) it_is
                    (subst (λ es. IsSink j (keep passes es) plugin) before sink)) in
              (
                v',
                after,
                write_to_plugin s.proc.ctx batch handed,
                set_at ∙ rw place refl,
                subst (λ es. IsSink j es (write_to_plugin s.proc.ctx batch handed))
                    (sym (keep-append passes s.delivered batch)
                      ∙ ap (λ es. keep passes (s.delivered ++ es)) (sym flown))
                    sunk,
              )
          | inr other ↦
              let still : in_flight i v' ≡ in_flight i w =
                (let kept : in_flight i v' ≡ in_flight i v = rw other refl in
                  kept ∙ ap (in_flight i) same) in
              (
                v',
                after,
                plugin,
                set_at ∙ rw other refl,
                subst (λ es. IsSink j (keep passes (s.delivered ++ es)) plugin) (sym still) sink,
              )
        ]

  on_write-HasInOrder :
      (n : ℕ) (s : System D S T) → HasInOrder s → Ensures HasInOrder (on_write n s)
  unfolding count_processed
  on_write-HasInOrder n s (w, one, plugin, at, sink) =
      on_write-Ensures HasInOrder n s λ v batch here busy all_written.
        let out : Worker T = record v { writing = none; written = [] } in
        let (same, after) = sole s.workers w v out n one here in
        let handed =
          covers-has (length s.proc.plugins) v.written i all_written
            (get_elem?-length s.proc.plugins i at) in
        let flew : in_flight i w ≡ batch = ap (in_flight i) (sym same) ∙ rw (handed, busy) refl in
        (
          out,
          after,
          plugin,
          at,
          subst (λ es. IsSink j (keep passes es) plugin)
              (ap (λ es. s.delivered ++ es) flew ∙ sym (append-nil (s.delivered ++ batch))) sink,
        )

  settle-HasInOrder :
      (k : ℕ) (c : Caller T) (s : System D S T) (o : Progress D S T)
      → SamePlugins s.proc o
      → HasInOrder s
      → Ensures HasInOrder (settle k c s o)
  unfolding settle
  settle-HasInOrder k c s (moved stage p) same (w, one, plugin, at, sink) =
      (w, one, plugin, ap (λ ps. get_elem? ps i) same ∙ at, sink)
  settle-HasInOrder k c s (queued p) same (w, one, plugin, at, sink) =
      (w, one, plugin, ap (λ ps. get_elem? ps i) same ∙ at, sink)
  settle-HasInOrder k c s (returned failure p) same (w, one, plugin, at, sink) =
      (w, one, plugin, ap (λ ps. get_elem? ps i) same ∙ at, sink)
  settle-HasInOrder k c s blocked same h = tt
  settle-HasInOrder k c s panicked same h = tt

  pub step-HasInOrder :
      (a : Action T) (s : System D S T) → HasInOrder s → Ensures HasInOrder (step a s)
  unfolding step on_caller on_receive on_close close_input force_exit
  step-HasInOrder (submits e) s h = h
  step-HasInOrder (proceeds k now prefer_done) s h =
      with_some-Ensures HasInOrder (get_elem? s.callers k) _ λ c e.
        settle-HasInOrder k c s (advance c.stage now prefer_done c.event s.proc)
          (advance-SamePlugins c.stage now prefer_done c.event s.proc) h
  step-HasInOrder (receives n) s (w, one, plugin, at, sink) =
      with_some-Ensures HasInOrder (get_elem? s.workers n) _ λ v here.
        with_some-Ensures HasInOrder (receive s.proc.input_chan v) _ λ (w', c) went.
          let (same, after) = sole s.workers w v w' n one here in
          (
            w',
            after,
            plugin,
            at,
            subst (λ es. IsSink j (keep passes (s.delivered ++ es)) plugin)
                (sym (receive_flight i s.proc.input_chan v w' c went ∙ ap (in_flight i) same)) sink,
          )
  step-HasInOrder (stores n now) s h = on_worker-HasInOrder n (store now) s (store_flight i now) h
  step-HasInOrder (fires n) s h = on_worker-HasInOrder n fire s (fire_flight i) h
  step-HasInOrder (hands n k) s h = on_hand-HasInOrder n k s h
  step-HasInOrder (writes n) s h = on_write-HasInOrder n s h
  step-HasInOrder (stops n) s h =
      on_worker-HasInOrder n (stop s.proc.ctx.cancelled s.proc.input_chan) s
        (stop_flight i s.proc.ctx.cancelled s.proc.input_chan) h
  step-HasInOrder closes s h = ground arith
  step-HasInOrder forces s h = on_force-Ensures HasInOrder s h

  pub IsFresh-HasInOrder :
      {plugin : Plugin S T} (s : System D S T)
      → IsFresh 1 s
      → get_elem? s.proc.plugins i ≡ some plugin
      → IsSink j [] plugin
      → HasInOrder s
  IsFresh-HasInOrder {plugin} s h at unused =
      let (w, one) = single s.workers h.staffed in
      let new = subst (All IsNew) one h.new_workers in
      let nothing : s.delivered ++ in_flight i w ≡ [] =
        ap (λ es. es ++ in_flight i w) h.no_delivered ∙ new_flight i w new.0 in
      (w, one, plugin, at, subst (λ es. IsSink j (keep passes es) plugin) (sym nothing) unused)
