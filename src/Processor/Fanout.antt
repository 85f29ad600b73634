-- ===== src/Processor/Fanout.antt =====
-- What a storage plugin receives from `processBatch` and `writeToPlugin` of
-- pkg/processor/processor.go.
use mathlib.Core.Path.{subst}
use mathlib.Core.List.{append-nil}
use extend_game_telemetry_co.Prelude.{
  ◌++◌, ◌≡◌, refl, sym, ap, ◌∙◌, Bool, true, Option, images, images-append, List, [], keep,
  is_empty, Bool-cases, inl, inr, arith,
}
use extend_game_telemetry_co.Runtime.{Context, with_timeout}
use extend_game_telemetry_co.Storage.{StoragePlugin, Plugin}
use extend_game_telemetry_co.Processor.{write_to_plugin}

-- A backend that stores all that it is handed, while its state is one that `IsGood` picks out: `log`
-- reads the stored entries from its state, `image` is the entry of an event, if it can be
-- represented, and `passes` is its filter.
pub record Journals {S T X : Type 0} (IsGood : S → Type 0) (log : S → List X) (image : T → Option X)
    (passes : T → Bool) (m : StoragePlugin S T) : Type 0 where
  pub filters : (st : S) → IsGood st → m.filter st ≡ passes
  pub appends :
      (ctx : Context) (batch : List T) (st : S)
      → IsGood st
      → log (m.write_batch ctx batch st).1 ≡ log st ++ images image batch
  pub stays :
      (ctx : Context) (batch : List T) (st : S) → IsGood st → IsGood (m.write_batch ctx batch st).1

empty_keep :
    {T : Type 0} (p : T → Bool) (xs : List T) → is_empty (keep p xs) ≡ true → keep p xs ≡ []
empty_keep p xs h = ground arith

module _ {S T X : Type 0} {IsGood : S → Type 0} {log : S → List X} {image : T → Option X}
    {passes : T → Bool} {m : StoragePlugin S T} (j : Journals IsGood log image passes m) where
  pub log-write_to_plugin :
      (ctx : Context) (batch : List T) (st : S)
      → IsGood st
      → let after = write_to_plugin ctx batch (record { methods = m; state = st }) in
        (after.methods ≡ m)
        × IsGood after.state
        × (log after.state ≡ log st ++ images image (keep passes batch))
  unfolding write_to_plugin
  log-write_to_plugin ctx batch st good =
      rw (j.filters st good) (elim (Bool-cases (is_empty (keep passes batch))) [
        | inl e ↦ rw e (
          refl,
          good,
          sym (append-nil (log st))
              ∙ ap (λ xs. log st ++ images image xs) (sym (empty_keep passes batch e)),
        )
        | inr e ↦ rw e (
          refl,
          j.stays (with_timeout ctx 30000) (keep passes batch) st good,
          j.appends (with_timeout ctx 30000) (keep passes batch) st good,
        )
      ])

  -- A plugin object that journals, and the events whose entries it has stored.
  abbrev pub IsSink : List T → Plugin S T → Type 0
  IsSink stored plugin =
      (plugin.methods ≡ m) × IsGood plugin.state × (log plugin.state ≡ images image stored)

  pub write_to_plugin-IsSink :
      (ctx : Context) (batch stored : List T) (plugin : Plugin S T)
      → IsSink stored plugin
      → IsSink (stored ++ keep passes batch) (write_to_plugin ctx batch plugin)
  write_to_plugin-IsSink ctx batch stored plugin h =
      let after = log-write_to_plugin ctx batch plugin.state h.1 in
      subst
        (λ q.
          IsSink (stored ++ keep passes batch)
            (write_to_plugin ctx batch (record { methods = q; state = plugin.state })))
        (sym h.0)
        (
          after.0,
          after.1,
          after.2
              ∙ ap (λ xs. xs ++ images image (keep passes batch)) h.2
              ∙ sym (images-append image stored (keep passes batch)),
        )

  -- The same, of what the plugin has in store.
  pub write_to_plugin-log :
      (ctx : Context) (batch : List T) (plugin : Plugin S T)
      → plugin.methods ≡ m
      → IsGood plugin.state
      → let after = write_to_plugin ctx batch plugin in
        (after.methods ≡ m)
        × IsGood after.state
        × (log after.state ≡ log plugin.state ++ images image (keep passes batch))
  write_to_plugin-log ctx batch plugin same good =
      subst
        (λ q.
          let after = write_to_plugin ctx batch (record { methods = q; state = plugin.state }) in
          (after.methods ≡ m)
          × IsGood after.state
          × (log after.state ≡ log plugin.state ++ images image (keep passes batch)))
        (sym same) (log-write_to_plugin ctx batch plugin.state good)
