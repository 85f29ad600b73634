-- ===== src/Processor/Embedding.antt =====
-- A storage plugin behind another's interface: a value of the interface type of pkg/storage/plugin.go
-- that holds a plugin of one backend stores what that backend stores.
use mathlib.Core.Path.{subst}
use extend_game_telemetry_co.Prelude.{◌≡◌, ◌∙◌, sym, ap, Bool, Option, List, ◌++◌, images}
use extend_game_telemetry_co.Runtime.{Context}
use extend_game_telemetry_co.Storage.{StoragePlugin}
use extend_game_telemetry_co.Processor.Fanout.{Journals}

module _ {S S' T : Type 0} (into : S → S') (m : StoragePlugin S T) (m' : StoragePlugin S' T) where
  -- The calls of one plugin's methods go to the other's.
  pub record Delegates : Type 0 where
    pub filters : (st : S) → m'.filter (into st) ≡ m.filter st
    pub writes :
        (ctx : Context) (batch : List T) (st : S)
        → (m'.write_batch ctx batch (into st)).1 ≡ into (m.write_batch ctx batch st).1

-- A state that stands for a good one.
abbrev pub Holds : {S S' : Type 0} → (S → S') → (S → Type 0) → S' → Type 0
Holds {S} into IsGood st' = (st : S) × IsGood st × (st' ≡ into st)

module _ {S S' T X : Type 0} {into : S → S'} {m : StoragePlugin S T} {m' : StoragePlugin S' T}
    (delegates : Delegates into m m') {IsGood : S → Type 0} {log : S → List X} (log' : S' → List X)
    {image : T → Option X} {passes : T → Bool} (reads : (st : S) → log' (into st) ≡ log st)
    (j : Journals IsGood log image passes m) where
  appends_inside :
      (ctx : Context) (batch : List T) (st : S)
      → IsGood st
      → log' (m'.write_batch ctx batch (into st)).1 ≡ log' (into st) ++ images image batch
  appends_inside ctx batch st good =
      ap log' (delegates.writes ctx batch st)
      ∙ (reads (m.write_batch ctx batch st).1
          ∙ (j.appends ctx batch st good ∙ ap (λ xs. xs ++ images image batch) (sym (reads st))))

  -- The outer plugin stores what the inner one does.
  pub embedded-Journals : Journals (Holds into IsGood) log' image passes m'
  embedded-Journals = record {
    filters = λ st' (st, good, same).
        ap (λ s. m'.filter s) same ∙ (delegates.filters st ∙ j.filters st good);
    appends = λ ctx batch st' (st, good, same).
        subst (λ s. log' (m'.write_batch ctx batch s).1 ≡ log' s ++ images image batch) (sym same)
          (appends_inside ctx batch st good);
    stays = λ ctx batch st' (st, good, same). (
      (m.write_batch ctx batch st).1,
      j.stays ctx batch st good,
      ap (λ s. (m'.write_batch ctx batch s).1) same ∙ delegates.writes ctx batch st,
    );
  }
