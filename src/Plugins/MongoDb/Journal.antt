-- ===== src/Plugins/MongoDb/Journal.antt =====
-- The MongoDB plugin of pkg/storage/plugins/mongodb as a backend that stores what it is handed.
use mathlib.Core.List.{append-nil, map-append}
use mathlib.Core.Path.{subst₂}
use extend_game_telemetry_co.Prelude.{
  ◌≡◌, ◌∙◌, refl, sym, ap, true, Option, none, some, List, [], ◌∷◌, ◌++◌, images, map, is_empty,
  codes, if◌then◌else◌, Text, arith, List-cases, inl, inr,
}
use extend_game_telemetry_co.Prelude.Int.{ℤ, pos}
use extend_game_telemetry_co.Runtime.{Context}
use extend_game_telemetry_co.Plugins.{EventKind}
use extend_game_telemetry_co.Plugins.MongoDb.{
  Bson, flat, payload_map, time, MongoClient, MongoPlugin, PluginConfig, new_plugin, transform,
  documents_of, insert, initialize, filter, write_batch, plugin,
}
use extend_game_telemetry_co.Processor.Fanout.{Journals}

-- A document without the times in it, which `transform` reads from the clock.
abbrev pub untimed : {P B : Type 0} → Bson P B → Bson P B
untimed [] = []
untimed ((k, flat v) ∷ doc) = (k, flat v) ∷ untimed doc
untimed ((k, payload_map b) ∷ doc) = (k, payload_map b) ∷ untimed doc
untimed ((k, time t) ∷ doc) = untimed doc

-- What a client promises while its server is up: an insert is acknowledged, and an acknowledged
-- insert stores its documents. `stored` are the documents of a collection of a database in the order
-- of the commands that brought them.
pub record IsReliable {W P B : Type 0} (client : MongoClient W P B)
    (stored : Text → Text → W → List (Bson P B)) : Type 0 where
  pub acknowledges :
      (ctx : Context) (database collection : Text) (documents : List (Bson P B)) (w : W)
      → (client.insert_many ctx database collection documents w).0.1 ≡ none
  pub inserts :
      (ctx : Context) (database collection : Text) (documents : List (Bson P B)) (w : W)
      → stored database collection (client.insert_many ctx database collection documents w).1
        ≡ stored database collection w ++ documents

module _ {W E P B : Type 0} (client : MongoClient W P B) (kind : EventKind E P) where
  -- The document of an event, without its time, if the payload can be converted.
  abbrev pub stored_as : E → Option (Bson P B)
  stored_as e = elim (transform client kind (pos 0) e) [
    | none ↦ none
    | some doc ↦ some (untimed doc)
  ]

  -- The time of the transformation makes no other difference.
  transform-untimed :
      (now : ℤ) (e : E)
      → stored_as e
        ≡ elim (transform client kind now e) [ none ↦ none | some doc ↦ some (untimed doc) ]
  unfolding transform
  transform-untimed now e = ground arith

  documents_untimed :
      (now : ℤ) (evts : List E)
      → map untimed (documents_of client kind now evts) ≡ images stored_as evts
  unfolding documents_of
  documents_untimed now [] = refl
  documents_untimed now (e ∷ evts) =
      ground (arith, transform-untimed now e, documents_untimed now evts)

  module _ {stored : Text → Text → W → List (Bson P B)} (reliable : IsReliable client stored) where
    cfg-write_batch :
        (ctx : Context) (evts : List E) (p : MongoPlugin W)
        → (write_batch client kind ctx evts p).1.cfg ≡ p.cfg
    unfolding write_batch
    cfg-write_batch ctx evts p = ground arith

    -- The documents of a plugin's collection, without their times.
    abbrev pub untimed_documents : Text → Text → W → List (Bson P B)
    untimed_documents database collection w = map untimed (stored database collection w)

    insert_lem :
        (ctx : Context) (documents : List (Bson P B)) (p : MongoPlugin W)
        → untimed_documents p.cfg.database p.cfg.collection
            (insert client kind ctx documents p).1.remote
          ≡ untimed_documents p.cfg.database p.cfg.collection p.remote ++ map untimed documents
    insert_lem ctx documents p =
        ap (map untimed) (reliable.inserts ctx p.cfg.database p.cfg.collection documents p.remote)
        ∙ map-append untimed (stored p.cfg.database p.cfg.collection p.remote) documents

    stored-write_batch :
        (ctx : Context) (evts : List E) (p : MongoPlugin W)
        → untimed_documents p.cfg.database p.cfg.collection
            (write_batch client kind ctx evts p).1.remote
          ≡ untimed_documents p.cfg.database p.cfg.collection p.remote ++ images stored_as evts
    unfolding write_batch
    stored-write_batch ctx [] p =
        sym (append-nil (untimed_documents p.cfg.database p.cfg.collection p.remote))
    stored-write_batch ctx (e ∷ evts) p =
        let documents = documents_of client kind (client.now p.remote) (e ∷ evts) in
        let images_of = documents_untimed (client.now p.remote) (e ∷ evts) in
        let before = untimed_documents p.cfg.database p.cfg.collection p.remote in
        elim (List-cases documents) [
          | inl nothing ↦
              rw (write_batch, nothing)
                (sym (append-nil before)
                  ∙ ap (λ xs. before ++ xs) (sym (ap (map untimed) nothing) ∙ images_of))
          | inr (x, rest, some_document) ↦
              let step : write_batch client kind ctx (e ∷ evts) p
                  ≡ insert client kind ctx documents p =
                rw (write_batch, some_document) refl in
              ap (λ outcome. untimed_documents p.cfg.database p.cfg.collection outcome.1.remote)
                step
              ∙ (insert_lem ctx documents p ∙ ap (λ xs. before ++ xs) images_of)
        ]

    -- While its server is up, a MongoDB plugin stores a document for each event that it is handed
    -- and whose payload can be converted.
    pub mongodb-Journals :
        (database collection : Text)
        → Journals
            (λ p. (p.cfg.database ≡ database) × (p.cfg.collection ≡ collection))
            (λ p. untimed_documents database collection p.remote)
            stored_as
            (λ e. true)
            (plugin client kind)
    unfolding plugin filter
    mongodb-Journals database collection = record {
      filters = λ p good. refl;
      appends = λ ctx evts p good.
          subst₂
            (λ d c.
              untimed_documents d c (write_batch client kind ctx evts p).1.remote
              ≡ untimed_documents d c p.remote ++ images stored_as evts)
            good.0 good.1 (stored-write_batch ctx evts p);
      stays = λ ctx evts p good. (
        ap (λ cfg. cfg.database) (cfg-write_batch ctx evts p) ∙ good.0,
        ap (λ cfg. cfg.collection) (cfg-write_batch ctx evts p) ∙ good.1,
      );
    }

-- `Initialize` changes no part of the configuration.
pub cfg-initialize :
    {W E P B : Type 0} (client : MongoClient W P B) (kind : EventKind E P) (ctx : Context)
    (p : MongoPlugin W)
    → (initialize client kind ctx p).1.cfg ≡ p.cfg
unfolding initialize
cfg-initialize client kind ctx p = ground arith

-- The database of a plugin that is made with a name for it, which may be empty.
abbrev pub database_named : Text → Text
database_named name = if is_empty name then codes "telemetry" else name

-- A plugin that is made with its kind's collection and initialized writes to that collection.
pub made_collection :
    {W E P B : Type 0} (client : MongoClient W P B) (kind : EventKind E P) (ctx : Context)
    (cfg : PluginConfig) (w : W)
    → cfg.collection ≡ kind.default_table
    → let made = (initialize client kind ctx (new_plugin client kind cfg w)).1.cfg in
      (made.database ≡ database_named cfg.database) × (made.collection ≡ kind.default_table)
unfolding new_plugin
made_collection client kind ctx cfg w h =
    let kept = cfg-initialize client kind ctx (new_plugin client kind cfg w) in
    let chosen : (new_plugin client kind cfg w).cfg.collection ≡ kind.default_table =
      ground arith in
    (
      ap (λ (x : PluginConfig). x.database) kept,
      ap (λ (x : PluginConfig). x.collection) kept ∙ chosen,
    )
