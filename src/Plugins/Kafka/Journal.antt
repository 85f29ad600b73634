-- ===== src/Plugins/Kafka/Journal.antt =====
-- The Kafka plugin of pkg/storage/plugins/kafka as a backend that stores what it is handed.

use mathlib.Core.List.{append-nil}
use extend_game_telemetry_co.Prelude.{
  ◌≡◌, ◌∙◌, refl, sym, ap, true, Option, none, some, List, [], ◌∷◌, ◌++◌, images, arith, List-cases,
  inl, inr,
}
use extend_game_telemetry_co.Runtime.{Context}
use extend_game_telemetry_co.Plugins.{EventKind, Json}
use extend_game_telemetry_co.Plugins.Kafka.{
  KafkaClient, KafkaPlugin, Writer, Message, transform, message_of, messages_of, filter,
  write_batch, plugin,
}
use extend_game_telemetry_co.Processor.Fanout.{Journals}

-- What a client promises while its broker is up: a write is acknowledged, and then its messages
-- are in the topic.
pub record IsReliable {W : Type 0} (client : KafkaClient W) (published : W → List Message)
    : Type 0 where
  pub acknowledges :
      (ctx : Context) (writer : Writer) (messages : List Message) (w : W)
      → (client.write_messages ctx (some writer) messages w).0 ≡ none
  pub publishes :
      (ctx : Context) (writer : Writer) (messages : List Message) (w : W)
      → published (client.write_messages ctx (some writer) messages w).1 ≡ published w ++ messages

-- `Initialize` was called.
abbrev pub IsOpen : {W : Type 0} → KafkaPlugin W → Type 0
IsOpen p = (writer : Writer) × (p.writer ≡ some writer)

module _ {E P : Type 0} (kind : EventKind E P) (json : Json P) where
  -- The message of an event, if it can be serialized.
  abbrev pub sent_as : E → Option Message
  sent_as e = elim (transform kind json e) [
    | none ↦ none
    | some value ↦ some (message_of kind json e value)
  ]

  images-sent_as : (evts : List E) → messages_of kind json evts ≡ images sent_as evts
  unfolding messages_of
  images-sent_as [] = refl
  images-sent_as (e ∷ evts) = ground (arith, images-sent_as evts)

module _ {W E P : Type 0} (client : KafkaClient W) (kind : EventKind E P) (json : Json P)
    {published : W → List Message} (reliable : IsReliable client published) where
  writer-write_batch :
      (ctx : Context) (evts : List E) (p : KafkaPlugin W)
      → (write_batch client kind json ctx evts p).1.writer ≡ p.writer
  unfolding write_batch
  writer-write_batch ctx evts p = ground arith

  published-write_batch :
      (ctx : Context) (evts : List E) (p : KafkaPlugin W) (writer : Writer)
      → p.writer ≡ some writer
      → published (write_batch client kind json ctx evts p).1.broker
        ≡ published p.broker ++ messages_of kind json evts
  unfolding write_batch messages_of
  published-write_batch ctx [] p writer h = sym (append-nil (published p.broker))
  published-write_batch ctx (e ∷ evts) p writer h =
      let messages = messages_of kind json (e ∷ evts) in
      elim (List-cases messages) [
        | inl nothing ↦ rw nothing (sym (append-nil (published p.broker)))
        | inr (x, rest, some_message) ↦
            let acknowledged = reliable.acknowledges ctx writer messages p.broker in
            let there = reliable.publishes ctx writer messages p.broker in ground arith
      ]

  -- While its broker is up, an initialized Kafka plugin publishes a message for each event that it
  -- is handed and can serialize.
  pub kafka-Journals :
      Journals IsOpen
        (λ p. published p.broker)
        (sent_as kind json)
        (λ e. true)
        (plugin client kind json)
  unfolding plugin filter
  kafka-Journals = record {
    filters = λ p good. refl;
    appends = λ ctx evts p good.
        published-write_batch ctx evts p good.0 good.1
        ∙ ap (λ xs. published p.broker ++ xs) (images-sent_as kind json evts);
    stays = λ ctx evts p good. (good.0, writer-write_batch ctx evts p ∙ good.1);
  }
