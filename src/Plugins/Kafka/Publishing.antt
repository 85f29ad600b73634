-- ===== src/Plugins/Kafka/Publishing.antt =====
-- What `WriteBatch` of pkg/storage/plugins/kafka publishes and reports.
use extend_game_telemetry_co.Prelude.{
  ◌≡◌, refl, Bool, true, false, Option, none, some, List, [], ◌∷◌, is_empty, length, arith,
  if◌then◌else◌, codes, ◌++◌, count, List-cases, inl, inr, ◌==◌,
}
use extend_game_telemetry_co.Prelude.Int.{pos}
use extend_game_telemetry_co.Runtime.{Context}
use extend_game_telemetry_co.Plugins.{EventKind, Json}
use extend_game_telemetry_co.Plugins.Kafka.{
  KafkaClient, KafkaPlugin, transform, messages_of, write_batch,
}

-- Whether an option holds a value.
abbrev pub is_some : {A : Type 0} → Option A → Bool
is_some none = false
is_some (some a) = true

module _ {E P : Type 0} (kind : EventKind E P) (json : Json P) where
  pub length-messages_of :
      (evts : List E)
      → length (messages_of kind json evts) ≡ count (λ e. is_some (transform kind json e)) evts
  unfolding messages_of
  length-messages_of [] = refl
  length-messages_of (e ∷ evts) = ground (arith, length-messages_of evts)

module _ {W E P : Type 0} (client : KafkaClient W) (kind : EventKind E P) (json : Json P) where
  -- Every case of `WriteBatch`: an empty batch is reported as written; a batch of which no event
  -- can be serialized is an error and leaves the broker as it was; any other is one write, whose
  -- error is returned with the count 0, and whose success is reported with the number of the
  -- events that can be serialized.
  pub kafka_write_cases :
      (ctx : Context) (evts : List E) (p : KafkaPlugin W)
      → let sendable = count (λ e. is_some (transform kind json e)) evts in
        let sent = client.write_messages ctx p.writer (messages_of kind json evts) p.broker in
        write_batch client kind json ctx evts p ≡ (
          if is_empty evts
          then ((pos 0, none), p)
          else if sendable == 0
          then ((pos 0, some (codes "all events failed transformation")), p)
          else elim (sent.0) [
            | some failure ↦ (
              (pos 0, some (codes "failed to write messages to Kafka: " ++ failure)),
              record p { broker = sent.1 },
            )
            | none ↦ ((pos sendable, none), record p { broker = sent.1 })
          ])
  unfolding write_batch
  kafka_write_cases ctx evts p =
      let counted = length-messages_of kind json evts in
      elim (List-cases (messages_of kind json evts)) [
        | inl h ↦ ground arith
        | inr (m, rest, h) ↦ ground arith
      ]
