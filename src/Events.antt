-- ===== src/Events.antt =====
-- pkg/events: what the three event types share, the values of a document and the text of a
-- deduplication key. A `map[string]interface{}` is an association list over its keys.
pub mod Gameplay
pub mod Performance
pub mod UserBehavior
pub mod Keys
mod Tests
use extend_game_telemetry_co.Prelude.{
  ℕ, ◌++◌, Bool, Option, none, some, List, [], ◌∷◌, Text, codes, text_eq, if◌then◌else◌,
}
use extend_game_telemetry_co.Prelude.Int.{ℤ}

-- A value in a document: a string, an int64, or the protobuf request `P` itself.
pub data Value (P : Type 0) : Type 0 where
  text : Text → Value P
  int64 : ℤ → Value P
  request : P → Value P

abbrev pub Document : Type 0 → Type 0
Document P = List (Text × Value P)

-- `doc[key]`; `none` is the nil that a missing key gives.
abbrev pub field_of : {P : Type 0} → Text → Document P → Option (Value P)
field_of key [] = none
field_of key ((k, v) ∷ doc) = if text_eq k key then some v else field_of key doc

-- `fmt.Sprintf("<kind>:%s:%s:%s:%s", …)`
abbrev pub key_text : Text → Text → Text → Text → Text → Text
key_text kind a b c d = kind ++ b':' ∷ (a ++ b':' ∷ (b ++ b':' ∷ (c ++ b':' ∷ d)))
