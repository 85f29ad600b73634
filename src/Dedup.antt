-- ===== src/Dedup.antt =====
-- pkg/dedup/dedup.go: the deduplicator's contract, the fingerprint of a key, and the no-op
-- deduplicator. SHA-256 is Go's library function and enters as the parameter `sha256_sum`.
pub mod Memory
pub mod Redis
pub mod Fingerprint
mod Tests
use extend_game_telemetry_co.Prelude.{
  ℕ, ◌+◌, ◌/◌, ◌%◌, ◌≡◌, Bool, true, false, Option, none, some, List, [], ◌∷◌, Text, ltb,
  if◌then◌else◌,
}
use extend_game_telemetry_co.Prelude.Result.{Result, ok}
use extend_game_telemetry_co.Runtime.{Context}
use extend_game_telemetry_co.Storage.{Error}

-- `Deduplicator[T]` over the state `D`. The clock reading of `Mark` is an argument; `none` as the
-- result of `close` is a panic.
pub record Deduplicator (D T : Type 0) : Type 0 where
  pub is_duplicate : Context → T → D → Result Text Bool
  pub mark : Context → ℕ → T → D → Error × D
  pub close : D → Option (Error × D)

-- A deduplicator that reports an event as a duplicate once it is marked.
abbrev pub Remembers : {D T : Type 0} → Deduplicator D T → Type 0
Remembers {D} {T} m =
    (ctx ctx' : Context) (now : ℕ) (e : T) (d : D)
    → m.is_duplicate ctx' e (m.mark ctx now e d).1 ≡ ok true

abbrev pub hex_digit : ℕ → ℕ
hex_digit n = if ltb n 10 then 48 + n else 87 + n

-- `hex.EncodeToString`: two lower-case digits for each byte.
abbrev pub hex_encode : List ℕ → Text
hex_encode [] = []
hex_encode (b ∷ bs) = hex_digit (b / 16) ∷ hex_digit (b % 16) ∷ hex_encode bs

unfoldable pub event_fingerprint : (Text → List ℕ) → Text → Text
event_fingerprint sha256_sum key = hex_encode (sha256_sum key)

-- `NoopDeduplicator`, which keeps nothing.
unfoldable pub noop_deduplicator : {D T : Type 0} → Deduplicator D T
noop_deduplicator = record {
  is_duplicate = λ ctx e d. ok false;
  mark = λ ctx now e d. (none, d);
  close = λ d. some (none, d);
}
