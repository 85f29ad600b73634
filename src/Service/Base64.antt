-- ===== src/Service/Base64.antt =====
-- `base64.URLEncoding` of Go's standard library, as `extractUserID` of pkg/service/telemetry.go uses
-- it, and the padding that `extractUserID` adds first.
pub mod RoundTrip
use extend_game_telemetry_co.Prelude.{
  ℕ, ◌+◌, ◌-◌, ◌*◌, ◌/◌, ◌%◌, ◌++◌, Bool, true, false, ◌&&◌, Option, none, some, List, [], ◌∷◌,
  Text, length, is_empty, replicate, keep, not, ◌==◌, ◌||◌, leb, ltb, if◌then◌else◌, map,
}
use mathlib.Core.Option

abbrev in_range : ℕ → ℕ → ℕ → Bool
in_range lo hi c = leb lo c && leb c hi

-- The six bits of a letter of the URL alphabet.
unfoldable pub sextet : ℕ → Option ℕ
sextet c =
    if in_range b'A' b'Z' c
    then some (c - 65)
    else if in_range b'a' b'z' c
    then some (c - 71)
    else if in_range b'0' b'9' c
    then some (c + 4)
    else if c == 45
    then some 62
    else if c == 95
    then some 63
    else none

-- The bytes of two, three and four groups of six bits.
abbrev pub bytes_of2 : Option ℕ → Option ℕ → Option (List ℕ)
bytes_of2 (some v) (some w) = some ((v * 4 + w / 16) ∷ [])
bytes_of2 _ _ = none

abbrev pub bytes_of3 : Option ℕ → Option ℕ → Option ℕ → Option (List ℕ)
bytes_of3 (some v) (some w) (some x) = some ((v * 4 + w / 16) ∷ (w % 16 * 16 + x / 4) ∷ [])
bytes_of3 _ _ _ = none

abbrev pub bytes_of4 : Option ℕ → Option ℕ → Option ℕ → Option ℕ → Option (List ℕ)
bytes_of4 (some v) (some w) (some x) (some y) =
    some ((v * 4 + w / 16) ∷ (w % 16 * 16 + x / 4) ∷ (x % 4 * 64 + y) ∷ [])
bytes_of4 _ _ _ _ = none

-- Four letters; and the last group of three letters and a pad, or two and two pads.
unfoldable pub full_group : ℕ → ℕ → ℕ → ℕ → Option (List ℕ)
full_group a b c d = bytes_of4 (sextet a) (sextet b) (sextet c) (sextet d)

unfoldable pub last_group : ℕ → ℕ → ℕ → Option (List ℕ)
last_group a b c =
    if c == b'='
    then bytes_of2 (sextet a) (sextet b)
    else bytes_of3 (sextet a) (sextet b) (sextet c)

abbrev pub prepend : List ℕ → Option (List ℕ) → Option (List ℕ)
prepend bytes none = none
prepend bytes (some rest) = some (bytes ++ rest)

abbrev pub and_rest : Option (List ℕ) → Option (List ℕ) → Option (List ℕ)
and_rest none rest = none
and_rest (some bytes) rest = prepend bytes rest

-- Groups of four; a pad may stand only in the last one.
unfoldable pub decode_groups : Text → Option (List ℕ)
decode_groups [] = some []
decode_groups (a ∷ []) = none
decode_groups (a ∷ b ∷ []) = none
decode_groups (a ∷ b ∷ c ∷ []) = none
decode_groups (a ∷ b ∷ c ∷ d ∷ s) =
    let rest = decode_groups s in
    if d == b'='
    then (if is_empty s then last_group a b c else none)
    else and_rest (full_group a b c d) rest

-- The decoder skips carriage returns and line feeds.
unfoldable pub decode_string : Text → Option (List ℕ)
decode_string s = decode_groups (keep (λ c. not (c == 13 || c == 10)) s)

-- `if rem := len(payload) % 4; rem != 0 { payload += strings.Repeat("=", 4-rem) }`
unfoldable pub pad : Text → Text
pad payload =
    if length payload % 4 == 0 then payload else payload ++ replicate (4 - length payload % 4) b'='
