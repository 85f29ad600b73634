-- ===== src/Service/Base64/RoundTrip.antt =====
-- The unpadded encoding that a JWT uses (RFC 7515) is decoded to the bytes that it encodes, with the
-- padding of `extractUserID` (pkg/service/telemetry.go).
use extend_game_telemetry_co.Prelude.{
  ℕ, suc, ◌+◌, ◌-◌, ◌*◌, ◌/◌, ◌%◌, ◌<◌, ◌≡◌, ◌∙◌, sym, refl, ap, Bool, true, false, some, List, [],
  ◌∷◌, Text, length, keep, not, ◌==◌, ◌||◌, ltb, if◌then◌else◌, All, arith,
}
use mathlib.Core.Path.{subst}
use extend_game_telemetry_co.Service.Base64.{
  sextet, full_group, last_group, decode_groups, decode_string, pad,
}

-- The letter of six bits in the URL alphabet.
pub letter : ℕ → ℕ
letter n =
    if ltb n 26
    then n + 65
    else if ltb n 52
    then n + 71
    else if ltb n 62
    then n - 4
    else if n == 62
    then 45
    else 95

-- The unpadded encoding.
pub encode : List ℕ → Text
encode [] = []
encode (a ∷ []) = letter (a / 4) ∷ letter (a % 4 * 16) ∷ []
encode (a ∷ b ∷ []) = letter (a / 4) ∷ letter (a % 4 * 16 + b / 16) ∷ letter (b % 16 * 4) ∷ []
encode (a ∷ b ∷ c ∷ rest) =
    letter (a / 4)
    ∷ letter (a % 4 * 16 + b / 16)
    ∷ letter (b % 16 * 4 + c / 64)
    ∷ letter (c % 64)
    ∷ encode rest

abbrev pub AreBytes : List ℕ → Type 0
AreBytes = All (λ b. b < 256)

sextet-letter : (n : ℕ) → n < 64 → sextet (letter n) ≡ some n
unfolding sextet letter
sextet-letter n h = ground arith

-- A letter is none of the pad, the carriage return, the line feed and the full stop.
letter_plain :
    (n : ℕ)
    → n < 64
    → ((letter n == b'=') ≡ false)
      × (not (letter n == 13 || letter n == 10) ≡ true)
      × ((letter n == b'.') ≡ false)
unfolding letter
letter_plain n h = ground arith

full_group_lem :
    (a b c : ℕ)
    → a < 256
    → b < 256
    → c < 256
    → full_group
        (letter (a / 4))
        (letter (a % 4 * 16 + b / 16))
        (letter (b % 16 * 4 + c / 64))
        (letter (c % 64))
      ≡ some (a ∷ b ∷ c ∷ [])
unfolding full_group
full_group_lem a b c ha hb hc =
    rw
      (
        sextet-letter (a / 4) (omega arith),
        sextet-letter (a % 4 * 16 + b / 16) (omega arith),
        sextet-letter (b % 16 * 4 + c / 64) (omega arith),
        sextet-letter (c % 64) (omega arith),
      )
      (ground arith)

last_group_one :
    (a : ℕ) → a < 256 → last_group (letter (a / 4)) (letter (a % 4 * 16)) b'=' ≡ some (a ∷ [])
unfolding last_group
last_group_one a ha =
    rw (sextet-letter (a / 4) (omega arith), sextet-letter (a % 4 * 16) (omega arith))
      (ground arith)

last_group_two :
    (a b : ℕ)
    → a < 256
    → b < 256
    → last_group (letter (a / 4)) (letter (a % 4 * 16 + b / 16)) (letter (b % 16 * 4))
      ≡ some (a ∷ b ∷ [])
unfolding last_group
last_group_two a b ha hb =
    rw
      (
        sextet-letter (a / 4) (omega arith),
        sextet-letter (a % 4 * 16 + b / 16) (omega arith),
        (letter_plain (b % 16 * 4) (omega arith)).0,
        sextet-letter (b % 16 * 4) (omega arith),
      )
      (ground arith)

pad_group : (p q r s : ℕ) (t : Text) → pad (p ∷ q ∷ r ∷ s ∷ t) ≡ p ∷ q ∷ r ∷ s ∷ pad t
unfolding pad
pad_group p q r s t =
    let e : suc (suc (suc (suc (length t)))) % 4 ≡ length t % 4 = omega arith in rw e (ground arith)

decode_padded : (xs : List ℕ) → AreBytes xs → decode_groups (pad (encode xs)) ≡ some xs
unfolding decode_groups encode pad
decode_padded [] h = refl
decode_padded (a ∷ []) h = last_group_one a h.0
decode_padded (a ∷ b ∷ []) h = last_group_two a b h.0 h.1.0
decode_padded (a ∷ b ∷ c ∷ rest) h =
    ap decode_groups (pad_group _ _ _ _ (encode rest))
    ∙ rw (
      (letter_plain (c % 64) (omega arith)).0,
      full_group_lem a b c h.0 h.1.0 h.1.1.0,
      decode_padded rest h.1.1.1,
    )

abbrev is_text : ℕ → Bool
is_text c = not (c == 13 || c == 10)

abbrev IsText : Text → Type 0
IsText = All (λ c. is_text c ≡ true)

keep_all : (s : Text) → IsText s → keep is_text s ≡ s
keep_all [] h = refl
keep_all (c ∷ s) h = ground (arith, h.0, keep_all s h.1)

-- The padded encoding holds nothing that the decoder skips.
padded-IsText : (xs : List ℕ) → AreBytes xs → IsText (pad (encode xs))
unfolding encode pad
padded-IsText [] h = tt
padded-IsText (a ∷ []) h = (
  (letter_plain (a / 4) (omega (arith, h.0))).1,
  ((letter_plain (a % 4 * 16) (omega (arith, h.0))).1, (refl, (refl, tt))),
)
padded-IsText (a ∷ b ∷ []) h = (
  (letter_plain (a / 4) (omega (arith, h.0))).1,
  (
    (letter_plain (a % 4 * 16 + b / 16) (omega (arith, h.1.0))).1,
    ((letter_plain (b % 16 * 4) (omega arith)).1, (refl, tt)),
  ),
)
padded-IsText (a ∷ b ∷ c ∷ rest) h =
    subst IsText
      (sym (
        pad_group (letter (a / 4)) (letter (a % 4 * 16 + b / 16)) (letter (b % 16 * 4 + c / 64))
          (letter (c % 64)) (encode rest)))
      (
        (letter_plain (a / 4) (omega (arith, h.0))).1,
        (
          (letter_plain (a % 4 * 16 + b / 16) (omega (arith, h.1.0))).1,
          (
            (letter_plain (b % 16 * 4 + c / 64) (omega (arith, h.1.1.0))).1,
            ((letter_plain (c % 64) (omega arith)).1, padded-IsText rest h.1.1.1),
          ),
        ),
      )

-- Any bytes, encoded without padding, are decoded again after the padding step.
pub decode_string-encode : (xs : List ℕ) → AreBytes xs → decode_string (pad (encode xs)) ≡ some xs
unfolding decode_string
decode_string-encode xs h =
    ap decode_groups (keep_all (pad (encode xs)) (padded-IsText xs h)) ∙ decode_padded xs h

-- The encoding holds no full stop.
pub encode_no_dot : (xs : List ℕ) → AreBytes xs → All (λ c. (c == b'.') ≡ false) (encode xs)
unfolding encode
encode_no_dot [] h = tt
encode_no_dot (a ∷ []) h = (
  (letter_plain (a / 4) (omega (arith, h.0))).2,
  ((letter_plain (a % 4 * 16) (omega (arith, h.0))).2, tt),
)
encode_no_dot (a ∷ b ∷ []) h = (
  (letter_plain (a / 4) (omega (arith, h.0))).2,
  (
    (letter_plain (a % 4 * 16 + b / 16) (omega (arith, h.1.0))).2,
    ((letter_plain (b % 16 * 4) (omega arith)).2, tt),
  ),
)
encode_no_dot (a ∷ b ∷ c ∷ rest) h = (
  (letter_plain (a / 4) (omega (arith, h.0))).2,
  (
    (letter_plain (a % 4 * 16 + b / 16) (omega (arith, h.1.0))).2,
    (
      (letter_plain (b % 16 * 4 + c / 64) (omega (arith, h.1.1.0))).2,
      ((letter_plain (c % 64) (omega arith)).2, encode_no_dot rest h.1.1.1),
    ),
  ),
)
