-- ===== src/Dedup/Fingerprint.antt =====
-- `EventFingerprint` of pkg/dedup/dedup.go tells digests apart.
use extend_game_telemetry_co.Prelude.{
  ℕ, ◌/◌, ◌%◌, ◌<◌, ◌≡◌, refl, ap₂, List, [], ◌∷◌, Text, arith, All,
}
use extend_game_telemetry_co.Dedup.{hex_digit, hex_encode, event_fingerprint}

abbrev pub IsBytes : List ℕ → Type 0
IsBytes = All (λ b. b < 256)

hex_digit-injective : (m n : ℕ) → m < 16 → n < 16 → hex_digit m ≡ hex_digit n → m ≡ n
hex_digit-injective m n hm hn h = ground arith

-- The two digits determine the byte.
hex_byte-injective :
    (a b : ℕ)
    → a < 256
    → b < 256
    → hex_digit (a / 16) ≡ hex_digit (b / 16)
    → hex_digit (a % 16) ≡ hex_digit (b % 16)
    → a ≡ b
hex_byte-injective a b ha hb high low = omega (
  arith,
  hex_digit-injective (a / 16) (b / 16) (omega arith) (omega arith) high,
  hex_digit-injective (a % 16) (b % 16) (omega arith) (omega arith) low,
)

head_eq : {x y : ℕ} {xs ys : List ℕ} → x ∷ xs ≡ y ∷ ys → x ≡ y
head_eq h = cc

tail_eq : {x y : ℕ} {xs ys : List ℕ} → x ∷ xs ≡ y ∷ ys → xs ≡ ys
tail_eq h = cc

pub hex_encode-injective :
    (xs ys : List ℕ) → IsBytes xs → IsBytes ys → hex_encode xs ≡ hex_encode ys → xs ≡ ys
hex_encode-injective [] [] bx by h = refl
hex_encode-injective [] (y ∷ ys) bx by h = cc
hex_encode-injective (x ∷ xs) [] bx by h = cc
hex_encode-injective (x ∷ xs) (y ∷ ys) bx by h =
    ap₂ ◌∷◌ (hex_byte-injective x y bx.0 by.0 (head_eq h) (head_eq (tail_eq h)))
      (hex_encode-injective xs ys bx.1 by.1 (tail_eq (tail_eq h)))

-- Two keys with one fingerprint have one SHA-256 digest, if digests are bytes: the hexadecimal
-- text adds no collision.
pub event_fingerprint-injective :
    (sha256_sum : Text → List ℕ) (s t : Text)
    → IsBytes (sha256_sum s)
    → IsBytes (sha256_sum t)
    → event_fingerprint sha256_sum s ≡ event_fingerprint sha256_sum t
    → sha256_sum s ≡ sha256_sum t
unfolding event_fingerprint
event_fingerprint-injective sha256_sum s t bs bt h =
    hex_encode-injective (sha256_sum s) (sha256_sum t) bs bt h
