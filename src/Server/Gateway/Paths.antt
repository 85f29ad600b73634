-- ===== src/Server/Gateway/Paths.antt =====
-- Prefixes and last slashes of paths (internal/server/gateway.go).

use extend_game_telemetry_co.Prelude.{
  ℕ, ◌++◌, ◌≡◌, refl, ap, false, Option, none, some, [], ◌∷◌, Text, text_eq, text_eq_iff,
  Bool-cases, inl, inr, arith,
}
use extend_game_telemetry_co.Server.Gateway.{cut_prefix, ends_in_slash}

abbrev pub when_some : {A B : Type 0} → B → (A → B) → Option A → B
when_some d f none = d
when_some d f (some a) = f a

pub cut_prefix-append :
    (p q s : Text) → cut_prefix (p ++ q) s ≡ when_some none (cut_prefix q) (cut_prefix p s)
cut_prefix-append [] q s = refl
cut_prefix-append (c ∷ p) q [] = refl
cut_prefix-append (c ∷ p) q (d ∷ s) = ground (arith, cut_prefix-append p q s)

pub text_eq-append :
    (p q s : Text) → text_eq (p ++ q) s ≡ when_some false (text_eq q) (cut_prefix p s)
text_eq-append [] q s = refl
text_eq-append (c ∷ p) q [] = refl
text_eq-append (c ∷ p) q (d ∷ s) = ground (arith, text_eq-append p q s)

pub text_eq_snoc : (s t : Text) (c : ℕ) → text_eq (s ++ c ∷ []) (t ++ c ∷ []) ≡ text_eq s t
text_eq_snoc [] [] c = ground arith
text_eq_snoc [] (d ∷ []) c = ground arith
text_eq_snoc [] (d ∷ e ∷ t) c = ground arith
text_eq_snoc (d ∷ []) [] c = ground arith
text_eq_snoc (d ∷ e ∷ s) [] c = ground arith
text_eq_snoc (d ∷ s) (e ∷ t) c = ground (arith, text_eq_snoc s t c)

pub cut_prefix_sound : (p s rest : Text) → cut_prefix p s ≡ some rest → s ≡ p ++ rest
cut_prefix_sound [] s rest h = ground arith
cut_prefix_sound (c ∷ p) [] rest h = ground arith
cut_prefix_sound (c ∷ p) (d ∷ s) rest h = ground (arith, cut_prefix_sound p s rest)

pub ends_in_slash-append :
    (p : Text) (c : ℕ) (s : Text) → ends_in_slash (p ++ c ∷ s) ≡ ends_in_slash (c ∷ s)
ends_in_slash-append [] c s = refl
ends_in_slash-append (d ∷ []) c s = refl
ends_in_slash-append (d ∷ e ∷ p) c s = ends_in_slash-append (e ∷ p) c s

-- A text that does not end in a slash is no text that does.
pub text_eq_open : (s t : Text) → ends_in_slash s ≡ false → text_eq s (t ++ b'/' ∷ []) ≡ false
text_eq_open s t h = elim (Bool-cases (text_eq s (t ++ b'/' ∷ []))) [
  | inr differs ↦ differs
  | inl same ↦
      let e = (text_eq_iff s (t ++ b'/' ∷ [])).0 same in
      ground (arith, ap ends_in_slash e, ends_in_slash-append t b'/' [])
]

pub text_eq_nil-snoc : (s : Text) (c : ℕ) → text_eq [] (s ++ c ∷ []) ≡ false
text_eq_nil-snoc [] c = refl
text_eq_nil-snoc (d ∷ s) c = refl

pub not_root : (tail : Text) → ends_in_slash (b'/' ∷ tail) ≡ false → text_eq [] tail ≡ false
not_root [] h = ground arith
not_root (d ∷ tail) h = refl
