-- ===== src/Service/Identity.antt =====
-- `extractUserID` of pkg/service/telemetry.go: whose user id an event gets.
use extend_game_telemetry_co.Prelude.{
  ℕ, ◌≡◌, ◌∙◌, refl, ap, ◌++◌, false, Option, some, List, [], ◌∷◌, Text, codes, is_empty, split,
  trim_prefix, arith, ◌==◌, All, if◌then◌else◌, Option-cases, List-cases, Bool-cases, inl, inr,
}
use extend_game_telemetry_co.Prelude.Result.{Result, ok, err}
use extend_game_telemetry_co.Service.{
  unauthenticated, Status, Claims, CallContext, user_of, user_of_parts, extract_user_id,
  unmarshal_claims,
}
use extend_game_telemetry_co.Service.Base64.{decode_string, pad}
use extend_game_telemetry_co.Service.Base64.RoundTrip.{
  AreBytes, encode, encode_no_dot, decode_string-encode,
}

abbrev pub HasNoDot : Text → Type 0
HasNoDot = All (λ c. (c == b'.') ≡ false)

split_last : (s : Text) → HasNoDot s → split b'.' s ≡ s ∷ []
split_last [] h = refl
split_last (c ∷ s) h = let rest = split_last s h.1 in let here = h.0 in ground arith

split_dot : (s t : Text) → HasNoDot s → split b'.' (s ++ b'.' ∷ t) ≡ s ∷ split b'.' t
split_dot [] t h = refl
split_dot (c ∷ s) t h = let rest = split_dot s t h.1 in let here = h.0 in ground arith

trim_bearer : (s : Text) → trim_prefix (codes "Bearer " ++ s) (codes "Bearer ") ≡ s
trim_bearer s = refl

-- A bearer token of three parts, written without padding.
abbrev pub bearer : Text → List ℕ → Text → Text
bearer header claims signature =
    codes "Bearer " ++ header ++ b'.' ∷ (encode claims ++ b'.' ∷ signature)

module _ (unmarshal : List ℕ → Option Claims) where
  user_of_bearer :
      (header signature : Text) (payload : List ℕ)
      → HasNoDot header
      → HasNoDot signature
      → AreBytes payload
      → user_of_parts unmarshal
          (split b'.' (trim_prefix (bearer header payload signature) (codes "Bearer ")))
        ≡ unmarshal_claims unmarshal payload
  unfolding user_of_parts
  user_of_bearer header signature payload hh hs bytes =
      ap (λ parts. user_of_parts unmarshal (split b'.' parts))
        (trim_bearer (header ++ b'.' ∷ (encode payload ++ b'.' ∷ signature)))
      ∙ rw
          (
            split_dot header (encode payload ++ b'.' ∷ signature) hh,
            split_dot (encode payload) signature (encode_no_dot payload bytes),
            split_last signature hs,
            user_of_parts,
            decode_string-encode payload bytes,
          )
          refl

  -- A call whose first authorization value is a bearer token, with a payload of any bytes encoded
  -- without padding, between a header and a signature that hold no full stop, gets the user id that
  -- the payload's claims name: `sub`, or `user_id` if `sub` is empty, and an Unauthenticated error
  -- if the claims cannot be read or both are empty.
  pub extract_user_id-bearer :
      (ctx : CallContext) {get : Text → List Text} {rest : List Text} (header signature : Text)
      (payload : List ℕ)
      → ctx.metadata ≡ some get
      → get (codes "authorization") ≡ bearer header payload signature ∷ rest
      → HasNoDot header
      → HasNoDot signature
      → AreBytes payload
      → extract_user_id unmarshal ctx ≡ unmarshal_claims unmarshal payload
  unfolding extract_user_id
  extract_user_id-bearer ctx {get} header signature payload hm ha hh hs bytes =
      rw (hm, ha) (user_of_bearer header signature payload hh hs bytes)

  -- A user id that is found is not empty, and it is the `sub` or `user_id` of claims that
  -- were read from a token.
  abbrev pub IsFromToken : Text → Type 0
  IsFromToken user_id =
      (is_empty user_id ≡ false)
      × ((raw : List ℕ) × (claims : Claims) × (unmarshal raw ≡ some claims)
          × (user_of claims ≡ ok user_id))

  -- What `extract_user_id` answers: a user id from a token, or an Unauthenticated error.
  abbrev pub IsAnswer : Result Status Text → Type 0
  IsAnswer (ok user_id) = IsFromToken user_id
  IsAnswer (err status) = status.code ≡ unauthenticated

  user_of-IsAnswer :
      (raw : List ℕ) (claims : Claims) → unmarshal raw ≡ some claims → IsAnswer (user_of claims)
  unfolding user_of
  user_of-IsAnswer raw claims h =
      let named = if is_empty claims.sub then claims.user_id else claims.sub in
      elim (Bool-cases (is_empty named)) [
        | inl he ↦ rw he refl
        | inr he ↦ rw he (he, (raw, claims, h, rw he refl))
      ]

  user_of_claims-IsAnswer : (raw : List ℕ) → IsAnswer (unmarshal_claims unmarshal raw)
  user_of_claims-IsAnswer raw = elim (Option-cases (unmarshal raw)) [
    | inl h ↦ rw (unmarshal_claims, h) refl
    | inr (claims, h) ↦ rw (unmarshal_claims, h) (user_of-IsAnswer raw claims h)
  ]

  user_of_parts-IsAnswer : (parts : List Text) → IsAnswer (user_of_parts unmarshal parts)
  unfolding user_of_parts
  user_of_parts-IsAnswer [] = refl
  user_of_parts-IsAnswer (a ∷ []) = refl
  user_of_parts-IsAnswer (a ∷ b ∷ []) = refl
  user_of_parts-IsAnswer (header ∷ payload ∷ signature ∷ []) =
      elim (Option-cases (decode_string (pad payload))) [
        | inl h ↦ rw (user_of_parts, h) refl
        | inr (raw, h) ↦ rw (user_of_parts, h) (user_of_claims-IsAnswer raw)
      ]
  user_of_parts-IsAnswer (a ∷ b ∷ c ∷ d ∷ rest) = refl

  -- In every call, `extract_user_id` answers with an Unauthenticated error, or with a user id
  -- that is not empty and that the claims of a token name.
  pub extract_user_id-IsAnswer : (ctx : CallContext) → IsAnswer (extract_user_id unmarshal ctx)
  unfolding extract_user_id
  extract_user_id-IsAnswer ctx = elim (Option-cases (ctx.metadata)) [
    | inl h ↦ rw h refl
    | inr (get, h) ↦ elim (List-cases (get (codes "authorization"))) [
      | inl none_there ↦ rw (h, none_there) refl
      | inr (v, rest, there) ↦
          rw (h, there) (user_of_parts-IsAnswer (split b'.' (trim_prefix v (codes "Bearer "))))
    ]
  ]
