-- ===== src/Server/Unsigned.antt =====
-- The server of internal/server/grpc.go without its authorization interceptor: what `extractUserID` of
-- pkg/service/telemetry.go then takes from a token.
use extend_game_telemetry_co.Prelude.{
  ℕ, ◌≡◌, ◌∙◌, refl, sym, ap, Bool, false, Option, some, List, [], ◌∷◌, Text, codes, text_eq,
  if◌then◌else◌,
}
use extend_game_telemetry_co.Prelude.Int.{ℤ}
use extend_game_telemetry_co.Prelude.Result.{Result, ok}
use extend_game_telemetry_co.Auth.{AuthError, MethodOptions, Permission}
use extend_game_telemetry_co.Service.{
  Claims, TelemetryService, extract_user_id, extract_source_ip, user_behavior_event, gameplay_event,
  performance_event, create_user_behavior_telemetry, create_gameplay_telemetry,
  create_performance_telemetry,
}
use extend_game_telemetry_co.Service.Base64.RoundTrip.{AreBytes}
use extend_game_telemetry_co.Service.Identity.{bearer, HasNoDot, extract_user_id-bearer}
use extend_game_telemetry_co.Server.{
  Call, Request, user_behavior, gameplay, performance, context_of, auth_enabled, interceptors,
  handle, through,
}

-- A call with one authorization value, besides its other metadata.
abbrev pub bearing : (Text → Option (List Text)) → Option Text → Text → Call
bearing other peer value = record {
  metadata =
      some (λ key. if text_eq key (codes "authorization") then some (value ∷ []) else other key);
  peer = peer;
}

module _ {D S D' S' D'' S'' : Type 0} (unmarshal : List ℕ → Option Claims) (now : ℕ) (now_ms : ℤ)
    (prefer_done : Bool) where
  same_user_same_reply :
      (other : Text → Option (List Text)) (peer : Option Text) (value value' : Text)
      (s : TelemetryService D S D' S' D'' S'') (req : Request)
      → extract_user_id unmarshal (context_of (bearing other peer value))
        ≡ extract_user_id unmarshal (context_of (bearing other peer value'))
      → handle unmarshal now now_ms prefer_done (bearing other peer value) s req
        ≡ handle unmarshal now now_ms prefer_done (bearing other peer value') s req
  unfolding handle create_user_behavior_telemetry create_gameplay_telemetry
      create_performance_telemetry user_behavior_event gameplay_event performance_event
      extract_source_ip
  same_user_same_reply other peer value value' s (user_behavior req) h = rw h refl
  same_user_same_reply other peer value value' s (gameplay req) h = rw h refl
  same_user_same_reply other peer value value' s (performance req) h = rw h refl

  -- With authorization disabled, the header and the signature of a bearer token make no
  -- difference: a call is answered, and its event queued for the user whom the payload names, as
  -- it would be with any other header and signature that hold no full stop.
  pub disabled_ignores_signature :
      (find_options : Text → Text → Result AuthError MethodOptions)
      (validator : Option (Text → Option Permission → Text → Option Text)) (environment : Text)
      (enabled : Text) (other : Text → Option (List Text)) (peer : Option Text)
      (header header' signature signature' : Text) (payload : List ℕ)
      (s : TelemetryService D S D' S' D'' S'') (req : Request)
      → auth_enabled enabled ≡ false
      → HasNoDot header
      → HasNoDot header'
      → HasNoDot signature
      → HasNoDot signature'
      → AreBytes payload
      → through unmarshal now now_ms prefer_done find_options validator environment
          (interceptors enabled)
          (bearing other peer (bearer header payload signature))
          s
          req
        ≡ through unmarshal now now_ms prefer_done find_options validator environment
            (interceptors enabled)
            (bearing other peer (bearer header' payload signature'))
            s
            req
  unfolding through interceptors
  disabled_ignores_signature find_options validator environment enabled other peer header header'
        signature signature' payload s req off hh hh' hs hs' bytes =
      let value = bearer header payload signature in
      let value' = bearer header' payload signature' in
      let user =
        extract_user_id-bearer unmarshal (context_of (bearing other peer value)) header signature
          payload refl refl hh hs bytes in
      let user' =
        extract_user_id-bearer unmarshal (context_of (bearing other peer value')) header' signature'
          payload refl refl hh' hs' bytes in
      rw off (ap ok (same_user_same_reply other peer value value' s req (user ∙ sym user')))
