-- ===== src/Server/Creation/Denials.antt =====
-- The interceptors of the gRPC server that NewGRPCServer of internal/server/grpc.go creates never fail
-- for want of a validator.
use extend_game_telemetry_co.Prelude.{
  ℕ, ◌≡◌, ◌⊎◌, ◌∙◌, refl, sym, ap, Bool, ◌||◌, Option, none, some, List, [], ◌∷◌, Text, arith,
  Bool-cases, inl, inr,
}
use extend_game_telemetry_co.Prelude.Int.{ℤ}
use extend_game_telemetry_co.Prelude.Result.{Result, ok, err, bind_err, err-injective}
use extend_game_telemetry_co.Auth.{
  AuthError, internal, AuthRequirement, MethodOptions, Permission, Metadata, parse_full_method,
  extract_auth_requirement, check_authorization_metadata, validated, enforce, intercept, is_some,
}
use extend_game_telemetry_co.Auth.Guard.{intercept_reply}
use extend_game_telemetry_co.Service.{Claims, TelemetryService}
use extend_game_telemetry_co.Server.{
  Call, Request, full_method, authorization_of, auth, auth_enabled, interceptors, flatten, through,
}
use extend_game_telemetry_co.Server.Creation.{ValidatorSdk, new_grpc_server, validate_of}

flatten_err :
    {E A : Type 0} (r : Result E (Result E A)) (e : E)
    → flatten r ≡ err e
    → (r ≡ err e) ⊎ (r ≡ ok (err e))
flatten_err (ok r) e h = inr (ap ok h)
flatten_err (err e') e h = inl (ap err (err-injective h))

parse_full_method_plain :
    (name message : Text) → ¬ (parse_full_method name ≡ err (internal message))
unfolding parse_full_method
parse_full_method_plain name message h = ground arith

module _ (find_options : Text → Text → Result AuthError MethodOptions) (environment : Text)
    (validate : Text → Option Permission → Text → Option Text) where
  validated_denies :
      (answer : Option Text) (message : Text)
      → ¬ (validated find_options (some validate) environment answer ≡ err (internal message))
  validated_denies none message h = ground arith
  validated_denies (some failure) message h = ground arith

  check_denies :
      (metadata : Metadata) (permission : Option Permission) (message : Text)
      → ¬ (
          check_authorization_metadata find_options (some validate) environment metadata permission
          ≡ err (internal message))
  unfolding check_authorization_metadata
  check_denies none permission message h = ground arith
  check_denies (some none) permission message h = ground arith
  check_denies (some (some [])) permission message h = ground arith
  check_denies (some (some (authorization ∷ rest))) permission message h =
      validated_denies _ message h

  enforce_denies :
      (metadata : Metadata) (requirement : AuthRequirement) (message : Text)
      → ¬ (
          enforce find_options (some validate) environment metadata requirement
          ≡ err (internal message))
  enforce_denies metadata requirement message h =
      elim (Bool-cases (
        requirement.require_token
        || is_some find_options (some validate) environment requirement.permission)) [
          | inl needed ↦
              check_denies metadata requirement.permission message
                (sym (rw (enforce, needed) refl) ∙ h)
          | inr free ↦ ground arith
        ]

  module _
      (finds : (service method message : Text)
        → ¬ (find_options service method ≡ err (internal message))) where
    extract_denies :
        (name message : Text)
        → ¬ (
            extract_auth_requirement find_options (some validate) environment name
            ≡ err (internal message))
    unfolding extract_auth_requirement
    extract_denies name message h = elim (bind_err (parse_full_method name) _ _ h) [
      | inl he ↦ parse_full_method_plain name message he
      | inr (names, later) ↦ elim (bind_err (find_options names.0 names.1) _ _ later) [
        | inl he ↦ finds names.0 names.1 message he
        | inr (options, done) ↦ ground arith
      ]
    ]

    intercept_denies :
        {Q R : Type 0} (name : Text) (metadata : Metadata) (handler : Q → R) (request : Q)
        (message : Text)
        → ¬ (
            intercept find_options (some validate) environment name metadata handler request
            ≡ err (internal message))
    unfolding intercept
    intercept_denies name metadata handler request message h =
        elim (bind_err (extract_auth_requirement find_options (some validate) environment name) _ _
          h) [
            | inl he ↦ extract_denies name message he
            | inr (requirement, later) ↦
                elim (bind_err
                  (enforce find_options (some validate) environment metadata requirement) _ _
                  later) [
                    | inl he ↦ enforce_denies metadata requirement message he
                    | inr (u, done) ↦ ground arith
                  ]
          ]

module _ {O V : Type 0} (sdk : ValidatorSdk O V) (atoi : Text → Option ℤ)
    (find_options : Text → Text → Result AuthError MethodOptions) (environment : Text)
    {D S D' S' D'' S'' : Type 0} (unmarshal : List ℕ → Option Claims) (now : ℕ) (now_ms : ℤ)
    (prefer_done : Bool) where
  through_denies :
      (validate : Text → Option Permission → Text → Option Text)
      → ((service method message : Text) → ¬ (find_options service method ≡ err (internal message)))
      → (call : Call) (s : TelemetryService D S D' S' D'' S'') (r : Request) (message : Text)
      → ¬ (
          through unmarshal now now_ms prefer_done find_options
            (some validate)
            environment
            (auth ∷ [])
            call
            s
            r
          ≡ err (internal message))
  unfolding through
  through_denies validate finds call s r message h =
      let rest =
        through unmarshal now now_ms prefer_done find_options (some validate) environment [] call
          s in
      let guarded =
        intercept find_options (some validate) environment (full_method r) (authorization_of call)
          rest r in
      elim (flatten_err guarded (internal message) h) [
        | inl he ↦
            intercept_denies find_options environment validate finds (full_method r)
              (authorization_of call) rest r message he
        | inr he ↦
            let called =
              intercept_reply find_options (some validate) environment (full_method r)
                (authorization_of call) rest r (err (internal message)) he in
            ground arith
      ]

  -- For every environment, also when the validator's `Initialize` failed: the server that is
  -- created chains the same interceptors before a stream as before a call, with the authorization
  -- interceptor among them exactly when authorization is enabled; and no call is answered with the
  -- error that the token validator is not set, or any other internal error of the interceptors, as
  -- long as the descriptors' lookup has no such error.
  pub new_grpc_server-denies :
      (oauth_service : O) (enabled interval message : Text) (call : Call)
      (s : TelemetryService D S D' S' D'' S'') (r : Request)
      → ((service method message' : Text)
          → ¬ (find_options service method ≡ err (internal message')))
      → ((new_grpc_server sdk atoi oauth_service enabled interval).unary_interceptors
          ≡ interceptors enabled)
        × ((new_grpc_server sdk atoi oauth_service enabled interval).stream_interceptors
            ≡ interceptors enabled)
        × (¬ (
            through unmarshal now now_ms prefer_done find_options
              (validate_of sdk (new_grpc_server sdk atoi oauth_service enabled interval).validator)
              environment
              (new_grpc_server sdk atoi oauth_service enabled interval).unary_interceptors
              call
              s
              r
            ≡ err (internal message)))
  unfolding new_grpc_server interceptors through
  new_grpc_server-denies oauth_service enabled interval message call s r finds =
      elim (Bool-cases (auth_enabled enabled)) [
        | inl on ↦
            (rw on refl, rw on refl, λ h. through_denies _ finds call s r message (rw on at h))
        | inr off ↦ (rw off refl, rw off refl, λ h. let g = rw off at h in ground arith)
      ]
