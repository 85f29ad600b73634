-- ===== src/Auth/Guard.antt =====
-- The interceptors of pkg/common/authServerInterceptor.go let no call through without a valid token.
use extend_game_telemetry_co.Prelude.{
  ◌≡◌, ◌∙◌, refl, sym, ap, true, ◌||◌, Option, none, some, List, [], ◌∷◌, Text, codes, trim_prefix,
  arith, Option-cases, inl, inr,
}
use extend_game_telemetry_co.Prelude.Result.{Result, ok, ◌>>=◌, bind_ok, ok-injective}
use extend_game_telemetry_co.Auth.{
  AuthError, MethodOptions, AuthRequirement, Permission, Metadata, extract_auth_requirement,
  check_authorization_metadata, check_values, enforce, intercept, intercept_stream, is_some,
  get_namespace, validated,
}

module _ (find_options : Text → Text → Result AuthError MethodOptions)
    (validator : Option (Text → Option Permission → Text → Option Text)) (environment : Text) where
  -- The first authorization value of a call was validated for a permission and the namespace.
  abbrev pub IsValidated : Metadata → Option Permission → Type 0
  IsValidated metadata permission =
      (validate : Text → Option Permission → Text → Option Text) × (authorization : Text)
      × (rest : List Text) × (validator ≡ some validate)
      × (metadata ≡ some (some (authorization ∷ rest)))
      × (validate (trim_prefix authorization (codes "Bearer ")) permission
            (get_namespace find_options validator environment)
          ≡ none)

  validated-none :
      (answer : Option Text) (u : Unit {0})
      → validated find_options validator environment answer ≡ ok u
      → answer ≡ none
  validated-none none u h = refl
  validated-none (some failure) u h = ground arith

  check_values_accept :
      (validate : Text → Option Permission → Text → Option Text) (permission : Option Permission)
      (values : Option (List Text)) (u : Unit {0})
      → check_values find_options validator environment validate permission values ≡ ok u
      → (authorization : Text) × (rest : List Text) × (values ≡ some (authorization ∷ rest))
        × (validate
              (trim_prefix authorization (codes "Bearer "))
              permission
              (get_namespace find_options validator environment)
            ≡ none)
  check_values_accept validate permission none u h = ground arith
  check_values_accept validate permission (some []) u h = ground arith
  check_values_accept validate permission (some (authorization ∷ rest)) u h =
      (authorization, rest, refl, validated-none _ u h)

  check_accept :
      (metadata : Metadata) (permission : Option Permission) (u : Unit {0})
      → check_authorization_metadata find_options validator environment metadata permission ≡ ok u
      → IsValidated metadata permission
  unfolding check_authorization_metadata
  check_accept metadata permission u h = elim (Option-cases validator) [
    | inl hv ↦ ground arith
    | inr (validate, hv) ↦ elim (Option-cases metadata) [
      | inl hm ↦ ground arith
      | inr (values, hm) ↦
          let step : check_authorization_metadata find_options validator environment metadata
                permission
              ≡ check_values find_options validator environment validate permission values =
            rw (hv, hm) refl in
          let (authorization, rest, there, valid) =
            check_values_accept validate permission values u (sym step ∙ h) in
          (validate, authorization, rest, hv, hm ∙ ap some there, valid)
    ]
  ]

  -- A call whose interceptor ran the handler has a requirement that could be read, its reply is the
  -- handler's, and if the method requires a token or a permission, then a validator is set and it
  -- accepted the token of the first authorization value for that permission and the namespace.
  pub intercept-IsValidated :
      {Q R : Type 0} (full_method : Text) (metadata : Metadata) (handler : Q → R) (request : Q)
      (reply : R) (requirement : AuthRequirement)
      → intercept find_options validator environment full_method metadata handler request ≡ ok reply
      → extract_auth_requirement find_options validator environment full_method ≡ ok requirement
      → (requirement.require_token
          || is_some find_options validator environment requirement.permission)
        ≡ true
      → (reply ≡ handler request) × IsValidated metadata requirement.permission
  unfolding intercept
  intercept-IsValidated full_method metadata handler request reply requirement ran read needed =
      let enforced = enforce find_options validator environment metadata requirement in
      let first : intercept find_options validator environment full_method metadata handler request
          ≡ (enforced >>= λ _. ok (handler request)) =
        rw read refl in
      let (u, passed, replied) =
        bind_ok enforced (λ _. ok (handler request)) reply (sym first ∙ ran) in
      let second : enforced
          ≡ check_authorization_metadata find_options validator environment metadata
              requirement.permission =
        rw needed refl in
      (cc, check_accept metadata requirement.permission u (sym second ∙ passed))

  -- A reply that is no error is the handler's.
  pub intercept_reply :
      {Q R : Type 0} (full_method : Text) (metadata : Metadata) (handler : Q → R) (request : Q)
      (reply : R)
      → intercept find_options validator environment full_method metadata handler request ≡ ok reply
      → handler request ≡ reply
  unfolding intercept
  intercept_reply full_method metadata handler request reply h =
      let (requirement, read, enforced) =
        bind_ok (extract_auth_requirement find_options validator environment full_method)
          (λ requirement. enforce find_options validator environment metadata requirement >>= λ _.
            ok (handler request))
          reply h in
      let (u, passed, ran) =
        bind_ok (enforce find_options validator environment metadata requirement)
          (λ _. ok (handler request)) reply enforced in
      ok-injective ran

  -- A stream whose interceptor lets the handler succeed is one that the unary interceptor would have
  -- passed on with the same metadata, and its handler did succeed.
  intercept_stream-intercept :
      {S : Type 0} (full_method : Text) (context : S → Metadata)
      (handler : S → Result AuthError (Unit {0})) (stream : S) (u : Unit {0})
      → intercept_stream find_options validator environment full_method context handler stream
        ≡ ok u
      → intercept find_options validator environment full_method (context stream) handler stream
        ≡ ok (ok u)
  unfolding intercept intercept_stream
  intercept_stream-intercept full_method context handler stream u h =
      let (requirement, read, enforced) =
        bind_ok (extract_auth_requirement find_options validator environment full_method)
          (λ requirement.
            enforce find_options validator environment (context stream) requirement >>= λ _.
            handler stream)
          u h in
      let (v, passed, ran) =
        bind_ok (enforce find_options validator environment (context stream) requirement)
          (λ _. handler stream) u enforced in
      rw (read, passed, ran) refl
