-- ===== src/Auth.antt =====
-- pkg/common/authServerInterceptor.go: the interceptors that every call passes before its handler.
-- The protobuf registry's descriptors, the token validator and the environment are parameters. A method
-- that its service's descriptor does not have makes the source panic; gRPC calls an
-- interceptor for known methods only, and `find_options` has an error there.
pub mod Guard
use extend_game_telemetry_co.Prelude.{
  ℕ, Bool, true, false, not, ◌||◌, ◌&&◌, ◌==◌, Option, none, some, List, [], ◌∷◌, Text, codes,
  text_eq, is_empty, split, trim_prefix, if◌then◌else◌,
}
use extend_game_telemetry_co.Prelude.Result.{Result, ok, err, ◌>>=◌}

-- An error of the interceptor: a plain one, or a gRPC status.
pub data AuthError : Type 0 where
  plain : Text → AuthError
  internal unauthenticated permission_denied : Text → AuthError

pub record Permission : Type 0 where
  pub action : ℕ
  pub resource : Text

pub record AuthRequirement : Type 0 where
  pub require_token : Bool
  pub permission : Option Permission

-- The options of a method: the scheme names of each security requirement of its OpenAPI operation
-- (`none` is nil), and the resource and the action of its permission.
pub record MethodOptions : Type 0 where
  pub security : Option (List (Option (List Text)))
  pub resource : Text
  pub action : ℕ

-- `^/([^/]+)/([^/]+)$`
unfoldable pub parse_full_method : Text → Result AuthError (Text × Text)
parse_full_method full_method = elim (split b'/' full_method) [
  | [] ∷ service ∷ method ∷ [] ↦
      if is_empty service || is_empty method
      then err (plain (codes "invalid FullMethod format"))
      else ok (service, method)
  | _ ↦ err (plain (codes "invalid FullMethod format"))
]

abbrev has_name : Text → List Text → Bool
has_name name [] = false
has_name name (x ∷ xs) = text_eq x name || has_name name xs

abbrev any_scheme : Text → List (Option (List Text)) → Bool
any_scheme name [] = false
any_scheme name (none ∷ rest) = any_scheme name rest
any_scheme name (some names ∷ rest) = has_name name names || any_scheme name rest

unfoldable pub has_security_scheme : MethodOptions → Text → Bool
has_security_scheme options name = elim (options.security) [
  | none ↦ false
  | some requirements ↦ any_scheme name requirements
]

abbrev requirement_of : MethodOptions → AuthRequirement
requirement_of options = record {
  require_token = has_security_scheme options (codes "Bearer");
  permission =
      if not (is_empty options.resource) && not (options.action == 0)
      then some (record { action = options.action; resource = options.resource })
      else none;
}

-- What a call carries: `meta["authorization"]`, `none` for a missing key, if there is metadata.
abbrev pub Metadata : Type 0
Metadata = Option (Option (List Text))

module _ (find_options : Text → Text → Result AuthError MethodOptions)
    (validator : Option (Text → Option Permission → Text → Option Text)) (environment : Text) where
  unfoldable pub extract_auth_requirement : Text → Result AuthError AuthRequirement
  extract_auth_requirement full_method = parse_full_method full_method >>= λ names.
      find_options names.0 names.1 >>= λ options. ok (requirement_of options)

  -- `getNamespace`, of the variable AB_NAMESPACE.
  unfoldable pub get_namespace : Text
  get_namespace = if is_empty environment then codes "accelbyte" else environment

  abbrev pub validated : Option Text → Result AuthError (Unit {0})
  validated none = ok tt
  validated (some failure) = err (permission_denied failure)

  abbrev pub check_values :
      (Text → Option Permission → Text → Option Text)
      → Option Permission
      → Option (List Text)
      → Result AuthError (Unit {0})
  check_values validate permission none =
      err (unauthenticated (codes "authorization metadata is missing"))
  check_values validate permission (some []) =
      err (unauthenticated (codes "authorization metadata length is 0"))
  check_values validate permission (some (authorization ∷ _)) =
      validated (validate (trim_prefix authorization (codes "Bearer ")) permission get_namespace)

  unfoldable pub check_authorization_metadata :
      Metadata → Option Permission → Result AuthError (Unit {0})
  check_authorization_metadata metadata permission = elim validator [
    | none ↦ err (internal (codes "authorization token validator is not set"))
    | some validate ↦ elim metadata [
      | none ↦ err (unauthenticated (codes "metadata is missing"))
      | some values ↦ check_values validate permission values
    ]
  ]

  abbrev pub is_some : {A : Type 0} → Option A → Bool
  is_some none = false
  is_some (some _) = true

  abbrev pub enforce : Metadata → AuthRequirement → Result AuthError (Unit {0})
  enforce metadata requirement =
      if requirement.require_token || is_some requirement.permission
      then check_authorization_metadata metadata requirement.permission
      else ok tt

  -- The unary interceptor: the reply is what the handler returns, or an error before the handler is
  -- called.
  unfoldable pub intercept : {Q R : Type 0} → Text → Metadata → (Q → R) → Q → Result AuthError R
  intercept full_method metadata handler request =
      extract_auth_requirement full_method >>= λ requirement.
      enforce metadata requirement >>= λ _. ok (handler request)

  -- The stream interceptor, which reads the metadata from the stream's context. Its handler only
  -- succeeds or fails.
  unfoldable pub intercept_stream :
      {S : Type 0}
      → Text
      → (S → Metadata)
      → (S → Result AuthError (Unit {0}))
      → S
      → Result AuthError (Unit {0})
  intercept_stream full_method context handler stream =
      extract_auth_requirement full_method >>= λ requirement.
      enforce (context stream) requirement >>= λ _. handler stream
