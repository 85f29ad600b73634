-- ===== src/Server/Transcoding/Sources.antt =====
-- Which events come in by HTTP: pkg/pb/service.pb.gw.go with the server of internal/server/grpc.go.
use mathlib.Core.List.{Memᴰ}
use extend_game_telemetry_co.Prelude.{
  ℕ, ◌≡◌, ◌∙◌, refl, sym, ap, Bool, true, ◌||◌, Option, none, some, List, ◌∷◌, ◌++◌, Text, codes,
  arith, inl, inr, split, trim_prefix,
}
use extend_game_telemetry_co.Prelude.Int.{ℤ}
use extend_game_telemetry_co.Prelude.Result.{Result, ok, Result-cases}
use extend_game_telemetry_co.Auth
use extend_game_telemetry_co.Auth.{
  AuthError, AuthRequirement, MethodOptions, Permission, extract_auth_requirement, get_namespace,
}
use extend_game_telemetry_co.Service.{Claims, TelemetryService, user_of_parts, replied}
use extend_game_telemetry_co.Server.{
  Call, Request, full_method, auth_enabled, authorization_of, interceptors, through,
}
use extend_game_telemetry_co.Server.Callers.{built_user, through-IsCaller}
use extend_game_telemetry_co.Server.Gateway.{Swagger}
use extend_game_telemetry_co.Server.Transcoding.{
  HttpRequest, Marshaler, GatewayError, Called, returned, Route, called,
  register_service_handler_client, serve_http, client_of, Connected,
}
use extend_game_telemetry_co.Server.Transcoding.Successes.{
  IsMux, IsBody, interrupted_returned, called_of_ok, respond_ok, registered_ok, Succeeds, all-Mem,
}

-- The authorization of a call comes from one of two headers of its request.
abbrev pub Forwards :
    {Ctx : Type 0} → (HttpRequest → Text → Result Text Ctx) → (Ctx → Result Text Connected) → Type 0
Forwards {Ctx = Ctx} annotate connect =
    (req : HttpRequest) (name : Text) (ctx : Ctx) (connected : Connected) (authorization : Text)
    (rest : List Text)
    → annotate req name ≡ ok ctx
    → connect ctx ≡ ok connected
    → authorization_of connected.call ≡ some (some (authorization ∷ rest))
    → Memᴰ authorization
        (req.header (codes "Authorization") ++ req.header (codes "Grpc-Metadata-Authorization"))

module _ (unmarshal : List ℕ → Option Claims) (now_ms : ℤ)
    (find_options : Text → Text → Result AuthError MethodOptions)
    (validator : Option (Text → Option Permission → Text → Option Text)) (environment : Text)
    (marshaler_for : HttpRequest → Marshaler) where
  -- The way of a request to its event: a message that is the request's body on the path without
  -- the base path, a user, and a token for that user which came in one of the two headers.
  abbrev pub IsSource : HttpRequest → Text → (Request → AuthRequirement) → Type 0
  IsSource req namespace requirement =
      (rest : Text) × (r : Request) × (call : Call) × (user : Text) × IsBody
        (marshaler_for (record req { path = rest })) (record req { path = rest }) r
      × (built_user unmarshal namespace now_ms call r ≡ ok user)
      × (validate : Text → Option Permission → Text → Option Text) × (authorization : Text)
      × (validator ≡ some validate)
      × (validate (trim_prefix authorization (codes "Bearer ")) ((requirement r).permission)
            (get_namespace find_options validator environment)
          ≡ none)
      × (user_of_parts unmarshal (split b'.' (trim_prefix authorization (codes "Bearer ")))
          ≡ ok user)
      × Memᴰ authorization
          (req.header (codes "Authorization") ++ req.header (codes "Grpc-Metadata-Authorization"))

module _ {Ctx D S D' S' D'' S'' Spec : Type 0} (unmarshal : List ℕ → Option Claims) (now : ℕ)
    (now_ms : ℤ) (prefer_done : Bool) (find_options : Text → Text → Result AuthError MethodOptions)
    (validator : Option (Text → Option Permission → Text → Option Text)) (environment : Text)
    (enabled : Text) (connect : Ctx → Result Text Connected)
    (annotate : HttpRequest → Text → Result Text Ctx) (marshaler_for : HttpRequest → Marshaler)
    (find : List (
        Route (
          HttpRequest
          → TelemetryService D S D' S' D'' S''
          → Called GatewayError (TelemetryService D S D' S' D'' S'')))
      → HttpRequest
      → Option (
          HttpRequest
          → TelemetryService D S D' S' D'' S''
          → Called GatewayError (TelemetryService D S D' S' D'' S'')))
    (swagger : Swagger Spec) (swagger_dir base_path : Text) where
  client_ok :
      (ctx : Ctx) (r : Request) (s s' : TelemetryService D S D' S' D'' S'')
      → client_of unmarshal now now_ms prefer_done find_options validator environment enabled
          connect ctx r s
        ≡ returned (ok tt) s'
      → (connected : Connected) × (connect ctx ≡ ok connected)
        × (through unmarshal now now_ms prefer_done find_options validator environment
              (interceptors enabled)
              connected.call
              s
              r
            ≡ ok (replied (ok tt) s'))
  unfolding client_of
  client_ok ctx r s s' h = elim (Result-cases (connect ctx)) [
    | inl (message, hf) ↦ ground arith
    | inr (connected, hc) ↦ (
      connected,
      hc,
      called_of_ok s s' _ (
          interrupted_returned connected.gives_up _ (ok tt) s' (sym (rw (client_of, hc) refl) ∙ h)),
    )
  ]

  -- With authorization enabled and every method requiring a token or a permission: a request that
  -- the HTTP server answers with success, whatever its path and its body, has a body that decodes
  -- to the request of one of the methods; the event that was built of it has the user whom a token
  -- names which the validator accepted for the method's permission; and that token is a value of
  -- the request's Authorization or Grpc-Metadata-Authorization header. It supposes that the
  -- gateway's multiplexer answers with registered handlers only and that the authorization of a
  -- call comes from those headers.
  pub serve_http-IsSource :
      (requirement : Request → AuthRequirement)
      → IsMux find
      → Forwards annotate connect
      → auth_enabled enabled ≡ true
      → ((r : Request)
          → extract_auth_requirement find_options validator environment (full_method r)
            ≡ ok (requirement r))
      → ((r : Request)
          → ((requirement r).require_token
              || Auth.is_some find_options validator environment ((requirement r).permission))
            ≡ true)
      → (req : HttpRequest) (s s' : TelemetryService D S D' S' D'' S'')
      → serve_http find
          (register_service_handler_client
            (client_of unmarshal now now_ms prefer_done find_options validator environment enabled
              connect)
            annotate
            marshaler_for)
          swagger
          swagger_dir
          base_path
          req
          s
        ≡ called (returned (ok tt) s')
      → IsSource unmarshal now_ms find_options validator environment marshaler_for req s.namespace
          requirement
  unfolding serve_http
  serve_http-IsSource requirement mux forwards on reads needs req s s' h =
      let routes =
        register_service_handler_client
          (client_of unmarshal now now_ms prefer_done find_options validator environment enabled
            connect)
          annotate marshaler_for in
      let (rest, handler, found, ran) = respond_ok find routes req s s' _ h in
      let stripped : HttpRequest = record req { path = rest } in
      let (chosen, there, same) = mux routes stripped handler found in
      let succeeds : Succeeds
          (client_of unmarshal now now_ms prefer_done find_options validator environment enabled
            connect)
          annotate marshaler_for chosen.handler =
        all-Mem
          (λ c.
            Succeeds
              (client_of unmarshal now now_ms prefer_done find_options validator environment enabled
                connect)
              annotate marshaler_for c.handler)
          chosen routes there
          (registered_ok
            (client_of unmarshal now now_ms prefer_done find_options validator environment enabled
              connect)
            annotate marshaler_for) in
      let (name, ctx, r, annotated, body, done) =
        succeeds stripped s s' (ap (λ f. f stripped s) same ∙ ran) in
      let (connected, joined, passed) = client_ok ctx r s s' done in
      let call = connected.call in
      let (user, built, caller) =
        through-IsCaller unmarshal now now_ms prefer_done find_options validator environment enabled
          call s s' r (requirement r) on (reads r) (needs r) passed in
      let (validate, authorization, values, value, valid, accepted, named) = caller in
      (
        rest,
        r,
        call,
        user,
        body,
        built,
        validate,
        authorization,
        valid,
        accepted,
        named,
        forwards stripped name ctx connected authorization values annotated joined value,
      )
