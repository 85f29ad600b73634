-- ===== src/Server/Transcoding/Sparing.antt =====
-- The answers of the HTTP server that leave its processors alone: pkg/pb/service.pb.gw.go and
-- internal/server/gateway.go.
use mathlib.Core.Path.{subst}
use extend_game_telemetry_co.Prelude.{
  ℕ, ◌≡◌, ◌∙◌, ◌⊎◌, refl, sym, ap, Option, List, Text, arith, Option-cases, inl, inr, All, Bool,
}
use extend_game_telemetry_co.Prelude.Int.{ℤ}
use extend_game_telemetry_co.Prelude.Result.{Result, ok, err, ◌>>=◌, Result-cases}
use extend_game_telemetry_co.Auth.{AuthError, MethodOptions, Permission}
use extend_game_telemetry_co.Service.{Claims, TelemetryService}
use extend_game_telemetry_co.Server.{Request, user_behavior, gameplay, performance}
use extend_game_telemetry_co.Server.Gateway.{
  Response, gateway_call, static_file, document, moved_permanently, failure, not_found, Swagger,
  serve,
}
use extend_game_telemetry_co.Server.Transcoding.{
  HttpRequest, Marshaler, CallError, unavailable, refused, GatewayError, bad_context, Called, Route,
  Answer, called, unrouted, page, call_with, call_error, map_error, handler_of, read_user_behavior,
  read_gameplay, read_performance, register_service_handler_client, route, respond, serve_http,
  called_of, client_of, Connected, request_create_user_behavior_telemetry,
  request_create_gameplay_telemetry, request_create_performance_telemetry,
}
use extend_game_telemetry_co.Server.Transcoding
use extend_game_telemetry_co.Server.Transcoding.Successes.{IsMux, all-Mem}
use extend_game_telemetry_co.Server.Transcoding.Refusals.{
  not_processed, returned_state, client_of-Keeps,
}

-- An answer that is an error leaves the state as it was or comes of the processor, and one that no
-- handler of the gateway gave leaves it as it was. Nothing is said of a call that the client gave up
-- while the server went on with it.
abbrev pub Spares : {W : Type 0} → W → Answer W → Type 0
Spares w (called (Transcoding.returned (err e) w')) =
    (w' ≡ w) ⊎ (e ≡ call_error (refused not_processed))
Spares w (called (Transcoding.returned (ok u) w')) = Unit
Spares w (called Transcoding.waiting) = Unit
Spares w (called Transcoding.aborted) = Unit
Spares w (called (Transcoding.given_up e c)) = Unit
Spares w (unrouted w') = w' ≡ w
Spares w (page response w') = w' ≡ w

map_error_err :
    {E F W : Type 0} (f : E → F) (c : Called E W) (e : F) (w : W)
    → map_error f c ≡ Transcoding.returned (err e) w
    → (cause : E) × (c ≡ Transcoding.returned (err cause) w) × (e ≡ f cause)
map_error_err f (Transcoding.returned (ok u) w') e w h = ground arith
map_error_err f (Transcoding.returned (err cause) w') e w h = (cause, cc, cc)
map_error_err f Transcoding.waiting e w h = ground arith
map_error_err f Transcoding.aborted e w h = ground arith
map_error_err f (Transcoding.given_up e' c) e w h = ground arith

module _ {Ctx W : Type 0} (client : Ctx → Request → W → Called CallError W)
    (keeps : (ctx : Ctx) (r : Request) (w w' : W) (e : CallError)
      → client ctx r w ≡ Transcoding.returned (err e) w'
      → (w' ≡ w) ⊎ (e ≡ refused not_processed)) where
  call_with-Keeps :
      (ctx : Ctx) (made : Result GatewayError Request) (w w' : W) (e : GatewayError)
      → call_with client ctx made w ≡ Transcoding.returned (err e) w'
      → (w' ≡ w) ⊎ (e ≡ call_error (refused not_processed))
  call_with-Keeps ctx (err e') w w' e h = inl (returned_state h)
  call_with-Keeps ctx (ok r) w w' e h =
      let (cause, failed, same) = map_error_err call_error (client ctx r w) e w' h in
      elim (keeps ctx r w w' cause failed) [
        | inl stays ↦ inl stays
        | inr from ↦ inr (same ∙ ap call_error from)
      ]

  module _ (annotate : HttpRequest → Text → Result Text Ctx)
      (marshaler_for : HttpRequest → Marshaler) where
    abbrev HandlerKeeps : (HttpRequest → W → Called GatewayError W) → Type 0
    HandlerKeeps handler =
        (req : HttpRequest) (w w' : W) (e : GatewayError)
        → handler req w ≡ Transcoding.returned (err e) w'
        → (w' ≡ w) ⊎ (e ≡ call_error (refused not_processed))

    handler_of-Keeps :
        (name : Text) (made : Marshaler → HttpRequest → Result GatewayError Request)
        → HandlerKeeps (
            handler_of client annotate marshaler_for name
              λ ctx marshaler req. call_with client ctx (made marshaler req))
    handler_of-Keeps name made req w w' e h = elim (Result-cases (annotate req name)) [
      | inl (message, hf) ↦
          inl (returned_state {e = bad_context message} (sym (rw (handler_of, hf) refl) ∙ h))
      | inr (ctx, hc) ↦
          call_with-Keeps ctx (made (marshaler_for req) req) w w' e
            (sym (rw (handler_of, hc) refl) ∙ h)
    ]

    registered-Keeps :
        All
          (λ (r : Route (HttpRequest → W → Called GatewayError W)). HandlerKeeps r.handler)
          (register_service_handler_client client annotate marshaler_for)
    unfolding register_service_handler_client request_create_user_behavior_telemetry
        request_create_gameplay_telemetry request_create_performance_telemetry
    registered-Keeps = (
      handler_of-Keeps _
          (λ marshaler req. read_user_behavior marshaler req >>= λ m. ok (user_behavior m)),
      (
        handler_of-Keeps _ (λ marshaler req. read_gameplay marshaler req >>= λ m. ok (gameplay m)),
        (
          handler_of-Keeps _
              (λ marshaler req. read_performance marshaler req >>= λ m. ok (performance m)),
          tt,
        ),
      ),
    )

    module _
        (find : List (Route (HttpRequest → W → Called GatewayError W))
          → HttpRequest
          → Option (HttpRequest → W → Called GatewayError W))
        (mux : IsMux find) where
      called-Spares :
          (w : W) (c : Called GatewayError W)
          → ((e : GatewayError) (w' : W)
              → c ≡ Transcoding.returned (err e) w'
              → (w' ≡ w) ⊎ (e ≡ call_error (refused not_processed)))
          → Spares w (called c)
      called-Spares w (Transcoding.returned (err e) w') h = h e w' refl
      called-Spares w (Transcoding.returned (ok u) w') h = tt
      called-Spares w Transcoding.waiting h = tt
      called-Spares w Transcoding.aborted h = tt
      called-Spares w (Transcoding.given_up e c) h = tt

      respond-Spares :
          (req : HttpRequest) (w : W) (response : Response)
          → Spares w (
              respond find
                (register_service_handler_client client annotate marshaler_for)
                req
                w
                response)
      respond-Spares req w (gateway_call rest) =
          let routes = register_service_handler_client client annotate marshaler_for in
          let stripped : HttpRequest = record req { path = rest } in
          elim (Option-cases (find routes stripped)) [
            | inl hn ↦
                let none_found : route find routes stripped w ≡ unrouted w = rw (route, hn) refl in
                subst (Spares w) (sym none_found) refl
            | inr (handler, hf) ↦
                let (chosen, there, same) = mux routes stripped handler hf in
                let one_found : route find routes stripped w ≡ called (handler stripped w) =
                  rw (route, hf) refl in
                subst (Spares w) (sym one_found) (
                  called-Spares w (handler stripped w) λ e w' failed.
                    all-Mem (λ c. HandlerKeeps c.handler) chosen routes there registered-Keeps
                      stripped w w' e (ap (λ f. f stripped w) same ∙ failed))
          ]
      respond-Spares req w (static_file _) = refl
      respond-Spares req w (document _) = refl
      respond-Spares req w (moved_permanently _) = refl
      respond-Spares req w (failure _ _) = refl
      respond-Spares req w not_found = refl

module _ {Ctx D S D' S' D'' S'' Spec : Type 0} (unmarshal : List ℕ → Option Claims) (now : ℕ)
    (now_ms : ℤ) (prefer_done : Bool) (find_options : Text → Text → Result AuthError MethodOptions)
    (validator : Option (Text → Option Permission → Text → Option Text)) (environment : Text)
    (enabled : Text) (connect : Ctx → Result Text Connected)
    (annotate : HttpRequest → Text → Result Text Ctx) (marshaler_for : HttpRequest → Marshaler)
    (find : List (
        Route (
          HttpRequest
          → TelemetryService D S D' S' D'' S''
          → Called GatewayError (TelemetryService D S D' S' D'' S'')))
      → HttpRequest
      → Option (
          HttpRequest
          → TelemetryService D S D' S' D'' S''
          → Called GatewayError (TelemetryService D S D' S' D'' S'')))
    (swagger : Swagger Spec) (swagger_dir base_path : Text) where
  -- With a multiplexer that answers with registered handlers only: for every request, with
  -- authorization enabled or not, an answer of the HTTP server that is an error leaves all three
  -- processors, their counters and their deduplicators as they were, be it an error of the
  -- context, the body, the connection before the server has the call, the interceptors or the
  -- request's fields. There are two exceptions: the status of an event that its processor refused,
  -- and the error of a client that gave up while the server went on with the call, of which
  -- nothing is said. An answer that no handler of the gateway gave leaves them as they were too.
  pub serve_http-Spares :
      (mux : IsMux find) (req : HttpRequest) (s : TelemetryService D S D' S' D'' S'')
      → Spares s (
          serve_http find
            (register_service_handler_client
              (client_of unmarshal now now_ms prefer_done find_options validator environment enabled
                connect)
              annotate
              marshaler_for)
            swagger
            swagger_dir
            base_path
            req
            s)
  unfolding serve_http
  serve_http-Spares mux req s =
      respond-Spares
        (client_of unmarshal now now_ms prefer_done find_options validator environment enabled
          connect)
        (client_of-Keeps unmarshal now now_ms prefer_done find_options validator environment enabled
          connect)
        annotate marshaler_for find mux req s (serve swagger swagger_dir base_path req.path)
