-- ===== src/Server/Transcoding/Successes.antt =====
-- What a success of the HTTP handlers of pkg/pb/service.pb.gw.go comes of.
use mathlib.Core.List.{Memᴰ}
use mathlib.Core.List.Memᴰ
use mathlib.Core.Path.{subst}
use extend_game_telemetry_co.Prelude.{
  ◌≡◌, ◌∙◌, refl, sym, Option, none, some, List, [], ◌∷◌, Text, arith, Option-cases, inl, inr, All,
}
use extend_game_telemetry_co.Prelude.Result.{Result, ok, err, ◌>>=◌, Result-cases}
use extend_game_telemetry_co.Auth.{AuthError}
use extend_game_telemetry_co.Service.{Reply, replied, pending, crashed}
use extend_game_telemetry_co.Server.{Request, user_behavior, gameplay, performance}
use extend_game_telemetry_co.Server.Gateway.{
  Response, gateway_call, static_file, document, moved_permanently, failure, not_found,
}
use extend_game_telemetry_co.Server.Transcoding.{
  HttpRequest, Marshaler, CallError, GatewayError, Called, returned, waiting, aborted, given_up,
  interrupted, Route, Answer, called, unrouted, call_with, call_error, map_error, handler_of,
  read_user_behavior, read_gameplay, read_performance, register_service_handler_client, route,
  respond, called_of, request_create_user_behavior_telemetry, request_create_gameplay_telemetry,
  request_create_performance_telemetry,
}

-- The multiplexer answers with a handler that is registered.
abbrev pub IsMux : {H : Type 0} → (List (Route H) → HttpRequest → Option H) → Type 0
IsMux {H = H} find =
    (routes : List (Route H)) (req : HttpRequest) (h : H)
    → find routes req ≡ some h
    → (r : Route H) × Memᴰ r routes × (r.handler ≡ h)

-- The message of a call is what the request's body decodes to.
abbrev pub IsBody : Marshaler → HttpRequest → Request → Type 0
IsBody marshaler req (user_behavior m) = read_user_behavior marshaler req ≡ ok m
IsBody marshaler req (gameplay m) = read_gameplay marshaler req ≡ ok m
IsBody marshaler req (performance m) = read_performance marshaler req ≡ ok m

pub called_of_ok :
    {W : Type 0} (w w' : W) (r : Result AuthError (Reply W))
    → called_of w r ≡ returned (ok tt) w'
    → r ≡ ok (replied (ok tt) w')
called_of_ok w w' (ok (replied (ok u) w'')) h = ground arith
called_of_ok w w' (ok (replied (err status) w'')) h = ground arith
called_of_ok w w' (ok pending) h = ground arith
called_of_ok w w' (ok crashed) h = ground arith
called_of_ok w w' (err e) h = ground arith

map_error_ok :
    {E F W : Type 0} (f : E → F) (c : Called E W) (w : W)
    → map_error f c ≡ returned (ok tt) w
    → c ≡ returned (ok tt) w
map_error_ok f (returned (ok u) w') w h = ground arith
map_error_ok f (returned (err e) w') w h = ground arith
map_error_ok f waiting w h = ground arith
map_error_ok f aborted w h = ground arith
map_error_ok f (given_up e c) w h = ground arith

-- A call that returns to its client is one that the client waited for.
pub interrupted_returned :
    {W : Type 0} (gives_up : Option Text) (c : Called CallError W) (r : Result CallError (Unit {0}))
    (w : W)
    → interrupted gives_up c ≡ returned r w
    → c ≡ returned r w
interrupted_returned none c r w h = h
interrupted_returned (some message) c r w h = ground arith

module _ {Ctx W : Type 0} (client : Ctx → Request → W → Called CallError W) where
  -- A call that succeeds was made with the message that was read.
  call_with_ok :
      {M : Type 0} (ctx : Ctx) (wrap : M → Request) (made : Result GatewayError M) (w w' : W)
      → call_with client ctx (made >>= λ m. ok (wrap m)) w ≡ returned (ok tt) w'
      → (m : M) × (made ≡ ok m) × (client ctx (wrap m) w ≡ returned (ok tt) w')
  call_with_ok ctx wrap (err e) w w' h = ground arith
  call_with_ok ctx wrap (ok m) w w' h =
      (m, refl, map_error_ok call_error (client ctx (wrap m) w) w' h)

  module _ (annotate : HttpRequest → Text → Result Text Ctx)
      (marshaler_for : HttpRequest → Marshaler) where
    -- A success of a route's handler is a success of a call with the message in the request's body.
    abbrev pub Succeeds : (HttpRequest → W → Called GatewayError W) → Type 0
    Succeeds handler =
        (req : HttpRequest) (w w' : W)
        → handler req w ≡ returned (ok tt) w'
        → (name : Text) × (ctx : Ctx) × (r : Request) × (annotate req name ≡ ok ctx)
          × IsBody (marshaler_for req) req r
          × (client ctx r w ≡ returned (ok tt) w')

    handler_of_ok :
        {M : Type 0} (name : Text) (wrap : M → Request)
        (read : Marshaler → HttpRequest → Result GatewayError M)
        → ((req : HttpRequest) (m : M)
            → read (marshaler_for req) req ≡ ok m
            → IsBody (marshaler_for req) req (wrap m))
        → Succeeds (
            handler_of client annotate marshaler_for name
              λ ctx marshaler req. call_with client ctx (read marshaler req >>= λ m. ok (wrap m)))
    handler_of_ok name wrap read body req w w' h = elim (Result-cases (annotate req name)) [
      | inl (message, hf) ↦ ground arith
      | inr (ctx, hc) ↦
          let (m, there, done) =
            call_with_ok ctx wrap (read (marshaler_for req) req) w w'
              (sym (rw (handler_of, hc) refl) ∙ h) in
          (name, ctx, wrap m, hc, body req m there, done)
    ]

    pub registered_ok :
        All
          (λ (r : Route (HttpRequest → W → Called GatewayError W)). Succeeds r.handler)
          (register_service_handler_client client annotate marshaler_for)
    unfolding register_service_handler_client request_create_user_behavior_telemetry
        request_create_gameplay_telemetry request_create_performance_telemetry
    registered_ok = (
      handler_of_ok _ (λ m. user_behavior m) read_user_behavior (λ req m h. h),
      (
        handler_of_ok _ (λ m. gameplay m) read_gameplay (λ req m h. h),
        (handler_of_ok _ (λ m. performance m) read_performance (λ req m h. h), tt),
      ),
    )

pub all-Mem : {A : Type 0} (P : A → Type 0) (a : A) (xs : List A) → Memᴰ a xs → All P xs → P a
all-Mem P a [] there every = absurd (Memᴰ.not-nil there)
all-Mem P a (x ∷ xs) there every = elim (Memᴰ.cases_cons there) [
  | inl e ↦ subst P (sym e) every.0
  | inr later ↦ all-Mem P a xs later every.1
]

pub called-injective :
    {W : Type 0} {c c' : Called GatewayError W} → ◌≡◌ {A = Answer W} (called c) (called c') → c ≡ c'
called-injective h = cc

module _ {W : Type 0}
    (find : List (Route (HttpRequest → W → Called GatewayError W))
      → HttpRequest
      → Option (HttpRequest → W → Called GatewayError W))
    (routes : List (Route (HttpRequest → W → Called GatewayError W))) where
  -- A success of the HTTP server is one of a handler that the multiplexer found.
  pub respond_ok :
      (req : HttpRequest) (w w' : W) (response : Response)
      → respond find routes req w response ≡ called (returned (ok tt) w')
      → (rest : Text) × (handler : HttpRequest → W → Called GatewayError W) × (find routes
            (record req { path = rest })
          ≡ some handler)
        × (handler (record req { path = rest }) w ≡ returned (ok tt) w')
  respond_ok req w w' (gateway_call rest) h =
      elim (Option-cases (find routes (record req { path = rest }))) [
        | inl hn ↦ absurd (unrouted≢called (sym (rw (route, hn) refl) ∙ h))
        | inr (handler, hf) ↦ (rest, handler, hf, called-injective (sym (rw (route, hf) refl) ∙ h))
      ]
    where
      unrouted≢called : ¬ (◌≡◌ {A = Answer W} (unrouted w) (called (returned (ok tt) w')))
      unrouted≢called e = ground arith
  respond_ok req w w' (static_file _) h = ground arith
  respond_ok req w w' (document _) h = ground arith
  respond_ok req w w' (moved_permanently _) h = ground arith
  respond_ok req w w' (failure _ _) h = ground arith
  respond_ok req w w' not_found h = ground arith
