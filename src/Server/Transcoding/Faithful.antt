-- ===== src/Server/Transcoding/Faithful.antt =====
-- The HTTP server as another way to the gRPC methods: pkg/pb/service.pb.gw.go behind
-- internal/server/gateway.go and pkg/common/gateway.go.
use mathlib.Core.List.{Memᴰ}
use extend_game_telemetry_co.Prelude.{
  ◌≡◌, ◌∙◌, refl, sym, ap, Bool, true, false, not, ◌&&◌, ◌||◌, Option, some, List, [], ◌∷◌, ◌++◌,
  Text, codes, text_eq, map, arith,
}
use extend_game_telemetry_co.Prelude.Result.{Result, ok}
use extend_game_telemetry_co.Server.{Request, user_behavior, gameplay, performance, full_method}
use extend_game_telemetry_co.Server.Gateway.{gateway_call, not_found, Swagger, serve, cut_prefix}
use extend_game_telemetry_co.Server.Gateway.Paths.{when_some}
use extend_game_telemetry_co.Server.Gateway.Routes.{by_rest, serve-by_rest}
use extend_game_telemetry_co.Server.Transcoding.{
  HttpRequest, Marshaler, CallError, GatewayError, Called, Route, called, call_with, call_error,
  map_error, handler_of, register_service_handler_client, route, respond, serve_http,
  request_create_user_behavior_telemetry, request_create_gameplay_telemetry,
  request_create_performance_telemetry,
}
use extend_game_telemetry_co.Server.Transcoding.Successes.{IsBody}

-- The path that a pattern of literals stands for.
abbrev pub spell : List Text → Text
spell [] = []
spell (part ∷ rest) = codes "/" ++ part ++ spell rest

abbrev pub has_text : Text → List Text → Bool
has_text t [] = false
has_text t (u ∷ us) = text_eq t u || has_text t us

abbrev pub all_distinct : List Text → Bool
all_distinct [] = true
all_distinct (t ∷ ts) = not (has_text t ts) && all_distinct ts

-- Of routes with distinct patterns of literals the multiplexer takes the one with the request's
-- method and path, unless a header overrides the method.
abbrev pub Reaches : {H : Type 0} → (List (Route H) → HttpRequest → Option H) → Type 0
Reaches {H = H} find =
    (routes : List (Route H)) (chosen : Route H) (req : HttpRequest)
    → all_distinct (map (λ (r : Route H). spell r.pattern) routes) ≡ true
    → Memᴰ chosen routes
    → req.header (codes "X-Http-Method-Override") ≡ []
    → req.method ≡ chosen.method
    → req.path ≡ spell chosen.pattern
    → find routes req ≡ some chosen.handler

-- The path of each method.
abbrev pub path_of : Request → Text
path_of (user_behavior m) = codes "/v1/telemetry/user-behavior"
path_of (gameplay m) = codes "/v1/telemetry/gameplay"
path_of (performance m) = codes "/v1/telemetry/performance"

cut_prefix-own : (p s : Text) → cut_prefix p (p ++ s) ≡ some s
cut_prefix-own [] s = refl
cut_prefix-own (c ∷ p) s = ground (arith, cut_prefix-own p s)

-- Below the base path each of them goes to the gRPC gateway.
serve-path_of :
    {Spec : Type 0} (swagger : Swagger Spec) (dir base : Text) (r : Request)
    → serve swagger dir (b'/' ∷ base) ((b'/' ∷ base) ++ path_of r) ≡ gateway_call (path_of r)
serve-path_of swagger dir base r =
    serve-by_rest swagger dir (b'/' ∷ base) (base ++ path_of r)
    ∙ (ap (when_some not_found (by_rest swagger dir (b'/' ∷ base)))
          (cut_prefix-own (b'/' ∷ base) (path_of r))
        ∙ to_gateway r)
  where
    to_gateway :
        (r : Request) → by_rest swagger dir (b'/' ∷ base) (path_of r) ≡ gateway_call (path_of r)
    to_gateway (user_behavior m) = refl
    to_gateway (gameplay m) = refl
    to_gateway (performance m) = refl

module _ {Ctx W : Type 0} (client : Ctx → Request → W → Called CallError W)
    (annotate : HttpRequest → Text → Result Text Ctx)
    (marshaler_for : HttpRequest → Marshaler) where
  abbrev routes : List (Route (HttpRequest → W → Called GatewayError W))
  routes = register_service_handler_client client annotate marshaler_for

  routes_distinct :
      all_distinct
        (map (λ (r : Route (HttpRequest → W → Called GatewayError W)). spell r.pattern) routes)
      ≡ true
  unfolding register_service_handler_client
  routes_distinct = refl

  -- The route of a method is registered, and its handler makes the call.
  registered_for :
      (r : Request) (req : HttpRequest) (w : W) (ctx : Ctx)
      → IsBody (marshaler_for req) req r
      → annotate req (full_method r) ≡ ok ctx
      → (chosen : Route (HttpRequest → W → Called GatewayError W)) × Memᴰ chosen routes
        × (chosen.method ≡ codes "POST")
        × (spell chosen.pattern ≡ path_of r)
        × (chosen.handler req w ≡ map_error call_error (client ctx r w))
  unfolding register_service_handler_client request_create_user_behavior_telemetry
      request_create_gameplay_telemetry request_create_performance_telemetry
  registered_for (user_behavior m) req w ctx body there =
      (_, Memᴰ.head refl, refl, refl, rw (handler_of, there, body, call_with) refl)
  registered_for (gameplay m) req w ctx body there =
      (_, Memᴰ.tail (Memᴰ.head refl), refl, refl, rw (handler_of, there, body, call_with) refl)
  registered_for (performance m) req w ctx body there = (
    _,
    Memᴰ.tail (Memᴰ.tail (Memᴰ.head refl)),
    refl,
    refl,
    rw (handler_of, there, body, call_with) refl,
  )

  module _
      (find : List (Route (HttpRequest → W → Called GatewayError W))
        → HttpRequest
        → Option (HttpRequest → W → Called GatewayError W)) where
    -- The gateway's multiplexer on the path of a method.
    route_calls :
        (r : Request) (req : HttpRequest) (w : W) (ctx : Ctx)
        → Reaches find
        → req.method ≡ codes "POST"
        → req.header (codes "X-Http-Method-Override") ≡ []
        → req.path ≡ path_of r
        → IsBody (marshaler_for req) req r
        → annotate req (full_method r) ≡ ok ctx
        → route find routes req w ≡ called (map_error call_error (client ctx r w))
    route_calls r req w ctx reaches post plain at body there =
        let (chosen, registered, method, pattern, calls) = registered_for r req w ctx body there in
        let found =
          reaches routes chosen req routes_distinct registered plain (post ∙ sym method)
            (at ∙ sym pattern) in
        let step : route find routes req w ≡ called (chosen.handler req w) =
          rw (route, found) refl in
        step ∙ ap (λ c. called c) calls

    -- With a base path that begins with a slash and a multiplexer that answers a literal path with
    -- its route: a POST request of the HTTP server to the path of a method below the base path,
    -- whose method no header overrides, whose body decodes to a request of that method, and of
    -- whose headers a context can be made, is answered exactly as the gRPC call of that request in
    -- that context is, with the state that the call leaves; whatever the call comes to.
    pub serve_http_calls :
        {Spec : Type 0} (swagger : Swagger Spec) (dir base : Text) (r : Request) (req : HttpRequest)
        (w : W) (ctx : Ctx)
        → Reaches find
        → req.method ≡ codes "POST"
        → req.header (codes "X-Http-Method-Override") ≡ []
        → req.path ≡ (b'/' ∷ base) ++ path_of r
        → IsBody
            (marshaler_for (record req { path = path_of r }))
            (record req { path = path_of r })
            r
        → annotate (record req { path = path_of r }) (full_method r) ≡ ok ctx
        → serve_http find routes swagger dir (b'/' ∷ base) req w
          ≡ called (map_error call_error (client ctx r w))
    unfolding serve_http
    serve_http_calls swagger dir base r req w ctx reaches post plain at body there =
        ap (λ response. respond find routes req w response)
          (ap (serve swagger dir (b'/' ∷ base)) at ∙ serve-path_of swagger dir base r)
        ∙ route_calls r (record req { path = path_of r }) w ctx reaches post plain refl body there
