-- ===== src/Server/Gateway/Tests.antt =====
-- Requests of a server with the base path /telemetry.
use extend_game_telemetry_co.Prelude.{◌≡◌, refl, [], ◌∷◌, Text, codes}
use extend_game_telemetry_co.Prelude.Result.{ok}
use extend_game_telemetry_co.Server.Gateway.{
  cut_prefix, Response, gateway_call, static_file, document, moved_permanently, not_found, Swagger,
  swagger_json, patterns, handlers, serve,
}
use extend_game_telemetry_co.Server.Gateway.Paths.{when_some}
use extend_game_telemetry_co.Server.Gateway.Routes.{by_rest, serve-by_rest}

-- A document is its base path.
abbrev swagger : Swagger Text
swagger = record {
  glob = λ dir. ok (codes "service.swagger.json" ∷ []);
  load = λ file. ok file;
  set_base_path = λ base spec. base;
  marshal = λ spec. ok spec;
  indent = λ text. ok text;
}

abbrev get : Text → Response
get path = serve swagger (codes "gateway/apidocs") (codes "/telemetry") path

requests :
    (get (codes "/telemetry/v1/gameplay") ≡ gateway_call (codes "/v1/gameplay"))
    × (get (codes "/telemetry/apidocs/api.json") ≡ document (codes "/telemetry"))
    × (get (codes "/telemetry/apidocs/index.html") ≡ static_file (codes "index.html"))
    × (get (codes "/telemetry/apidocs") ≡ moved_permanently (codes "/telemetry/apidocs/"))
    × (get (codes "/") ≡ not_found)
unfolding serve patterns handlers swagger_json
requests = (refl, refl, refl, refl, refl)

serve-by_rest_example :
    get (codes "/telemetry/apidocs/index.html")
    ≡ when_some not_found
        (by_rest swagger (codes "gateway/apidocs") (codes "/telemetry"))
        (cut_prefix (codes "/telemetry") (codes "/telemetry/apidocs/index.html"))
serve-by_rest_example =
    serve-by_rest swagger (codes "gateway/apidocs") (codes "/telemetry")
      (codes "telemetry/apidocs/index.html")
