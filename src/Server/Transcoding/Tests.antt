-- ===== src/Server/Transcoding/Tests.antt =====
-- A POST of a gameplay event below the base path, through a gateway that keeps the header.
use mathlib.Core.List.{Memᴰ}
use mathlib.Core.Option.{some-injective}
use mathlib.Core.Path.{subst}
use extend_game_telemetry_co.Prelude.{
  ◌≡◌, ◌∙◌, refl, sym, ap, true, ◌++◌, none, some, [], ◌∷◌, Text, codes, text_eq, if◌then◌else◌,
}
use extend_game_telemetry_co.Prelude.Int.{pos}
use extend_game_telemetry_co.Prelude.Result.{Result, ok, ok-injective}
use extend_game_telemetry_co.Auth.{
  extract_auth_requirement, parse_full_method, has_security_scheme, intercept,
  check_authorization_metadata,
}
use extend_game_telemetry_co.Processor.{submit, check_duplicate, mark_seen, offer, await_room}
use extend_game_telemetry_co.Service.{
  create_gameplay_telemetry, gameplay_event, extract_user_id, extract_source_ip, reply_to_submit,
  user_of_parts, user_of,
}
use extend_game_telemetry_co.Service.Base64.{decode_string, pad, decode_groups, last_group, sextet}
use extend_game_telemetry_co.Server.{
  auth_enabled, through, handle, interceptors, full_method, Call, authorization_of, Request,
  user_behavior, gameplay, performance,
}
use extend_game_telemetry_co.Server.Gateway.{Swagger, serve, patterns, handlers}
use extend_game_telemetry_co.Server.Transcoding.{
  HttpRequest, Marshaler, eof, request_create_gameplay_telemetry, client_of, Connected,
  register_service_handler_client, serve_http, called, map_error, call_error, returned,
}
use extend_game_telemetry_co.Server.Transcoding.Sources.{Forwards, IsSource, serve_http-IsSource}
use extend_game_telemetry_co.Server.Transcoding.Faithful.{serve_http_calls}
use extend_game_telemetry_co.Server.Transcoding.Sample.{
  first_route, first_route-IsMux, first_route-Reaches,
}
use extend_game_telemetry_co.Server.Transcoding.Sparing.{Spares, serve_http-Spares}
use extend_game_telemetry_co.Server.Tests.{reader, service, Service', find, knows, needs_token}

abbrev annotate : HttpRequest → Text → Result Text HttpRequest
annotate req name = ok req

abbrev delivered : HttpRequest → Call
delivered req = record {
  metadata = some (λ key.
      if text_eq key (codes "authorization")
      then some (req.header (codes "Authorization"))
      else none);
  peer = none;
}

abbrev connect : HttpRequest → Result Text Connected
connect req = ok (record { call = delivered req; gives_up = none })

annotate-Forwards : Forwards annotate connect
annotate-Forwards req name ctx connected authorization rest same there value =
    let same_request : req ≡ ctx = ok-injective same in
    let same_call : delivered ctx ≡ connected.call =
      ap (λ (x : Connected). x.call) (ok-injective there) in
    let values : req.header (codes "Authorization") ≡ authorization ∷ rest = some-injective _ _ (
      some-injective _ _
        (ap (λ c. authorization_of c) (ap delivered same_request ∙ same_call) ∙ value)) in
    subst (λ vs. Memᴰ authorization (vs ++ req.header (codes "Grpc-Metadata-Authorization")))
      (sym values) (Memᴰ.head refl)

abbrev decoder : HttpRequest → Marshaler
decoder req = record {
  decode_user_behavior = λ bytes. (
    record { event_id = []; version = []; timestamp = []; user = none; context = none },
    some eof,
  );
  decode_gameplay = λ bytes. (
    record {
      event_id = bytes;
      version = codes "1";
      timestamp = codes "10:00";
      game_data = some (record {
        location = none;
        map_id = codes "m";
        cause = [];
        active_weapon = [];
        attacker_id = [];
        current_mission = [];
      });
    },
    none,
  );
  decode_performance = λ bytes. (
    record { event_id = []; version = []; timestamp = []; metrics = none; hardware = none },
    some eof,
  );
}

abbrev swagger : Swagger Text
swagger = record {
  glob = λ dir. ok [];
  load = λ file. ok file;
  set_base_path = λ base spec. spec;
  marshal = λ spec. ok spec;
  indent = λ text. ok text;
}

abbrev post : HttpRequest
post = record {
  method = codes "POST";
  path = codes "/telemetry/v1/telemetry/gameplay";
  header = λ key. if text_eq key (codes "Authorization") then codes "Bearer h.dTE.s" ∷ [] else [];
  body = ok (codes "died");
}

requires :
    (r : Request)
    → extract_auth_requirement find (some knows) (codes "ns") (full_method r) ≡ ok needs_token
unfolding extract_auth_requirement parse_full_method has_security_scheme
requires (user_behavior m) = refl
requires (gameplay m) = refl
requires (performance m) = refl

serve_http_answered :
    (s' : Service') × (serve_http first_route
        (register_service_handler_client
          (client_of reader 3 (pos 7) true find (some knows) (codes "ns") [] connect)
          annotate
          decoder)
        swagger
        (codes "dir")
        (codes "/telemetry")
        post
        service
      ≡ called (returned (ok tt) s'))
unfolding serve_http serve patterns handlers register_service_handler_client
    request_create_gameplay_telemetry client_of through handle intercept interceptors auth_enabled
    extract_auth_requirement parse_full_method has_security_scheme check_authorization_metadata
    create_gameplay_telemetry gameplay_event extract_user_id extract_source_ip reply_to_submit
    user_of_parts user_of decode_string pad decode_groups last_group sextet submit check_duplicate
    mark_seen offer await_room
serve_http_answered = (_, refl)

serve_http-IsSource_example :
    IsSource reader
      (pos 7)
      find
      (some knows)
      (codes "ns")
      decoder
      post
      (codes "ns")
      (λ r. needs_token)
unfolding auth_enabled
serve_http-IsSource_example =
    serve_http-IsSource reader 3 (pos 7) true find (some knows) (codes "ns") [] connect annotate
      decoder first_route swagger (codes "dir") (codes "/telemetry") (λ r. needs_token)
      first_route-IsMux annotate-Forwards refl requires (λ r. refl) post service
      serve_http_answered.0 serve_http_answered.1

-- A request without a header, which the interceptor rejects.
abbrev anonymous : HttpRequest
anonymous = record post { header = λ key. [] }

serve_http-Spares_example : Spares service (
    serve_http first_route
      (register_service_handler_client
        (client_of reader 3 (pos 7) true find (some knows) (codes "ns") [] connect)
        annotate
        decoder)
      swagger
      (codes "dir")
      (codes "/telemetry")
      anonymous
      service)
serve_http-Spares_example =
    serve_http-Spares reader 3 (pos 7) true find (some knows) (codes "ns") [] connect annotate
      decoder first_route swagger (codes "dir") (codes "/telemetry") first_route-IsMux anonymous
      service

serve_http_calls_example :
    serve_http first_route
      (register_service_handler_client
        (client_of reader 3 (pos 7) true find (some knows) (codes "ns") [] connect)
        annotate
        decoder)
      swagger
      (codes "dir")
      (codes "/telemetry")
      post
      service
    ≡ called (
        map_error call_error (
          client_of reader 3
            (pos 7)
            true
            find
            (some knows)
            (codes "ns")
            []
            connect
            (record post { path = codes "/v1/telemetry/gameplay" })
            (gameplay ((decoder post).decode_gameplay (codes "died")).0)
            service))
serve_http_calls_example =
    serve_http_calls (client_of reader 3 (pos 7) true find (some knows) (codes "ns") [] connect)
      annotate decoder first_route swagger (codes "dir") (codes "telemetry")
      (gameplay ((decoder post).decode_gameplay (codes "died")).0) post service
      (record post { path = codes "/v1/telemetry/gameplay" }) first_route-Reaches refl refl refl
      refl refl
