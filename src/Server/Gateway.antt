-- ===== src/Server/Gateway.antt =====
-- internal/server/gateway.go and pkg/common/gateway.go: which handler an HTTP request gets. Go's
-- `http.ServeMux` and `http.StripPrefix` are written out as far as the patterns here need them: no
-- pattern has a method, a host or a wildcard, which supposes that the base path begins with a slash and
-- has no brace; and the path of a request is one that `path.Clean` leaves alone. The gRPC
-- gateway's own multiplexer, the file server and the reading of Swagger files are parameters.
pub mod Paths
pub mod Routes
mod Tests
use extend_game_telemetry_co.Prelude.{
  ℕ, Bool, true, false, not, ◌&&◌, ◌||◌, ◌++◌, ◌==◌, Option, none, some, List, [], ◌∷◌, Text, codes,
  text_eq, length, ltb, if◌then◌else◌,
}
use extend_game_telemetry_co.Prelude.Result.{Result, ok, err}

-- `strings.CutPrefix`
abbrev pub cut_prefix : Text → Text → Option Text
cut_prefix [] s = some s
cut_prefix (p ∷ ps) [] = none
cut_prefix (p ∷ ps) (c ∷ s) = let rest = cut_prefix ps s in if p == c then rest else none

abbrev pub has_prefix : Text → Text → Bool
has_prefix prefix s = elim (cut_prefix prefix s) [ none ↦ false | some _ ↦ true ]

abbrev pub ends_in_slash : Text → Bool
ends_in_slash [] = false
ends_in_slash (c ∷ []) = c == b'/'
ends_in_slash (c ∷ d ∷ s) = ends_in_slash (d ∷ s)

pub data Handler : Type 0 where
  to_gateway to_swagger_ui to_swagger_json : Handler

-- A pattern with a slash at its end takes a whole subtree.
abbrev pub matches : Text → Text → Bool
matches pattern path =
    if ends_in_slash pattern then has_prefix pattern path else text_eq pattern path

abbrev pub Mux : Type 0
Mux = List (Text × Handler)

abbrev pub longer : Text × Handler → Option (Text × Handler) → Text × Handler
longer (p, h) none = (p, h)
longer (p, h) (some (q, k)) = if ltb (length p) (length q) then (q, k) else (p, h)

-- The longest pattern that matches.
abbrev pub best : Mux → Text → Option (Text × Handler)
best [] path = none
best ((p, h) ∷ mux) path =
    let rest = best mux path in if matches p path then some (longer (p, h) rest) else rest

abbrev pub registered : Mux → Text → Bool
registered [] path = false
registered ((p, h) ∷ mux) path = text_eq p path || registered mux path

-- What a client is answered with, as far as it is decided here.
pub data Response : Type 0 where
  gateway_call : Text → Response
  static_file : Text → Response
  document : Text → Response
  moved_permanently : Text → Response
  failure : ℕ → Text → Response
  not_found : Response

-- A path without a slash at its end whose subtree has a handler is redirected there.
abbrev pub dispatch : (Handler → Text → Response) → Mux → Text → Response
dispatch handle mux path =
    if not (registered mux path) && (not (ends_in_slash path) && registered mux (path ++ b'/' ∷ []))
    then moved_permanently (path ++ b'/' ∷ [])
    else elim (best mux path) [ none ↦ not_found | some (p, h) ↦ handle h path ]

-- `http.StripPrefix`
abbrev pub strip_prefix : Text → (Text → Response) → Text → Response
strip_prefix prefix handler path = elim (cut_prefix prefix path) [
  | none ↦ not_found
  | some rest ↦ handler rest
]

-- The libraries that read and write a Swagger file: `glob` lists the files of a directory.
pub record Swagger (Spec : Type 0) : Type 0 where
  pub glob : Text → Result Text (List Text)
  pub load : Text → Result Text Spec
  pub set_base_path : Text → Spec → Spec
  pub marshal : Spec → Result Text Text
  pub indent : Text → Result Text Text

module _ {Spec : Type 0} (swagger : Swagger Spec) (swagger_dir base_path : Text) where
  abbrev pub json_of_file : Text → Response
  json_of_file file = elim (swagger.load file) [
    | err _ ↦ failure 500 (codes "Error parsing Swagger JSON file")
    | ok spec ↦ elim (swagger.marshal (swagger.set_base_path base_path spec)) [
      | err _ ↦ failure 500 (codes "Error serializing updated Swagger JSON")
      | ok text ↦ elim (swagger.indent text) [
        | err _ ↦ failure 500 (codes "Error formatting updated Swagger JSON")
        | ok pretty ↦ document pretty
      ]
    ]
  ]

  -- The handler of `serveSwaggerJSON`: the first file that matches. A write that fails is left out.
  unfoldable pub swagger_json : Response
  swagger_json = elim (swagger.glob swagger_dir) [
    | err _ ↦ failure 500 (codes "Error finding Swagger JSON file")
    | ok [] ↦ failure 500 (codes "Error finding Swagger JSON file")
    | ok (file ∷ _) ↦ json_of_file file
  ]

  -- The patterns that newGRPCGatewayHTTPServer, `serveSwaggerUI` and `serveSwaggerJSON` register.
  unfoldable pub patterns : Mux
  patterns =
      (codes "/", to_gateway)
      ∷ (base_path ++ codes "/apidocs/", to_swagger_ui)
      ∷ (base_path ++ codes "/apidocs/api.json", to_swagger_json)
      ∷ []

  -- Their handlers. `Gateway.ServeHTTP` strips the base path.
  unfoldable pub handlers : Handler → Text → Response
  handlers to_gateway path = strip_prefix base_path (λ rest. gateway_call rest) path
  handlers to_swagger_ui path =
      strip_prefix (base_path ++ codes "/apidocs/") (λ rest. static_file rest) path
  handlers to_swagger_json path = swagger_json

  unfoldable pub serve : Text → Response
  serve path = dispatch handlers patterns path
