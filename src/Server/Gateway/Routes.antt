-- ===== src/Server/Gateway/Routes.antt =====
-- The routes of the HTTP server of internal/server/gateway.go, by what follows the base path.
use mathlib.Core.List.{append_assoc}
use extend_game_telemetry_co.Prelude.{
  ◌<◌, ◌++◌, ◌≡◌, ◌∙◌, sym, ap, Bool, true, false, not, ◌&&◌, ◌||◌, none, some, [], ◌∷◌, Text,
  codes, text_eq, text_eq_iff, length, length-append, Option-cases, Bool-cases, inl, inr, arith,
  if◌then◌else◌,
}
use extend_game_telemetry_co.Server.Gateway.{
  cut_prefix, has_prefix, ends_in_slash, Handler, to_gateway, to_swagger_ui, to_swagger_json, Mux,
  Response, gateway_call, static_file, moved_permanently, not_found, dispatch, Swagger,
  swagger_json, patterns, handlers, serve,
}
use extend_game_telemetry_co.Server.Gateway.Paths.{
  when_some, cut_prefix-append, text_eq-append, text_eq_snoc, cut_prefix_sound,
  ends_in_slash-append, text_eq_open, text_eq_nil-snoc, not_root,
}

-- Three patterns: the root, a subtree `u` and a longer path `j`, on a path below the root.
module _ (handle : Handler → Text → Response) (u j tail : Text) where
  abbrev path : Text
  path = b'/' ∷ tail

  abbrev three : Mux
  three = (codes "/", to_gateway) ∷ (u, to_swagger_ui) ∷ (j, to_swagger_json) ∷ []

  abbrev redirected : Bool
  redirected =
      not (text_eq [] tail || (text_eq u path || text_eq j path))
      && (not (ends_in_slash path) && text_eq u (path ++ b'/' ∷ []))

  dispatch-three :
      ends_in_slash u ≡ true
      → ends_in_slash j ≡ false
      → 1 < length u
      → length u < length j
      → dispatch handle three path ≡ (
          if redirected
          then moved_permanently (path ++ b'/' ∷ [])
          else (if text_eq j path
              then handle to_swagger_json path
              else (if has_prefix u path
                  then handle to_swagger_ui path
                  else handle to_gateway path)))
  dispatch-three subtree leaf below deeper =
      rw (subtree, leaf, text_eq_open j path leaf, text_eq_nil-snoc tail b'/') (ground arith)

module _ (base : Text) where
  abbrev ui : Text
  ui = base ++ codes "/apidocs/"

  abbrev json : Text
  json = base ++ codes "/apidocs/api.json"

  -- A path with a slash added is the root of the subtree exactly if it is that root without.
  ui_root :
      (path : Text)
      → text_eq ui (path ++ b'/' ∷ [])
        ≡ when_some false (text_eq (codes "/apidocs")) (cut_prefix base path)
  ui_root path =
      ap (λ x. text_eq x (path ++ b'/' ∷ []))
        (sym (append_assoc base (codes "/apidocs") (b'/' ∷ [])))
      ∙ text_eq_snoc (base ++ codes "/apidocs") path b'/'
      ∙ text_eq-append base (codes "/apidocs") path

module _ {Spec : Type 0} (swagger : Swagger Spec) (dir base : Text) where
  -- What a request gets by the rest of its path after the base path.
  abbrev pub by_rest : Text → Response
  by_rest rest =
      if text_eq (codes "/apidocs/api.json") rest
      then swagger_json swagger dir base
      else elim (cut_prefix (codes "/apidocs/") rest) [
        | some file ↦ static_file file
        | none ↦
            if text_eq (codes "/apidocs") rest
            then moved_permanently (base ++ codes "/apidocs/")
            else gateway_call rest
      ]

  abbrev answer : Handler → Text → Response
  answer = handlers swagger dir base

  three_routes :
      (tail : Text)
      → let path = b'/' ∷ tail in
        serve swagger dir base path ≡ (
          if redirected answer (ui base) (json base) tail
          then moved_permanently (path ++ b'/' ∷ [])
          else (if text_eq (json base) path
              then answer to_swagger_json path
              else (if has_prefix (ui base) path
                  then answer to_swagger_ui path
                  else answer to_gateway path)))
  unfolding serve patterns
  three_routes tail =
      dispatch-three answer (ui base) (json base) tail
        (ends_in_slash-append base b'/' (codes "apidocs/"))
        (ends_in_slash-append base b'/' (codes "apidocs/api.json"))
        (omega (arith, length-append base (codes "/apidocs/")))
        (omega (
          arith,
          length-append base (codes "/apidocs/"),
          length-append base (codes "/apidocs/api.json"),
        ))

  outside :
      (tail : Text)
      → cut_prefix base (b'/' ∷ tail) ≡ none
      → serve swagger dir base (b'/' ∷ tail) ≡ not_found
  unfolding handlers
  outside tail h =
      let path = b'/' ∷ tail in
      three_routes tail
      ∙ ground (
        arith,
        text_eq-append base (codes "/apidocs/") path,
        text_eq-append base (codes "/apidocs/api.json") path,
        cut_prefix-append base (codes "/apidocs/") path,
        ui_root base path,
      )

  -- The redirection, from the subtree's root without its slash alone.
  redirected_lem :
      (tail rest : Text)
      → cut_prefix base (b'/' ∷ tail) ≡ some rest
      → redirected answer (ui base) (json base) tail ≡ text_eq (codes "/apidocs") rest
  redirected_lem tail rest h = elim (Bool-cases (text_eq (codes "/apidocs") rest)) [
    | inr differs ↦ ground (arith, ui_root base (b'/' ∷ tail))
    | inl same ↦
        let path = b'/' ∷ tail in
        let e = (text_eq_iff (codes "/apidocs") rest).0 same in
        let whole = cut_prefix_sound base path rest h ∙ ap (λ x. base ++ x) (sym e) in
        let shut : ends_in_slash path ≡ false =
          ap ends_in_slash whole ∙ ends_in_slash-append base b'/' (codes "apidocs") in
        let ui_differs : text_eq (ui base) path ≡ false =
          text_eq-append base (codes "/apidocs/") path
          ∙ ap (when_some false (text_eq (codes "/apidocs/"))) (h ∙ ap some (sym e)) in
        let json_differs : text_eq (json base) path ≡ false =
          text_eq-append base (codes "/apidocs/api.json") path
          ∙ ap (when_some false (text_eq (codes "/apidocs/api.json"))) (h ∙ ap some (sym e)) in
        rw (not_root tail shut, ui_differs, json_differs, shut)
          (ui_root base path ∙ ap (when_some false (text_eq (codes "/apidocs"))) h)
  ]

  inside :
      (tail rest : Text)
      → cut_prefix base (b'/' ∷ tail) ≡ some rest
      → serve swagger dir base (b'/' ∷ tail) ≡ by_rest rest
  unfolding handlers
  inside tail rest h =
      let path = b'/' ∷ tail in
      three_routes tail ∙ elim (Bool-cases (text_eq (codes "/apidocs") rest)) [
        | inl same ↦
            let e = (text_eq_iff (codes "/apidocs") rest).0 same in
            let whole = cut_prefix_sound base path rest h ∙ ap (λ x. base ++ x) (sym e) in
            let there : path ++ b'/' ∷ [] ≡ base ++ codes "/apidocs/" =
              ap (λ x. x ++ b'/' ∷ []) whole ∙ append_assoc base (codes "/apidocs") (b'/' ∷ []) in
            rw (redirected_lem tail rest h, same)
              (ap (λ x. moved_permanently x) there ∙ ap by_rest e)
        | inr differs ↦ ground (
          arith,
          redirected_lem tail rest h,
          text_eq-append base (codes "/apidocs/api.json") path,
          cut_prefix-append base (codes "/apidocs/") path,
        )
      ]

  -- A request whose path does not begin with the base path is not found. Of the others the rest of the path decides, and no handler takes a
  -- request from another: `/apidocs/api.json` is the Swagger document, every other path below
  -- `/apidocs/` is a file of the Swagger pages, `/apidocs` is redirected there, and all else goes
  -- to the gRPC gateway without the base path.
  pub serve-by_rest :
      (tail : Text)
      → serve swagger dir base (b'/' ∷ tail)
        ≡ when_some not_found by_rest (cut_prefix base (b'/' ∷ tail))
  serve-by_rest tail = elim (Option-cases (cut_prefix base (b'/' ∷ tail))) [
    | inl h ↦ rw h (outside tail h)
    | inr (rest, h) ↦ rw h (inside tail rest h)
  ]
