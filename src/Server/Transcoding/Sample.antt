-- ===== src/Server/Transcoding/Sample.antt =====
-- A multiplexer for the tests of pkg/pb/service.pb.gw.go: the first route with the request's method
-- and path.
use mathlib.Core.List.{Memᴰ}
use mathlib.Core.List.Memᴰ
use extend_game_telemetry_co.Prelude.{
  ◌≡◌, ◌∙◌, refl, sym, ap, true, ◌&&◌, Option, none, some, List, [], ◌∷◌, text_eq, text_eq_iff, map,
  arith, if◌then◌else◌, Bool-cases, inl, inr,
}
use extend_game_telemetry_co.Server.Transcoding.{HttpRequest, Route}
use extend_game_telemetry_co.Server.Transcoding.Faithful.{spell, has_text, Reaches}
use extend_game_telemetry_co.Server.Transcoding.Successes.{IsMux}

-- The first route with the request's method and path.
abbrev pub first_route : {H : Type 0} → List (Route H) → HttpRequest → Option H
first_route [] req = none
first_route (r ∷ routes) req =
    let rest = first_route routes req in
    if text_eq r.method req.method && text_eq (spell r.pattern) req.path
    then some r.handler
    else rest

pub first_route-IsMux : {H : Type 0} → IsMux {H = H} first_route
first_route-IsMux [] req h found = ground arith
first_route-IsMux (r ∷ routes) req h found =
    elim (Bool-cases (text_eq r.method req.method && text_eq (spell r.pattern) req.path)) [
      | inl hit ↦ (r, Memᴰ.head refl, ground arith)
      | inr miss ↦
          let later : first_route routes req ≡ some h = ground arith in
          let (chosen, there, same) = first_route-IsMux routes req h later in
          (chosen, Memᴰ.tail there, same)
    ]

has_spelling :
    {H : Type 0} (c : Route H) (routes : List (Route H))
    → Memᴰ c routes
    → has_text (spell c.pattern) (map (λ (r : Route H). spell r.pattern) routes) ≡ true
has_spelling c [] there = absurd (Memᴰ.not-nil there)
has_spelling c (r ∷ routes) there = elim (Memᴰ.cases_cons there) [
  | inl same ↦
      let spelled = ap (λ (r : Route _). spell r.pattern) same in
      ground (arith, (text_eq_iff (spell c.pattern) (spell r.pattern)).1 spelled)
  | inr later ↦ ground (arith, has_spelling c routes later)
]

pub first_route-Reaches : {H : Type 0} → Reaches {H = H} first_route
first_route-Reaches [] chosen req apart there plain method at = absurd (Memᴰ.not-nil there)
first_route-Reaches (r ∷ routes) chosen req apart there plain method at =
    elim (Memᴰ.cases_cons there) [
      | inl same ↦
          let posted =
            (text_eq_iff r.method req.method).1
              (sym (method ∙ ap (λ (r : Route _). r.method) same)) in
          let spelled =
            (text_eq_iff (spell r.pattern) req.path).1
              (sym (at ∙ ap (λ (r : Route _). spell r.pattern) same)) in
          let handler = ap (λ (r : Route _). r.handler) same in ground arith
      | inr later ↦
          let rest : first_route routes req ≡ some chosen.handler =
            first_route-Reaches routes chosen req (ground arith) later plain method at in
          let listed = has_spelling chosen routes later in
          elim (Bool-cases (text_eq (spell r.pattern) req.path)) [
            | inl hit ↦
                let same = (text_eq_iff (spell r.pattern) req.path).0 hit ∙ at in
                let twice =
                  ap (λ t. has_text t (map (λ (r : Route _). spell r.pattern) routes)) same
                  ∙ listed in
                ground arith
            | inr miss ↦ ground arith
          ]
    ]
