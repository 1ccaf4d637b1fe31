-- ===== src/Server/Router/Paths.antt =====
-- server/http.go: which pattern of the mux serves a path.
use mathlib.Core.Path.{subst}
use cloudip.Base.{
  Bool, true, false, not, ◌&&◌, ==-sound, ◌≡◌, refl, sym, ◌∙◌, inl, inr, Text, codes, text_eq,
  nat_eq, ◌==◌, List, [], ◌∷◌, Option, none, some, if◌then◌else◌, Bool-cases, arith,
}
use cloudip.Base.Outcome.{Outcome}
use cloudip.Base.Texts.{split, cut, push_head}
use cloudip.Net.Addr.{Addr}
use cloudip.Net.Prefix.{Prefix}
use cloudip.Server.Mux.{
  Mux, Pattern, Handler, Found, PathValues, Segment, literal, wild, handle_func, parse_pattern,
  conflict, match_path, route, any_path, register,
}
use cloudip.Server.Router.{
  new_mux, serve_lookup_one, serve_provider, serve_lookup_batch, serve_healthz, serve_version,
  serve_metrics,
}
use cloudip.Server.Router.Endpoint.{
  Endpoint, lookup_one, provider, lookup_batch, healthz, version, metrics, is_get, endpoint,
}

-- A text that is one of two is not the other.
apart : (t x y : Text) → (x == y) ≡ false → (t == x) ≡ true → (t == y) ≡ false
apart t x y d h = subst (λ u. (u == y) ≡ false) (sym (==-sound t x h)) d

healthz_version : (codes "healthz" == codes "version") ≡ false
unfolding text_eq nat_eq
healthz_version = refl

healthz_metrics : (codes "healthz" == codes "metrics") ≡ false
unfolding text_eq nat_eq
healthz_metrics = refl

version_metrics : (codes "version" == codes "metrics") ≡ false
unfolding text_eq nat_eq
version_metrics = refl

lookup_provider : (codes "lookup" == codes "provider") ≡ false
unfolding text_eq nat_eq
lookup_provider = refl

abbrev pub is_some : Option Endpoint → Bool
is_some none = false
is_some (some e) = true

module _ (parse_addr : Text → Outcome Addr) (show_prefix : Prefix → Text) where
  abbrev pub get_pattern : List Segment → Pattern
  get_pattern segments = record { method = codes "GET"; segments = segments }

  abbrev pub v1 : List Segment → Pattern
  v1 segments = get_pattern (literal (codes "v1") ∷ segments)

  -- The patterns of the mux, with their handlers.
  abbrev pub lookup_one_route : Pattern × Handler
  lookup_one_route = (
    v1 (literal (codes "lookup") ∷ wild (codes "ip") ∷ []),
    serve_lookup_one parse_addr show_prefix,
  )

  abbrev pub provider_route : Pattern × Handler
  provider_route = (
    v1 (literal (codes "provider") ∷ wild (codes "ip") ∷ []),
    serve_provider parse_addr show_prefix,
  )

  abbrev pub lookup_batch_route : Pattern × Handler
  lookup_batch_route =
      (v1 (literal (codes "lookup") ∷ []), serve_lookup_batch parse_addr show_prefix)

  abbrev pub healthz_route : Pattern × Handler
  healthz_route =
      (get_pattern (literal (codes "healthz") ∷ []), serve_healthz parse_addr show_prefix)

  abbrev pub version_route : Pattern × Handler
  version_route =
      (get_pattern (literal (codes "version") ∷ []), serve_version parse_addr show_prefix)

  abbrev pub metrics_route : Pattern × Handler
  metrics_route =
      (get_pattern (literal (codes "metrics") ∷ []), serve_metrics parse_addr show_prefix)

  abbrev pub routes : Mux
  routes =
      lookup_one_route ∷ provider_route ∷ lookup_batch_route ∷ healthz_route ∷ version_route
      ∷ metrics_route ∷ []

  pub new_mux-routes : new_mux parse_addr show_prefix ≡ some routes
  unfolding new_mux register handle_func parse_pattern conflict text_eq nat_eq cut split push_head
  new_mux-routes = refl

  -- The pattern that serves an endpoint, with the values of its wildcards.
  abbrev pub route_of : Endpoint → Found
  route_of (lookup_one ip) = (lookup_one_route.0, lookup_one_route.1, (codes "ip", ip) ∷ [])
  route_of (provider ip) = (provider_route.0, provider_route.1, (codes "ip", ip) ∷ [])
  route_of lookup_batch = (lookup_batch_route.0, lookup_batch_route.1, [])
  route_of healthz = (healthz_route.0, healthz_route.1, [])
  route_of version = (version_route.0, version_route.1, [])
  route_of metrics = (metrics_route.0, metrics_route.1, [])

  abbrev pub route_to : Text → Option Endpoint → Option Found
  route_to method none = none
  route_to method (some e) = if is_get method then some (route_of e) else none

  module _ (unescape : Text → Text) where
    -- What is found for a path, and whether any method is.
    abbrev pub Routed : Text → List Text → List (Text × Text) → Option Endpoint → Type 0
    Routed method path query e =
        (route unescape routes (record { method = method; path = path; query = query }) none
          ≡ route_to method e)
        × (any_path unescape routes path ≡ is_some e)

    one_segment :
        (method a : Text) (query : List (Text × Text))
        → Routed method (a ∷ []) query (endpoint unescape (a ∷ []))
    unfolding route match_path
    one_segment method a query = elim (Bool-cases (unescape a == codes "healthz")) [
      | inl e ↦
          let n2 = apart (unescape a) (codes "healthz") (codes "version") healthz_version e in
          let n3 = apart (unescape a) (codes "healthz") (codes "metrics") healthz_metrics e in
          rw (e, n2, n3, route, any_path, match_path) (refl, refl)
      | inr n1 ↦ elim (Bool-cases (unescape a == codes "version")) [
        | inl e ↦
            let n3 = apart (unescape a) (codes "version") (codes "metrics") version_metrics e in
            rw (n1, e, n3, route, any_path, match_path) (refl, refl)
        | inr n2 ↦ elim (Bool-cases (unescape a == codes "metrics")) [
          | inl n3 ↦ rw (n1, n2, n3, route, any_path, match_path) (refl, refl)
          | inr n3 ↦ rw (n1, n2, n3, route, any_path, match_path) (refl, refl)
        ]
      ]
    ]

    two_segments :
        (method a b : Text) (query : List (Text × Text))
        → Routed method (a ∷ b ∷ []) query (endpoint unescape (a ∷ b ∷ []))
    unfolding route match_path
    two_segments method a b query = elim (Bool-cases (unescape b == codes "lookup")) [
      | inr eb ↦ elim (Bool-cases (unescape a == codes "v1")) [
        | inl ea ↦ rw (eb, ea, route, any_path, match_path) (refl, refl)
        | inr ea ↦ rw (eb, ea, route, any_path, match_path) (refl, refl)
      ]
      | inl eb ↦ elim (Bool-cases (unescape a == codes "v1")) [
        | inl ea ↦ rw (eb, ea, route, any_path, match_path) (refl, refl)
        | inr ea ↦ rw (eb, ea, route, any_path, match_path) (refl, refl)
      ]
    ]

    -- What the patterns with an address make of a path.
    abbrev fits : Text → Text → Text → Text → Option PathValues
    fits name a b c =
        if unescape a == codes "v1" && unescape b == name && not (c == [])
        then some ((codes "ip", unescape c) ∷ [])
        else none

    match-fits :
        (name a b c : Text)
        → match_path unescape
            (literal (codes "v1") ∷ literal name ∷ wild (codes "ip") ∷ [])
            (a ∷ b ∷ c ∷ [])
          ≡ fits name a b c
    unfolding match_path
    match-fits name a b c = elim (Bool-cases (c == [])) [
      | inl ec ↦ elim (Bool-cases (unescape b == name)) [
        | inl eb ↦ rw (ec, match_path) (ground arith)
        | inr eb ↦ rw (ec, match_path) (ground arith)
      ]
      | inr ec ↦ elim (Bool-cases (unescape b == name)) [
        | inl eb ↦ rw (ec, eb, match_path) (ground arith)
        | inr eb ↦ rw (ec, eb, match_path) (ground arith)
      ]
    ]

    module _ (name a b c : Text) where
      unfit : (unescape a == codes "v1" && not (c == [])) ≡ false → fits name a b c ≡ none
      unfit out = ground arith

      misnamed : (unescape b == name) ≡ false → fits name a b c ≡ none
      misnamed eb = ground arith

      fit :
          (unescape a == codes "v1" && not (c == [])) ≡ true
          → (unescape b == name) ≡ true
          → fits name a b c ≡ some ((codes "ip", unescape c) ∷ [])
      fit in_ eb = ground arith

    three_segments :
        (method a b c : Text) (query : List (Text × Text))
        → Routed method (a ∷ b ∷ c ∷ []) query (endpoint unescape (a ∷ b ∷ c ∷ []))
    unfolding route match_path
    three_segments method a b c query =
        let m1 = match-fits (codes "lookup") a b c in
        let m2 = match-fits (codes "provider") a b c in
        elim (Bool-cases (unescape a == codes "v1" && not (c == []))) [
          | inr out ↦
              let n1 = m1 ∙ unfit (codes "lookup") a b c out in
              let n2 = m2 ∙ unfit (codes "provider") a b c out in
              rw (n1, route, any_path) (rw (n2, route, any_path) (rw out (refl, refl)))
          | inl in_ ↦ elim (Bool-cases (unescape b == codes "lookup")) [
            | inl eb ↦
                let np =
                  apart (unescape b) (codes "lookup") (codes "provider") lookup_provider eb in
                let n1 = m1 ∙ fit (codes "lookup") a b c in_ eb in
                let n2 = m2 ∙ misnamed (codes "provider") a b c np in
                rw (n1, route, any_path) (rw (n2, route, any_path) (rw (in_, eb) (refl, refl)))
            | inr eb ↦ elim (Bool-cases (unescape b == codes "provider")) [
              | inl np ↦
                  let n1 = m1 ∙ misnamed (codes "lookup") a b c eb in
                  let n2 = m2 ∙ fit (codes "provider") a b c in_ np in
                  rw (n1, route, any_path)
                    (rw (n2, route, any_path) (rw (in_, eb, np) (refl, refl)))
              | inr np ↦
                  let n1 = m1 ∙ misnamed (codes "lookup") a b c eb in
                  let n2 = m2 ∙ misnamed (codes "provider") a b c np in
                  rw (n1, route, any_path)
                    (rw (n2, route, any_path) (rw (in_, eb, np) (refl, refl)))
            ]
          ]
        ]

    pub routed :
        (method : Text) (path : List Text) (query : List (Text × Text))
        → Routed method path query (endpoint unescape path)
    unfolding route match_path
    routed method [] query = (refl, refl)
    routed method (a ∷ []) query = one_segment method a query
    routed method (a ∷ b ∷ []) query = two_segments method a b query
    routed method (a ∷ b ∷ c ∷ []) query = three_segments method a b c query
    routed method (a ∷ b ∷ c ∷ d ∷ path) query = (refl, refl)
