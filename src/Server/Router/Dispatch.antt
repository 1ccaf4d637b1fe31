-- ===== src/Server/Router/Dispatch.antt =====
-- server/http.go: the handler of `NewHTTPHandler`, against its description.
use cloudip.Base.{
  Bool, true, false, not, ◌&&◌, ◌≡◌, refl, ap, ◌∙◌, inl, inr, Text, codes, text_eq, nat_eq, ◌==◌,
  Option, none, some, if◌then◌else◌, Bool-cases,
}
use cloudip.Base.Dict.{get}
use cloudip.Base.Outcome.{Outcome}
use cloudip.Net.Addr.{Addr}
use cloudip.Net.Prefix.{Prefix}
use cloudip.Server.{Service}
use cloudip.Server.Http.{recover_http}
use cloudip.Server.Mux.{
  Request, Reply, not_found, not_allowed, is_clean, served, serve_mux, any_path,
}
use cloudip.Server.Router.{with_recovery, new_http_handler}
use cloudip.Server.Router.Endpoint.{
  Endpoint, lookup_one, provider, lookup_batch, healthz, version, metrics, is_get, endpoint, answer,
  dispatched, dispatch,
}
use cloudip.Server.Router.Paths.{routes, new_mux-routes, route_of, route_to, is_some, routed}

module _ (unescape : Text → Text) (parse_addr : Text → Outcome Addr)
    (show_prefix : Prefix → Text) where
  handled_by-answer :
      (e : Endpoint) (req : Request) (s : Service)
      → with_recovery (
          served unescape
            (routes parse_addr show_prefix)
            (some (route_of parse_addr show_prefix e))
            req
            s)
        ≡ answer parse_addr show_prefix e req s
  unfolding with_recovery served recover_http get text_eq nat_eq
  handled_by-answer (lookup_one ip) req s = refl
  handled_by-answer (provider ip) req s = refl
  handled_by-answer lookup_batch req s = refl
  handled_by-answer healthz req s = refl
  handled_by-answer version req s = refl
  handled_by-answer metrics req s = refl

  with_recovery_itself :
      (s : Service) (b : Bool)
      → with_recovery (s, if b then not_allowed else not_found)
        ≡ (s, if b then not_allowed else not_found)
  unfolding with_recovery
  with_recovery_itself s true = refl
  with_recovery_itself s false = refl

  with_recovery-served :
      (req : Request) (s : Service) (e : Option Endpoint)
      → any_path unescape (routes parse_addr show_prefix) req.path ≡ is_some e
      → with_recovery (
          served unescape
            (routes parse_addr show_prefix)
            (route_to parse_addr show_prefix req.method e)
            req
            s)
        ≡ dispatched parse_addr show_prefix e req s
  unfolding served
  with_recovery-served req s none known = with_recovery_itself s _ ∙ rw known refl
  with_recovery-served req s (some e) known = elim (Bool-cases (is_get req.method)) [
    | inl get_ ↦ rw get_ (handled_by-answer e req s)
    | inr other ↦ rw (other, served) (with_recovery_itself s _ ∙ rw known refl)
  ]

  with_recovery-serve_mux :
      (req : Request) (s : Service)
      → with_recovery (serve_mux unescape (routes parse_addr show_prefix) req s)
        ≡ dispatch parse_addr show_prefix unescape req s
  unfolding serve_mux
  with_recovery-serve_mux req s =
      let (found, known) = routed parse_addr show_prefix unescape req.method req.path req.query in
      elim (Bool-cases (not (req.method == codes "CONNECT") && not (is_clean req.path))) [
        | inl dirty ↦ rw (dirty, serve_mux) (unfold with_recovery in refl)
        | inr clean ↦
            rw (clean, serve_mux)
              (ap (λ o. with_recovery (served unescape (routes parse_addr show_prefix) o req s))
                  found
                ∙ with_recovery-served req s (endpoint unescape req.path) known)
      ]

  -- `NewHTTPHandler` registers its patterns without a panic. The handler answers every request as
  -- follows. One whose path is not clean is redirected, unless its method is CONNECT. The paths that
  -- are known are those of the endpoints, with an address that is not empty where one is asked for;
  -- a GET or HEAD of such is answered by the endpoint's function, with the unescaped address or the
  -- `ip` values of the query, any other method is refused, and any other path is not found.
  pub new_http_handler-dispatch :
      (handler : Request → Service → Service × Reply) × (new_http_handler parse_addr show_prefix
          unescape
        ≡ some handler)
      × ((req : Request) (s : Service)
          → handler req s ≡ dispatch parse_addr show_prefix unescape req s)
  unfolding new_http_handler
  new_http_handler-dispatch = (
    λ req s. with_recovery (serve_mux unescape (routes parse_addr show_prefix) req s),
    rw (new_mux-routes parse_addr show_prefix, new_http_handler) refl,
    λ req s. with_recovery-serve_mux req s,
  )
