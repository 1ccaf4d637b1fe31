-- ===== src/Server/Router.antt =====
-- server/http.go: `NewHTTPHandler`.
pub mod Endpoint
pub mod Paths
pub mod Dispatch
use cloudip.Base.{
  Bool, true, false, not, ◌&&◌, ◌||◌, Text, codes, text_eq, nat_eq, ◌==◌, List, [], ◌∷◌, ◌++◌, map,
  Option, none, some, if◌then◌else◌, drop,
}
use cloudip.Base.Dict.{Dict, get}
use cloudip.Base.Outcome.{Outcome}
use cloudip.Base.Texts.{split, cut}
use cloudip.Net.Addr.{Addr}
use cloudip.Net.Prefix.{Prefix}
use cloudip.Server.{Service}
use cloudip.Server.Http.{
  Response, Run, answered, recover_http, handle_lookup_one, handle_provider, handle_lookup_batch,
  handle_healthz, handle_version, handle_metrics,
}
use cloudip.Server.Mux.{
  Request, PathValues, path_value, query_values, Handler, Mux, Reply, handled, serve_mux, register,
}

-- `recoverHTTP`, around a handler that may panic.
unfoldable pub with_recovery : Service × Reply → Service × Reply
with_recovery (s, handled run) = (s, handled (recover_http run))
with_recovery (s, reply) = (s, reply)

module _ (parse_addr : Text → Outcome Addr) (show_prefix : Prefix → Text) where
  abbrev answers : Service × Response → Service × Run
  answers (s, r) = (s, answered r)

  abbrev pub serve_lookup_one : Handler
  serve_lookup_one v r s =
      answers (handle_lookup_one parse_addr show_prefix (path_value (codes "ip") v) s)

  abbrev pub serve_provider : Handler
  serve_provider v r s =
      answers (handle_provider parse_addr show_prefix (path_value (codes "ip") v) s)

  abbrev pub serve_lookup_batch : Handler
  serve_lookup_batch v r s =
      answers (handle_lookup_batch parse_addr show_prefix (query_values (codes "ip") r.query) s)

  abbrev pub serve_healthz : Handler
  serve_healthz v r s = (s, answered (handle_healthz s))

  abbrev pub serve_version : Handler
  serve_version v r s = (s, answered (handle_version s))

  abbrev pub serve_metrics : Handler
  serve_metrics v r s = (s, answered (handle_metrics s))

  unfoldable pub new_mux : Option Mux
  new_mux =
      register
        ((codes "GET /v1/lookup/{ip}", serve_lookup_one)
          ∷ (codes "GET /v1/provider/{ip}", serve_provider)
          ∷ (codes "GET /v1/lookup", serve_lookup_batch)
          ∷ (codes "GET /healthz", serve_healthz)
          ∷ (codes "GET /version", serve_version)
          ∷ (codes "GET /metrics", serve_metrics)
          ∷ [])
        []

  -- `NewHTTPHandler`; none where a registration panics.
  unfoldable pub new_http_handler : (Text → Text) → Option (Request → Service → Service × Reply)
  new_http_handler unescape = elim new_mux [
    | none ↦ none
    | some mux ↦ some (λ req s. with_recovery (serve_mux unescape mux req s))
  ]
