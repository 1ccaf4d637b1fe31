-- ===== src/Server/Router/Endpoint.antt =====
-- server/http.go: what the handler of `NewHTTPHandler` is to do with a request, told without patterns.
use cloudip.Base.{
  Bool, not, ◌&&◌, Text, codes, text_eq, nat_eq, ◌==◌, List, [], ◌∷◌, Option, none, some,
  if◌then◌else◌,
}
use cloudip.Base.Outcome.{Outcome}
use cloudip.Net.Addr.{Addr}
use cloudip.Net.Prefix.{Prefix}
use cloudip.Server.{Service}
use cloudip.Server.Http.{
  Response, answered, handle_lookup_one, handle_provider, handle_lookup_batch, handle_healthz,
  handle_version, handle_metrics,
}
use cloudip.Server.Mux.{
  Request, Reply, handled, redirected, not_found, not_allowed, query_values, takes_method, is_clean,
}

-- What a path asks for.
pub data Endpoint : Type 0 where
  lookup_one : Text → Endpoint
  provider : Text → Endpoint
  lookup_batch : Endpoint
  healthz : Endpoint
  version : Endpoint
  metrics : Endpoint

-- What a handler's response is to the mux.
abbrev pub reply : Service × Response → Service × Reply
reply (s, r) = (s, handled (answered r))

-- GET, or HEAD.
abbrev pub is_get : Text → Bool
is_get method = takes_method (codes "GET") method

module _ (unescape : Text → Text) where
  -- The path, unescaped segment by segment.
  abbrev pub endpoint : List Text → Option Endpoint
  endpoint (a ∷ []) =
      if unescape a == codes "healthz"
      then some healthz
      else if unescape a == codes "version"
      then some version
      else if unescape a == codes "metrics"
      then some metrics
      else none
  endpoint (a ∷ b ∷ []) =
      if unescape a == codes "v1" && unescape b == codes "lookup" then some lookup_batch else none
  endpoint (a ∷ b ∷ c ∷ []) =
      if unescape a == codes "v1" && not (c == [])
      then if unescape b == codes "lookup"
        then some (lookup_one (unescape c))
        else if unescape b == codes "provider"
        then some (provider (unescape c))
        else none
      else none
  endpoint _ = none

module _ (parse_addr : Text → Outcome Addr) (show_prefix : Prefix → Text) where
  abbrev pub answer : Endpoint → Request → Service → Service × Reply
  answer (lookup_one ip) req s = reply (handle_lookup_one parse_addr show_prefix ip s)
  answer (provider ip) req s = reply (handle_provider parse_addr show_prefix ip s)
  answer lookup_batch req s =
      reply (handle_lookup_batch parse_addr show_prefix (query_values (codes "ip") req.query) s)
  answer healthz req s = reply (s, handle_healthz s)
  answer version req s = reply (s, handle_version s)
  answer metrics req s = reply (s, handle_metrics s)

  -- What is made of a request on a clean path of which it is known what it asks for.
  abbrev pub dispatched : Option Endpoint → Request → Service → Service × Reply
  dispatched none req s = (s, not_found)
  dispatched (some e) req s = if is_get req.method then answer e req s else (s, not_allowed)

  -- What the handler is to answer.
  abbrev pub dispatch : (Text → Text) → Request → Service → Service × Reply
  dispatch unescape req s =
      if not (req.method == codes "CONNECT") && not (is_clean req.path)
      then (s, redirected)
      else dispatched (endpoint unescape req.path) req s
