-- ===== src/Tests/Routes.antt =====
-- Runs of the handler of the HTTP server.
use cloudip.Base.{◌≡◌, refl, Text, codes, text_eq, nat_eq, [], ◌∷◌, some}
use cloudip.Server.{Service}
use cloudip.Server.Http.{handle_provider}
use cloudip.Server.Mux.{Request, Reply, redirected, not_allowed}
use cloudip.Server.Router.{new_http_handler}
use cloudip.Server.Router.Dispatch.{new_http_handler-dispatch}
use cloudip.Server.Router.Endpoint.{dispatch, reply}
use cloudip.Tests.Servers.{parse, show, service}

abbrev plain_text : Text → Text
plain_text s = s

abbrev provider_request : Request
provider_request = record {
  method = codes "GET";
  path = codes "v1" ∷ codes "provider" ∷ codes "10.0.0.9" ∷ [];
  query = [];
}

provider_asked :
    dispatch parse show plain_text provider_request service
    ≡ reply (handle_provider parse show (codes "10.0.0.9") service)
unfolding text_eq nat_eq
provider_asked = refl

health_by_post :
    dispatch parse show plain_text
      (record { method = codes "POST"; path = codes "healthz" ∷ []; query = [] })
      service
    ≡ (service, not_allowed)
unfolding text_eq nat_eq
health_by_post = refl

double_slash :
    dispatch parse show plain_text
      (record { method = codes "GET"; path = [] ∷ codes "healthz" ∷ []; query = [] })
      service
    ≡ (service, redirected)
unfolding text_eq nat_eq
double_slash = refl

new_http_handler-dispatch_example :
    (handler : Request → Service → Service × Reply) × (new_http_handler parse show plain_text
      ≡ some handler)
    × ((req : Request) (s : Service) → handler req s ≡ dispatch parse show plain_text req s)
new_http_handler-dispatch_example = new_http_handler-dispatch plain_text parse show
