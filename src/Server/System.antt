-- ===== src/Server/System.antt =====
-- The whole of sample-server/main.go as it serves requests: its configuration, its routes, and the
-- two stores. `RegisterRoutes` of pkg/oauth2/handlers.go is the group /oauth.
pub mod Safe
pub mod Changes
pub mod Kept
pub mod Abstract
pub mod Runs
use go_oauth_client_credenti.Certificate.Store.{memory_certificates, MemoryStore, new_memory_store}
use go_oauth_client_credenti.Common.{ℕ, ◌*◌, String, List, [], ◌∷◌, ◌++◌, ◌==◌, map, if◌then◌else◌}
use go_oauth_client_credenti.Common.Text.{◌<>◌}
use go_oauth_client_credenti.Oauth2.Exec.{Result}
use go_oauth_client_credenti.Oauth2.Types.{
  Time, RegisterClientResponse, TokenResponse, IntrospectResponse,
}
use go_oauth_client_credenti.Oauth2.Types.Platform.{Platform}
use go_oauth_client_credenti.Oauth2.Store.{Store}
use go_oauth_client_credenti.Oauth2.Store.Memory.{memory_store}
use go_oauth_client_credenti.Oauth2.Store.Memory
use go_oauth_client_credenti.Oauth2.Telemetry.{Telemetry}
use go_oauth_client_credenti.Oauth2.Service.{Service, World, second}
use go_oauth_client_credenti.Oauth2.Service
use go_oauth_client_credenti.Oauth2.Http.{Request, Body, value, Response}
use go_oauth_client_credenti.Oauth2.Handlers.{
  register_client_handler, token_handler, introspect_handler, revoke_handler,
}
use go_oauth_client_credenti.Certificate.Handler.{ApiRequest, Content, serve_acme_challenge}
use go_oauth_client_credenti.Server.{
  Api, start, complete, get, ApiCall, Answer, oauth_service, protected,
}

-- The variables PORT and RESOURCE_BASE_URL, which are "" where they are not set.
unfoldable pub port_of : String → String
port_of port = if port == "" then "8080" else port

unfoldable pub resource_base_url_of : String → String
resource_base_url_of url = if url == "" then "https://api.example.com" else url

-- `srv.Addr`
unfoldable pub address : String → String
unfolding port_of
address port = ":" <> port_of port

-- The fields of `srv` but its handler, which is `serve`.
pub record HttpServer : Type 0 where
  pub addr : String
  pub read_header_timeout : ℕ
  pub read_timeout : ℕ
  pub write_timeout : ℕ
  pub idle_timeout : ℕ

-- `srv`, given the variable PORT
unfoldable pub http_server : String → HttpServer
unfolding address
http_server port = record {
  addr = address port;
  read_header_timeout = 5 * second;
  read_timeout = 10 * second;
  write_timeout = 10 * second;
  idle_timeout = 30 * second;
}

-- What stands behind a route, and the middleware of its group.
pub data Endpoint : Type 0 where
  health metrics clients tokens introspection revocation acme : Endpoint
  guarded : Api → Endpoint

pub record Route : Type 0 where
  pub method : String
  pub path : String
  pub endpoint : Endpoint

-- `RegisterRoutes`, given the path of the group
unfoldable pub register_routes : String → List Route
register_routes group =
    record { method = "POST"; path = group <> "/clients"; endpoint = clients }
    ∷ record { method = "POST"; path = group <> "/token"; endpoint = tokens }
    ∷ record { method = "POST"; path = group <> "/introspect"; endpoint = introspection }
    ∷ record { method = "POST"; path = group <> "/revoke"; endpoint = revocation }
    ∷ []

-- The routes of the server, in the order in which `main` adds them.
unfoldable pub routes : List Route
unfolding register_routes
routes =
    record { method = "GET"; path = "/healthz"; endpoint = health }
      ∷ record { method = "GET"; path = "/metrics"; endpoint = metrics }
      ∷ register_routes "/oauth"
    ++ record { method = "GET"; path = "/.well-known/acme-challenge/:token"; endpoint = acme }
      ∷ record {
        method = "POST";
        path = "/v1" <> "/certificates/:id/challenges/http-01/start";
        endpoint = guarded start;
      }
      ∷ record {
        method = "POST";
        path = "/v1" <> "/certificates/:id/challenges/http-01/complete";
        endpoint = guarded complete;
      }
      ∷ record { method = "GET"; path = "/v1" <> "/certificates/:id"; endpoint = guarded get }
      ∷ []

-- A request at one of the routes that the repository has a handler for.
pub data Incoming : Type 0 where
  to_health : Incoming
  to_clients to_tokens to_introspection to_revocation : Request → Incoming
  to_acme : ApiRequest → Incoming
  to_guarded : Api → Time → ApiCall → Incoming

pub data Reply : Type 0 where
  healthy : Response (List (String × String)) → Reply
  registration : Response RegisterClientResponse → Reply
  issue : Response TokenResponse → Reply
  description : Response IntrospectResponse → Reply
  revoked : Response (Unit {0}) → Reply
  challenge : Response Content → Reply
  certificate_api : Answer → Reply

-- The two stores, with what the service reads and writes.
pub record System (S : Store) : Type 0 where
  pub oauth : World S
  pub certificates : MemoryStore

module _ (p : Platform) (S : Store) (svc : Service) (wall : ℕ → Time) (base : String) where
  -- The answer to a request, and the state after it.
  unfoldable pub serve : Incoming → System S → Reply × System S
  serve to_health sys =
      (healthy (record { status = 200; headers = []; body = value (("status", "ok") ∷ []) }), sys)
  serve (to_clients c) sys =
      let (r, w) = register_client_handler p S svc c sys.oauth in
      (registration r, record sys { oauth = w })
  serve (to_tokens c) sys =
      let (r, w) = token_handler p S svc c sys.oauth in (issue r, record sys { oauth = w })
  serve (to_introspection c) sys =
      let (r, w) = introspect_handler p S svc c sys.oauth in
      (description r, record sys { oauth = w })
  serve (to_revocation c) sys =
      let (r, w) = revoke_handler p S svc wall c sys.oauth in (revoked r, record sys { oauth = w })
  serve (to_acme c) sys =
      (challenge (serve_acme_challenge memory_certificates c sys.certificates), sys)
  serve (to_guarded api now call) sys =
      let (r, w, s) = protected p S svc base api now call sys.oauth sys.certificates in
      (certificate_api r, record { oauth = w; certificates = s })

  -- The states that requests reach, one after another.
  pub data Served (sys : System S) : System S → Type 0 where
    fresh : Served sys sys
    then : {sys' : System S} → Served sys sys' → (i : Incoming) → Served sys (serve i sys').1

  -- The replies to requests that come one after another, and the state after them.
  unfoldable pub serve_all : List Incoming → System S → List Reply × System S
  unfolding serve
  serve_all [] sys = ([], sys)
  serve_all (i ∷ is) sys =
      let (r, sys') = serve i sys in let (rs, last) = serve_all is sys' in (r ∷ rs, last)

-- The state in which `main` starts to listen.
unfoldable pub initial : Telemetry → List ℕ → (ℕ → Time) → System memory_store
unfolding oauth_service
initial telemetry reader time_now = record {
  oauth =
      Service.start memory_store (oauth_service telemetry reader time_now) Memory.new_memory_store;
  certificates = new_memory_store;
}
