-- ===== src/Tests/System.antt =====
-- The theorems on the sample server as a whole.
use go_oauth_client_credenti.Certificate.Store.{
  memory_certificates, new_memory_store, get_certificate, save_certificate, save_challenge,
}
use go_oauth_client_credenti.Common.{String, some, refl, ◌≡◌, ◌⊎◌}
use go_oauth_client_credenti.Common.Dict.{lookup, insert}
use go_oauth_client_credenti.Oauth2.Exec.{ok}
use go_oauth_client_credenti.Oauth2.Store.Memory.{memory_store}
use go_oauth_client_credenti.Oauth2.Store.Refines.{memory_lawful}
use go_oauth_client_credenti.Oauth2.Http.{Request}
use go_oauth_client_credenti.Certificate.Handler.Invariant.{
  Reachable-IsIndexed, here, start_challenge-IsIndexed,
}
use go_oauth_client_credenti.Server.{ApiCall, start, oauth_service, complete}
use go_oauth_client_credenti.Server.System.{
  System, Incoming, to_clients, to_tokens, to_guarded, serve, fresh, then, initial,
}
use go_oauth_client_credenti.Server.System.Safe.{IsSafe, initial-IsSafe}
use go_oauth_client_credenti.Certificate.Model.{Certificate}
use go_oauth_client_credenti.Certificate.Handler.{
  ApiRequest, pending_certificate, start_challenge, ensure_certificate, provision,
}
use go_oauth_client_credenti.Certificate.Handler.Statuses.{IsLater}
use go_oauth_client_credenti.Server.System.Kept.{Served-IsLater}
use go_oauth_client_credenti.Server.System.Changes.{IsPermitted, serve-IsPermitted}
use go_oauth_client_credenti.Tests.Fixtures.{
  platform, telemetry, service, world, bytes32, clock, register_request,
}
use go_oauth_client_credenti.Tests.Lifecycle.{IsConsistent-store}
use go_oauth_client_credenti.Tests.Web.{request}
use go_oauth_client_credenti.Tests.Certificate.{start_request}
use go_oauth_client_credenti.Tests.Server.{base, call}

abbrev pub register : Request
register = record request { json_register = ok register_request }

abbrev listening : System memory_store
listening = initial telemetry bytes32 clock

abbrev serve_main : Incoming → System memory_store → System memory_store
serve_main i sys =
    (serve platform memory_store (oauth_service telemetry bytes32 clock) clock base i sys).1

initial-IsSafe_example :
    IsSafe platform memory_store memory_lawful
      (oauth_service telemetry bytes32 clock)
      clock
      base
      (serve_main (to_tokens request) (serve_main (to_clients register) listening))
initial-IsSafe_example =
    initial-IsSafe platform clock base telemetry bytes32 clock
      (serve_main (to_tokens request) (serve_main (to_clients register) listening))
      (then (then fresh (to_clients register)) (to_tokens request))

abbrev start_call : ApiCall
start_call = record call { json_start = ok start_request }

abbrev complete_call : ApiCall
complete_call = record call { json_complete = ok (record { token = "abc" }) }

abbrev request_for : String → ApiRequest
request_for id = record {
  param = λ _. id;
  json_start = ok start_request;
  json_complete = ok (record { token = "abc" });
}

abbrev pub sys : System memory_store
sys = record { oauth = world; certificates = new_memory_store }

sys-IsSafe : IsSafe platform memory_store memory_lawful service clock base sys
sys-IsSafe = record { oauth = IsConsistent-store; certificates = Reachable-IsIndexed here }

serve-IsPermitted_example :
    (lookup "cert-1"
        (serve platform memory_store service clock base
          (to_guarded start (clock 0) start_call)
          sys).1.certificates.certificates
      ≡ lookup "cert-1" sys.certificates.certificates)
    ⊎ IsPermitted platform memory_store memory_lawful service clock base
        (to_guarded start (clock 0) start_call)
        sys
        "cert-1"
serve-IsPermitted_example =
    serve-IsPermitted platform memory_store memory_lawful service clock base
      (to_guarded start (clock 0) start_call) sys "cert-1" sys-IsSafe

abbrev held : System memory_store
held = record {
  oauth = world;
  certificates =
      (start_challenge memory_certificates (clock 0) (request_for "cert-1") new_memory_store).1;
}

held-IsSafe : IsSafe platform memory_store memory_lawful service clock base held
held-IsSafe = record {
  oauth = IsConsistent-store;
  certificates =
      start_challenge-IsIndexed (clock 0) (request_for "cert-1") new_memory_store
        (Reachable-IsIndexed here);
}

pending :
    lookup "cert-1" held.certificates.certificates
    ≡ some (pending_certificate "cert-1" start_request (clock 0))
unfolding lookup insert start_challenge ensure_certificate provision get_certificate
    save_certificate save_challenge
pending = refl

abbrev served_on : System memory_store
served_on =
    (serve platform memory_store service clock base (to_guarded complete (clock 1) complete_call)
      held).1

Served-IsLater_example :
    (d : Certificate) × (lookup "cert-1" served_on.certificates.certificates ≡ some d)
    × IsLater (pending_certificate "cert-1" start_request (clock 0)) d
    × ((pending_certificate "cert-1" start_request (clock 0)).status ≡ "issued"
        → d.status ≡ "issued")
Served-IsLater_example =
    Served-IsLater platform memory_store memory_lawful service clock base held served_on "cert-1"
      (pending_certificate "cert-1" start_request (clock 0)) held-IsSafe pending
      (then fresh (to_guarded complete (clock 1) complete_call))
