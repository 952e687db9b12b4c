-- ===== src/Tests/Runs.antt =====
-- The theorems on runs of requests over a store and over two maps.
use go_oauth_client_credenti.Common.{◌≡◌, List, [], ◌∷◌}
use go_oauth_client_credenti.Oauth2.Store.Abstract.{maps_store}
use go_oauth_client_credenti.Oauth2.Store.Memory.{memory_store}
use go_oauth_client_credenti.Oauth2.Store.Refines.{memory_maps}
use go_oauth_client_credenti.Server.{oauth_service}
use go_oauth_client_credenti.Server.System.{Incoming, to_clients, to_tokens, serve_all, initial}
use go_oauth_client_credenti.Server.System.Runs.{ideal_initial, initial-ideal}
use go_oauth_client_credenti.Tests.Fixtures.{platform, telemetry, bytes32, clock}
use go_oauth_client_credenti.Tests.System.{register}
use go_oauth_client_credenti.Tests.Web.{request}
use go_oauth_client_credenti.Tests.Server.{base}

abbrev arrivals : List Incoming
arrivals = to_clients register ∷ (to_tokens request ∷ [])

initial-ideal_example :
    let svc = oauth_service telemetry bytes32 clock in
    let run =
      serve_all platform memory_store svc clock base arrivals (initial telemetry bytes32 clock) in
    let mapped =
      serve_all platform maps_store svc clock base arrivals
        (ideal_initial telemetry bytes32 clock) in
    (run.0 ≡ mapped.0)
    × (memory_maps run.1.oauth.store ≡ mapped.1.oauth.store)
    × (run.1.certificates ≡ mapped.1.certificates)
initial-ideal_example = initial-ideal platform clock base telemetry bytes32 clock arrivals
