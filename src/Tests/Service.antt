-- ===== src/Tests/Service.antt =====
-- The theorems on the service.
use mathlib.Core.List.{Memᴰ}
use go_oauth_client_credenti.Common.{◌≡◌, refl, ◌↔◌, inr, String, some, ◌++◌}
use go_oauth_client_credenti.Common.Text.{◌<>◌, fields}
use go_oauth_client_credenti.Common.Dict.{lookup, insert}
use go_oauth_client_credenti.Oauth2.Encoding.{hex_encode, base64_encode}
use go_oauth_client_credenti.Oauth2.Exec.{ok}
use go_oauth_client_credenti.Oauth2.Types.{Client, TokenResponse}
use go_oauth_client_credenti.Oauth2.Types.Uri.{validate_absolute_uri}
use go_oauth_client_credenti.Oauth2.Store.Memory.{memory_store, get_client, save_token}
use go_oauth_client_credenti.Oauth2.Store.Refines.{memory_maps, memory_lawful}
use go_oauth_client_credenti.Oauth2.Telemetry.{record_token_request}
use go_oauth_client_credenti.Oauth2.Service.{World}
use go_oauth_client_credenti.Oauth2.Service.Random.{
  compute_token_hash, read_bytes, read_full, generate_random_base64,
}
use go_oauth_client_credenti.Oauth2.Service.Issue.{
  contains_string, check_resource, resource_allowed, scopes_contained, scope_allowed, make_response,
  store_token, mint, authorize, issue_checked, issue_token,
}
use go_oauth_client_credenti.Oauth2.Service.Issue.Sound.{MayIssue, IsIssued, issue_token_sound}
use go_oauth_client_credenti.Oauth2.Service.Issue.Complete.{issue_token_complete}
use go_oauth_client_credenti.Oauth2.Service.Validate.{validate_token}
use go_oauth_client_credenti.Oauth2.Service.Validate.Live.{IsLive, validate_token_iff}
use go_oauth_client_credenti.Tests.Fixtures.{
  platform, platform-Sums, service, world, store, token_request, acme_client, live_token, bytes32,
  eight, clock, certificate_uri, differ,
}

abbrev pub opaque_token : String
opaque_token = "opq_" <> base64_encode (eight 255 ++ eight 254 ++ eight 1 ++ eight 2)

abbrev pub granted : TokenResponse
granted = make_response platform memory_store service token_request opaque_token

abbrev pub issued_world : World memory_store
issued_world = (issue_token platform memory_store service (some token_request) world).1

pub issued :
    issue_token platform memory_store service (some token_request) world
    ≡ (ok granted, issued_world)
unfolding issue_token issue_checked authorize mint store_token check_resource validate_absolute_uri
    get_client save_token lookup insert resource_allowed contains_string scope_allowed
    scopes_contained fields generate_random_base64 read_full read_bytes record_token_request
    compute_token_hash hex_encode base64_encode
issued = refl

issue_token-sound_example :
    (client : Client) × MayIssue platform (memory_maps store) token_request client
    × IsIssued platform memory_store memory_lawful service token_request client world issued_world
        (clock 1)
        granted
issue_token-sound_example =
    issue_token_sound platform memory_store memory_lawful service token_request world issued_world
      granted issued

MayIssue-example : MayIssue platform (memory_maps store) token_request acme_client
unfolding check_resource validate_absolute_uri lookup fields
MayIssue-example = record {
  grant = refl;
  target = refl;
  registered = refl;
  secret = refl;
  resource = inr (differ certificate_uri "" refl, Memᴰ.head refl);
  scope = inr (Memᴰ.tail (Memᴰ.head refl), (Memᴰ.head refl, tt));
}

issue_token-complete_example :
    (issue_token platform memory_store service (some token_request) world).0 ≡ ok granted
issue_token-complete_example =
    issue_token_complete platform platform-Sums memory_store memory_lawful service token_request
      acme_client (eight 255 ++ eight 254 ++ eight 1 ++ eight 2) (eight 3 ++ eight 4 ++ bytes32)
      world MayIssue-example refl refl

validate_token_iff_example :
    ((validate_token platform memory_store service "opq_Zm9v" world).0 ≡ ok live_token)
    ↔ IsLive platform (memory_maps store) "opq_Zm9v" (clock 0) live_token
validate_token_iff_example =
    validate_token_iff platform memory_store memory_lawful service "opq_Zm9v" world live_token
