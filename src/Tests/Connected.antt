-- ===== src/Tests/Connected.antt =====
-- The theorems on the client of a connected server.
use mathlib.Core.List.{Memᴰ}
use go_oauth_client_credenti.Common.{◌≡◌, refl, ◌≢◌, ◌⊎◌, inr, String, false, none, some, [], ◌++◌}
use go_oauth_client_credenti.Common.Int.{pos, ◌+ℤ◌, ◌≤ℤ◌}
use go_oauth_client_credenti.Common.Text.{◌<>◌, contains, fields, trim_right_slash, trim_right}
use go_oauth_client_credenti.Common.Dict.{lookup}
use go_oauth_client_credenti.Oauth2.Error.{Error, foreign, sentinel, token_revoked}
use go_oauth_client_credenti.Oauth2.Exec.{ok, err}
use go_oauth_client_credenti.Oauth2.Encoding.{base64_encode}
use go_oauth_client_credenti.Oauth2.Types.{Time, Token, TokenResponse}
use go_oauth_client_credenti.Oauth2.Types.Uri.{validate_absolute_uri}
use go_oauth_client_credenti.Oauth2.Store.Memory.{memory_store}
use go_oauth_client_credenti.Oauth2.Store.Refines.{memory_maps, memory_lawful}
use go_oauth_client_credenti.Oauth2.Service.{World}
use go_oauth_client_credenti.Oauth2.Service.Random.{compute_token_hash}
use go_oauth_client_credenti.Oauth2.Service.Issue.{check_resource, issue_token}
use go_oauth_client_credenti.Oauth2.Service.Issue.Sound.{MayIssue}
use go_oauth_client_credenti.Oauth2.Service.Validate.{validate_token}
use go_oauth_client_credenti.Oauth2.Handlers.{token_error}
use go_oauth_client_credenti.Certificate.Store.{MemoryStore}
use go_oauth_client_credenti.Client.{Client, CachedToken}
use go_oauth_client_credenti.Client
use go_oauth_client_credenti.Client.Network.{Network}
use go_oauth_client_credenti.Client.Requests.{fetch_token, revoke}
use go_oauth_client_credenti.Client.Cache.{cached_token, get_token}
use go_oauth_client_credenti.Server.{Api, ApiCall, api_request, handle, handled, protected}
use go_oauth_client_credenti.Server.Guarded.{target_uri}
use go_oauth_client_credenti.Server.Connected.{connected}
use go_oauth_client_credenti.Server.Connected.Tokens.{asked, IsAimed, fetch_token-issue_token}
use go_oauth_client_credenti.Server.Connected.Calls.{get_token-protected}
use go_oauth_client_credenti.Server.Connected.Revoked.{revoke-validate_token}
use go_oauth_client_credenti.Tests.Fixtures.{
  platform, platform-Sums, service, world, store, acme_client, clock, certificate_uri, eight,
  bytes32, differ,
}
use go_oauth_client_credenti.Tests.Lifecycle.{IsConsistent-store}
use go_oauth_client_credenti.Tests.Client.{client}
use go_oauth_client_credenti.Tests.Server.{base}
use go_oauth_client_credenti.Tests.Wire.{server, wire, wire-path, wire-IsFaithful}

abbrev pub net : Network
net = connected wire platform memory_store service clock

abbrev pub start : Client.World (World memory_store)
start = record { tokens = []; net = world; ticks = 0 }

slashed : trim_right_slash "https://auth.example.com/" ≡ server
unfolding trim_right_slash trim_right
slashed = refl

plain : contains "client-1" ":" ≡ false
unfolding contains
plain = refl

pub client-IsAimed : IsAimed wire client
client-IsAimed = record {
  path = λ path _. rw slashed (wire-path path);
  url = λ path _. (none, refl);
  client_id = plain;
}

fetch_token-issue_token_example :
    let out =
      issue_token platform memory_store service (some (asked client certificate_uri)) world in
    let got = fetch_token net client certificate_uri start in
    (got.1.net ≡ out.1)
    × ((resp : TokenResponse) → out.0 ≡ ok resp → got.0 ≡ ok resp)
    × ((e : Error)
        → out.0 ≡ err e
        → let answer = wire.token (token_error e) in
          got.0
          ≡ err (
              foreign (
                "token request"
                <> " failed with status "
                <> wire.decimal answer.status_code
                <> ": "
                <> answer.body)))
fetch_token-issue_token_example =
    fetch_token-issue_token wire wire-IsFaithful platform memory_store service clock client
      client-IsAimed certificate_uri start

MayIssue-asked : MayIssue platform (memory_maps store) (asked client certificate_uri) acme_client
unfolding check_resource validate_absolute_uri lookup fields
MayIssue-asked = record {
  grant = refl;
  target = refl;
  registered = refl;
  secret = refl;
  resource = inr (differ certificate_uri "" refl, Memᴰ.head refl);
  scope = inr tt;
}

missed : cached_token client (clock 0) certificate_uri [] ≡ none
unfolding cached_token lookup
missed = refl

get_token-protected_example :
    let got = get_token net client certificate_uri start in
    let token = "opq_" <> base64_encode (eight 255 ++ eight 254 ++ eight 1 ++ eight 2) in
    (got.0 ≡ ok token)
    × ((api : Api) (now : Time) (call : ApiCall) (s : MemoryStore)
        → clock got.1.net.ticks ≤ℤ clock 1 +ℤ pos 3600000000000
        → call.context.request.authorization ≡ "Bearer " <> token
        → (certificate_uri ≡ "") ⊎ (certificate_uri ≡ target_uri base call.context)
        → let out = protected platform memory_store service base api now call got.1.net s in
          let run = handle api now (api_request call) s in
          (out.0 ≡ handled run.0) × (out.2 ≡ run.1))
get_token-protected_example =
    get_token-protected wire wire-IsFaithful platform platform-Sums memory_store memory_lawful
      service clock client client-IsAimed base certificate_uri start acme_client
      (eight 255 ++ eight 254 ++ eight 1 ++ eight 2) (eight 3 ++ eight 4 ++ bytes32)
      IsConsistent-store missed MayIssue-asked refl refl

revoke-validate_token_example :
    let out = revoke net client "opq_Zm9v" start in
    (out.0 ≡ ok tt)
    × ((j : String) (e : CachedToken)
        → lookup j out.1.tokens ≡ some e
        → e.access_token ≢ "opq_Zm9v")
    × ((t : Token)
        → (memory_maps store).token_at (compute_token_hash platform "opq_Zm9v") ≡ some t
        → (validate_token platform memory_store service "opq_Zm9v" out.1.net).0
          ≡ err (sentinel token_revoked))
revoke-validate_token_example =
    revoke-validate_token wire wire-IsFaithful platform memory_store memory_lawful service clock
      client client-IsAimed "opq_Zm9v" start (differ "opq_Zm9v" "" refl)
