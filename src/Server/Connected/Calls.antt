-- ===== src/Server/Connected/Calls.antt =====
-- From the credentials of a client to a call of the certificate API.
use go_oauth_client_credenti.Common.{
  ◌≡◌, ap, ◌⊎◌, ℕ, suc, String, none, some, List, ◌++◌, arith, length,
}
use go_oauth_client_credenti.Common.Int.{◌+ℤ◌, ◌≤ℤ◌}
use go_oauth_client_credenti.Common.Text.{◌<>◌}
use go_oauth_client_credenti.Oauth2.Encoding.{base64_encode}
use go_oauth_client_credenti.Oauth2.Exec.{Result, ok}
use go_oauth_client_credenti.Oauth2.Types.{Time, TokenResponse}
use go_oauth_client_credenti.Oauth2.Types
use go_oauth_client_credenti.Oauth2.Types.Platform.{Platform}
use go_oauth_client_credenti.Oauth2.Store.{Store}
use go_oauth_client_credenti.Oauth2.Store.Contract.{IsLawful}
use go_oauth_client_credenti.Oauth2.Service.{Service, World, token_entropy_len}
use go_oauth_client_credenti.Oauth2.Service.Random.Reads.{Sums}
use go_oauth_client_credenti.Oauth2.Service.Issue.{issue_token, make_response}
use go_oauth_client_credenti.Oauth2.Service.Issue.Sound.{MayIssue}
use go_oauth_client_credenti.Oauth2.Service.Issue.Complete.{issue_token_complete}
use go_oauth_client_credenti.Oauth2.Service.Lifecycle.Consistent.{IsConsistent}
use go_oauth_client_credenti.Certificate.Store.{MemoryStore}
use go_oauth_client_credenti.Client.{Client}
use go_oauth_client_credenti.Client
use go_oauth_client_credenti.Client.Cache.{cached_token, refresh, get_token}
use go_oauth_client_credenti.Server.{Api, ApiCall, api_request, handle, handled, protected}
use go_oauth_client_credenti.Server.Guarded.{target_uri}
use go_oauth_client_credenti.Server.Served.{protected-issue_token}
use go_oauth_client_credenti.Server.Connected.{Wire, IsFaithful, connected}
use go_oauth_client_credenti.Server.Connected.Tokens.{asked, IsAimed, fetch_token-issue_token}

module _ (W : Wire) (faithful : IsFaithful W) (p : Platform) (sums : Sums p) (S : Store)
    (L : IsLawful S) (svc : Service) (wall : ℕ → Time) (c : Client) (aimed : IsAimed W c) where
  -- `GetToken` of a client whose cache has no token gives the one that the server issues.
  pub get_token-issue_token :
      (resource_uri : String) (w : Client.World (World S)) (resp : TokenResponse)
      → cached_token c (c.now_func w.ticks) resource_uri w.tokens ≡ none
      → (issue_token p S svc (some (asked c resource_uri)) w.net).0 ≡ ok resp
      → let got = get_token (connected W p S svc wall) c resource_uri w in
        (got.0 ≡ ok resp.access_token)
        × (got.1.net ≡ (issue_token p S svc (some (asked c resource_uri)) w.net).1)
  unfolding get_token refresh
  get_token-issue_token resource_uri w resp missed issued =
      let fetched =
        fetch_token-issue_token W faithful p S svc wall c aimed resource_uri
          (record w { ticks = suc w.ticks }) in
      (
        ground (arith, missed, fetched.1 resp issued),
        ground (arith, missed, fetched.0, fetched.1 resp issued),
      )

  -- Over a faithful wire, from a server whose maps are consistent and whose random reader has 32
  -- bytes left, a client that is aimed at the server, has the credentials of a registered client
  -- that may ask for a resource, and has no token for it in its cache, gets a token. A call of the
  -- certificate API with this token is handled at once, if the resource is empty or the URI of the
  -- certificate and the token has not expired meanwhile.
  pub get_token-protected :
      (base resource_uri : String) (w : Client.World (World S)) (client : Types.Client)
      (bytes left : List ℕ)
      → IsConsistent (L.maps w.net.store)
      → cached_token c (c.now_func w.ticks) resource_uri w.tokens ≡ none
      → MayIssue p (L.maps w.net.store) (asked c resource_uri) client
      → length bytes ≡ token_entropy_len
      → w.net.rand_reader ≡ bytes ++ left
      → let got = get_token (connected W p S svc wall) c resource_uri w in
        let token = "opq_" <> base64_encode bytes in
        (got.0 ≡ ok token)
        × ((api : Api) (now : Time) (call : ApiCall) (s : MemoryStore)
            → svc.now_func got.1.net.ticks ≤ℤ svc.now_func (suc w.net.ticks) +ℤ svc.token_ttl
            → call.context.request.authorization ≡ "Bearer " <> token
            → (resource_uri ≡ "") ⊎ (resource_uri ≡ target_uri base call.context)
            → let out = protected p S svc base api now call got.1.net s in
              let run = handle api now (api_request call) s in
              (out.0 ≡ handled run.0) × (out.2 ≡ run.1))
  get_token-protected base resource_uri w client bytes left inv missed may enough drawn =
      let resp = make_response p S svc (asked c resource_uri) ("opq_" <> base64_encode bytes) in
      let w' = (issue_token p S svc (some (asked c resource_uri)) w.net).1 in
      let issued =
        issue_token_complete p sums S L svc (asked c resource_uri) client bytes left w.net may
          enough drawn in
      let (got, left_as) = get_token-issue_token resource_uri w resp missed issued in
      (
        got,
        λ api now call s young header bound.
            protected-issue_token p S L svc base (asked c resource_uri) w.net w'
              (get_token (connected W p S svc wall) c resource_uri w).1.net resp api now call s inv
              (ap (λ (r : Result TokenResponse). (r, w')) issued)
              (ap (λ (u : World S). L.maps u.store) left_as) young header bound,
      )
