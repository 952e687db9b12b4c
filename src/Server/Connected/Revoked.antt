-- ===== src/Server/Connected/Revoked.antt =====
-- What a revocation by the client leaves at both ends.
use go_oauth_client_credenti.Common.{
  ◌≡◌, refl, ap, ◌≢◌, ℕ, String, Option, some, [], ◌∷◌, arith, eq_iff,
}
use go_oauth_client_credenti.Common.Dict.{lookup}
use go_oauth_client_credenti.Oauth2.Error.{sentinel, token_revoked}
use go_oauth_client_credenti.Oauth2.Exec.{ok, err}
use go_oauth_client_credenti.Oauth2.Types.{Time, Token}
use go_oauth_client_credenti.Oauth2.Types.Platform.{Platform}
use go_oauth_client_credenti.Oauth2.Store.{Store}
use go_oauth_client_credenti.Oauth2.Store.Contract.{IsLawful}
use go_oauth_client_credenti.Oauth2.Service.{Service, World}
use go_oauth_client_credenti.Oauth2.Service.Random.{compute_token_hash}
use go_oauth_client_credenti.Oauth2.Service.Validate.{validate_token, revoke_token}
use go_oauth_client_credenti.Oauth2.Service.Validate.Revoked.{
  revoke_token-maps, validate_token-revoke_token,
}
use go_oauth_client_credenti.Oauth2.Http.{nothing}
use go_oauth_client_credenti.Oauth2.Handlers.{answer, revoke_handler}
use go_oauth_client_credenti.Client.{Client, CachedToken}
use go_oauth_client_credenti.Client
use go_oauth_client_credenti.Client.Network.{HttpRequest, RequestUrl}
use go_oauth_client_credenti.Client.Requests.{post_form, revoke}
use go_oauth_client_credenti.Client.Cache.Fetches.{revoke-tokens}
use go_oauth_client_credenti.Server.System.{revocation, register_routes}
use go_oauth_client_credenti.Server.Connected.{
  Wire, IsFaithful, endpoint_of, deliver, send, connected,
}
use go_oauth_client_credenti.Server.Connected.Posted.{extract_token_param-posted}
use go_oauth_client_credenti.Server.Connected.Tokens.{to_revoke, IsAimed, send-deliver, posted}

revocation-route : endpoint_of "POST" "/oauth/revoke" (register_routes "/oauth") ≡ some revocation
unfolding endpoint_of register_routes
revocation-route = refl

module _ (W : Wire) (faithful : IsFaithful W) (p : Platform) (S : Store) (L : IsLawful S)
    (svc : Service) (wall : ℕ → Time) (c : Client) (aimed : IsAimed W c) where
  -- The request that `Revoke` sends.
  abbrev revoking : String → Option RequestUrl → HttpRequest
  revoking token url =
      posted W faithful p S svc wall c aimed "/oauth/revoke" (("token", token) ∷ []) url

  send-revoking :
      (token : String) (url : Option RequestUrl) (w : World S)
      → token ≢ ""
      → send W p S svc wall (revoking token url) w
        ≡ (ok (W.empty (answer 200 nothing)), (revoke_token p S svc wall token w).1)
  unfolding deliver revoke_handler
  send-revoking token url w given = ground (
    arith,
    send-deliver W p S svc wall "/oauth/revoke" revocation (revoking token url) w revocation-route
        refl (aimed.path "/oauth/revoke" to_revoke),
    extract_token_param-posted W faithful p S svc wall c aimed "/oauth/revoke" token url given,
    eq_iff token "",
    (revoke_token-maps p S L svc wall token w).0,
  )

  revoke-revoke_token :
      (token : String) (w : Client.World (World S))
      → token ≢ ""
      → let out = revoke (connected W p S svc wall) c token w in
        (out.0 ≡ ok tt) × (out.1.net ≡ (revoke_token p S svc wall token w.net).1)
  unfolding revoke post_form
  revoke-revoke_token token w given =
      let (url, made) = aimed.url "/oauth/revoke" to_revoke in
      let sent = send-revoking token url w.net given in
      let status = faithful.empty_status (answer 200 nothing) in
      (ground (arith, made, sent, status), ground (arith, made, sent, status))

  -- When a client that is aimed at the server revokes a token that is not empty over a faithful
  -- wire, it succeeds, its cache gives the token for no resource, and the server, if it holds the
  -- token, refuses it as revoked.
  pub revoke-validate_token :
      (token : String) (w : Client.World (World S))
      → token ≢ ""
      → let out = revoke (connected W p S svc wall) c token w in
        (out.0 ≡ ok tt)
        × ((j : String) (e : CachedToken) → lookup j out.1.tokens ≡ some e → e.access_token ≢ token)
        × ((t : Token)
            → (L.maps w.net.store).token_at (compute_token_hash p token) ≡ some t
            → (validate_token p S svc token out.1.net).0 ≡ err (sentinel token_revoked))
  revoke-validate_token token w given =
      let (done, left) = revoke-revoke_token token w given in
      (
        done,
        ((revoke-tokens (connected W p S svc wall) c token w).0 done).0,
        λ t stored.
            validate_token-revoke_token p S L svc wall token t w.net
              (revoke (connected W p S svc wall) c token w).1.net given stored
              (ap (λ (u : World S). L.maps u.store) left),
      )
