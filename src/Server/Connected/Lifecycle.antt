-- ===== src/Server/Connected/Lifecycle.antt =====
-- The life of a client at a connected server: its registration by another client, its first token, a
-- call of the certificate API, and the revocation of the token.
use go_oauth_client_credenti.Common.{
  ◌≡◌, refl, ap, ◌∙◌, ◌⊎◌, inr, ℕ, suc, String, none, some, List, ◌++◌, length,
}
use go_oauth_client_credenti.Common.Int.{◌+ℤ◌, ◌≤ℤ◌}
use go_oauth_client_credenti.Common.Text.{◌<>◌, fields}
use go_oauth_client_credenti.Oauth2.Encoding.{base64_encode}
use go_oauth_client_credenti.Oauth2.Error.{sentinel, token_revoked}
use go_oauth_client_credenti.Oauth2.Exec.{Result, ok, err}
use go_oauth_client_credenti.Oauth2.Types.{
  Time, Token, TokenResponse, RegisterClientRequest, RegisterClientResponse,
}
use go_oauth_client_credenti.Oauth2.Types
use go_oauth_client_credenti.Oauth2.Types.Platform.{Platform}
use go_oauth_client_credenti.Oauth2.Store.{Store}
use go_oauth_client_credenti.Oauth2.Store.Contract.{IsLawful, Maps}
use go_oauth_client_credenti.Oauth2.Service.{Service, World, token_entropy_len}
use go_oauth_client_credenti.Oauth2.Service.Random.{compute_token_hash}
use go_oauth_client_credenti.Oauth2.Service.Random.Reads.{Sums}
use go_oauth_client_credenti.Oauth2.Service.Register.{register_client}
use go_oauth_client_credenti.Oauth2.Service.Issue.{check_resource, issue_token, make_response}
use go_oauth_client_credenti.Oauth2.Service.Issue.Checks.{MayTarget, MayScope}
use go_oauth_client_credenti.Oauth2.Service.Issue.Sound.{MayIssue}
use go_oauth_client_credenti.Oauth2.Service.Issue.Complete.{issue_token_complete}
use go_oauth_client_credenti.Oauth2.Service.Lifecycle.Consistent.{IsConsistent}
use go_oauth_client_credenti.Oauth2.Service.Lifecycle.Reachable.{register_client-IsConsistent}
use go_oauth_client_credenti.Oauth2.Service.Lifecycle.RoundTrip.{
  Bcrypt, register_client-MayIssue, issue_token-token_at, opq-ne-nil,
}
use go_oauth_client_credenti.Oauth2.Service.Validate.{validate_token}
use go_oauth_client_credenti.Certificate.Store.{MemoryStore}
use go_oauth_client_credenti.Client.{Client}
use go_oauth_client_credenti.Client
use go_oauth_client_credenti.Client.Cache.{cached_token, get_token}
use go_oauth_client_credenti.Client.Requests
use go_oauth_client_credenti.Client.Requests.{revoke}
use go_oauth_client_credenti.Server.{Api, ApiCall, api_request, handle, handled, protected}
use go_oauth_client_credenti.Server.Guarded.{target_uri}
use go_oauth_client_credenti.Server.Connected.{Wire, IsFaithful, IsWritable, connected}
use go_oauth_client_credenti.Server.Connected.Tokens.{asked, IsAimed}
use go_oauth_client_credenti.Server.Connected.Registered.{register_client-register_client}
use go_oauth_client_credenti.Server.Connected.Calls.{get_token-issue_token, get_token-protected}
use go_oauth_client_credenti.Server.Connected.Revoked.{revoke-validate_token}

module _ (W : Wire) (faithful : IsFaithful W) (p : Platform) (sums : Sums p) (bcrypt : Bcrypt p)
    (S : Store) (L : IsLawful S) (svc : Service) (wall : ℕ → Time) (admin c : Client)
    (aimed : IsAimed W admin) (aimed_c : IsAimed W c) where
  asks_none : (reg : RegisterClientRequest) → MayScope reg.allowed_scopes ""
  unfolding fields
  asks_none reg = inr tt

  -- A token that the client got is refused once the client revoked it.
  get_token-revoke :
      (resource_uri : String) (v u : Client.World (World S)) (client : Types.Client)
      (bytes left : List ℕ)
      → cached_token c (c.now_func v.ticks) resource_uri v.tokens ≡ none
      → MayIssue p (L.maps v.net.store) (asked c resource_uri) client
      → length bytes ≡ token_entropy_len
      → v.net.rand_reader ≡ bytes ++ left
      → let N = connected W p S svc wall in
        let token = "opq_" <> base64_encode bytes in
        L.maps u.net.store ≡ L.maps (get_token N c resource_uri v).1.net.store
        → let out = revoke N c token u in
          (out.0 ≡ ok tt)
          × ((validate_token p S svc token out.1.net).0 ≡ err (sentinel token_revoked))
  get_token-revoke resource_uri v u client bytes left missed may enough drawn held =
      let token = "opq_" <> base64_encode bytes in
      let resp = make_response p S svc (asked c resource_uri) token in
      let w' = (issue_token p S svc (some (asked c resource_uri)) v.net).1 in
      let issued =
        issue_token_complete p sums S L svc (asked c resource_uri) client bytes left v.net may
          enough drawn in
      let (_, left_as) =
        get_token-issue_token W faithful p sums S L svc wall c aimed_c resource_uri v resp missed
          issued in
      let (t, stored) =
        issue_token-token_at p S L svc (asked c resource_uri) v.net w' resp
          (ap (λ (r : Result TokenResponse). (r, w')) issued) in
      let (done, _, refused) =
        revoke-validate_token W faithful p S L svc wall c aimed_c token u
          (opq-ne-nil (base64_encode bytes)) in
      (
        done,
        refused t (
            ap (λ (m : Maps). m.token_at (compute_token_hash p token))
              (held ∙ ap (λ (x : World S). L.maps x.store) left_as)
            ∙ stored),
      )

  -- Let bcrypt match the hashes that it makes, and a SHA-256 have 32 bytes. Two clients are aimed at a
  -- server with consistent maps, over a faithful wire. If the service
  -- registers a client for the request of the first, with a time of registration that can be
  -- written, the first one gets its credentials. If the second one has these credentials, asks the
  -- server, as it was left, for a token of a resource that is empty or passes ValidateAbsoluteURI and
  -- that the registration allows, with nothing for it in its cache and 32 bytes left to the random
  -- reader, it gets a token. A call of the
  -- certificate API with this token is handled at once, if the resource is empty or the URI of the
  -- certificate and the token has not expired. The second one can revoke it, whenever the server
  -- still holds what it held; then the server refuses it as revoked.
  pub register_client-revoke :
      (base resource_uri : String) (reg : RegisterClientRequest) (w v : Client.World (World S))
      (resp : RegisterClientResponse) (bytes left : List ℕ)
      → IsConsistent (L.maps w.net.store)
      → (register_client p S svc (some reg) w.net).0 ≡ ok resp
      → IsWritable resp.created_at
      → c.config.client_id ≡ resp.client_id
      → c.config.client_secret ≡ resp.client_secret
      → check_resource p resource_uri ≡ ok tt
      → MayTarget reg.allowed_resources resource_uri
      → let N = connected W p S svc wall in
        let registered = Requests.register_client N admin (some reg) w in
        v.net ≡ registered.1.net
        → cached_token c (c.now_func v.ticks) resource_uri v.tokens ≡ none
        → length bytes ≡ token_entropy_len
        → v.net.rand_reader ≡ bytes ++ left
        → let got = get_token N c resource_uri v in
          let token = "opq_" <> base64_encode bytes in
          (registered.0 ≡ ok resp)
          × (got.0 ≡ ok token)
          × ((api : Api) (now : Time) (call : ApiCall) (s : MemoryStore)
              → svc.now_func got.1.net.ticks ≤ℤ svc.now_func (suc v.net.ticks) +ℤ svc.token_ttl
              → call.context.request.authorization ≡ "Bearer " <> token
              → (resource_uri ≡ "") ⊎ (resource_uri ≡ target_uri base call.context)
              → let out = protected p S svc base api now call got.1.net s in
                let run = handle api now (api_request call) s in
                (out.0 ≡ handled run.0) × (out.2 ≡ run.1))
          × ((u : Client.World (World S))
              → L.maps u.net.store ≡ L.maps got.1.net.store
              → let out = revoke N c token u in
                (out.0 ≡ ok tt)
                × ((validate_token p S svc token out.1.net).0 ≡ err (sentinel token_revoked)))
  register_client-revoke base resource_uri reg w v resp bytes left inv done writable id secret
        target allowed here missed enough drawn =
      let (left_as, given, _) =
        register_client-register_client W faithful p S svc wall admin aimed reg w in
      let w' = (register_client p S svc (some reg) w.net).1 in
      let at : v.net ≡ w' = here ∙ ap (λ (x : Client.World (World S)). x.net) left_as in
      let same : L.maps v.net.store ≡ L.maps w'.store = ap (λ (x : World S). L.maps x.store) at in
      let inv' : IsConsistent (L.maps v.net.store) =
        rw same (register_client-IsConsistent p S L svc wall (some reg) w.net inv) in
      let (client, may) =
        register_client-MayIssue p S L svc bcrypt reg w.net w' v.net resp (asked c resource_uri)
          (ap (λ (r : Result RegisterClientResponse). (r, w')) done) same refl id secret target
          allowed (asks_none reg) in
      let (got, called) =
        get_token-protected W faithful p sums S L svc wall c aimed_c base resource_uri v client
          bytes left inv' missed may enough drawn in
      (
        given resp done writable,
        got,
        called,
        λ u held. get_token-revoke resource_uri v u client bytes left missed may enough drawn held,
      )
