-- ===== src/Oauth2/Service/Lifecycle/RoundTrip.antt =====
-- What one call establishes for a later one.
use go_oauth_client_credenti.Common.{
  ◌≡◌, refl, sym, ap, ◌≢◌, ◌∙◌, ℕ, suc, String, true, false, some, Option, List, arith, ◌==◌,
  eq_iff, eq_refl, length, ◌++◌,
}
use text.Mathlib.TextLemmas.{cons-ne-nil, cons-append}
use go_oauth_client_credenti.Common.Int.{ℤ, ◌+ℤ◌, ◌≤ℤ◌, ◌<ℤ◌}
use go_oauth_client_credenti.Common.Text.{◌<>◌}
use go_oauth_client_credenti.Oauth2.Error.{sentinel, token_expired}
use go_oauth_client_credenti.Oauth2.Exec.{ok, err}
use go_oauth_client_credenti.Oauth2.Encoding.{base64_encode}
use go_oauth_client_credenti.Oauth2.Types.{
  Client, Token, TokenRequest, TokenResponse, RegisterClientRequest, RegisterClientResponse,
}
use go_oauth_client_credenti.Oauth2.Types.Platform.{Platform}
use go_oauth_client_credenti.Oauth2.Store.{Store}
use go_oauth_client_credenti.Oauth2.Store.Contract.{Maps, IsLawful}
use go_oauth_client_credenti.Oauth2.Service.{Service, World, token_entropy_len}
use go_oauth_client_credenti.Oauth2.Service.Random.{compute_token_hash}
use go_oauth_client_credenti.Oauth2.Service.Random.Reads.{Sums}
use go_oauth_client_credenti.Oauth2.Service.Issue.{
  check_resource, make_token, make_response, issue_token,
}
use go_oauth_client_credenti.Oauth2.Service.Issue.Checks.{MayTarget, MayScope}
use go_oauth_client_credenti.Oauth2.Service.Issue.Sound.{MayIssue, issue_token_sound}
use go_oauth_client_credenti.Oauth2.Service.Issue.Complete.{issue_token_complete}
use go_oauth_client_credenti.Oauth2.Service.Register.{make_client, register_client}
use go_oauth_client_credenti.Oauth2.Service.Register.Sound.{register_client_sound}
use go_oauth_client_credenti.Oauth2.Service.Validate.{judge, validate_token}
use go_oauth_client_credenti.Oauth2.Service.Lifecycle.Consistent.{IsConsistent}

-- The prefix makes a token that is not empty.
pub opq-ne-nil : (raw : String) → ("opq_" <> raw) ≢ ""
opq-ne-nil raw e = cons-ne-nil "o" ("pq_" <> raw) (sym (cons-append "o" "pq_" raw) ∙ e)

module _ (p : Platform) (S : Store) (L : IsLawful S) (svc : Service) where
  -- A token that was issued while the maps were consistent is accepted, with the client, the resource
  -- and the scope of its request, until the time to live has passed, and is refused as expired after
  -- that; this holds as long as the store holds what the issue left.
  pub validate_token-issue_token :
      (req : TokenRequest) (w w' u : World S) (resp : TokenResponse)
      → IsConsistent (L.maps w.store)
      → issue_token p S svc (some req) w ≡ (ok resp, w')
      → L.maps u.store ≡ L.maps w'.store
      → let expiry = svc.now_func (suc w.ticks) +ℤ svc.token_ttl in
        (svc.now_func u.ticks ≤ℤ expiry
          → (t : Token) × ((validate_token p S svc resp.access_token u).0 ≡ ok t)
            × (t.client_id ≡ req.client_id)
            × (t.resource ≡ req.resource)
            × (t.scope ≡ req.scope)
            × (t.expires_at ≡ expiry))
        × (expiry <ℤ svc.now_func u.ticks
            → (validate_token p S svc resp.access_token u).0 ≡ err (sentinel token_expired))
  unfolding validate_token judge
  validate_token-issue_token req w w' u resp inv issued same =
      let (client, may, (bytes, drawn, stored, e)) =
        issue_token_sound p S L svc req w w' resp issued in
      let raw = base64_encode bytes in
      let opaque_token = "opq_" <> raw in
      let h = compute_token_hash p opaque_token in
      let t : Token = make_token p S svc client req opaque_token (svc.now_func (suc w.ticks)) in
      let found : (L.maps u.store).token_at h ≡ some t =
        ap (λ (m : Maps). m.token_at h) same
        ∙ ap (λ (f : String → Option Token). f h) stored.tokens
        ∙ rw eq_refl in
      let given : (opaque_token == "") ≡ false =
        ground (arith, eq_iff opaque_token "", opq-ne-nil raw) in
      rw e (
        λ young. (
          t,
          ground (arith, given, found, L.get_token-maps h u.store),
          inv.client_key req.client_id client may.registered,
          refl,
          refl,
          refl,
        ),
        λ old. ground (arith, given, found, L.get_token-maps h u.store),
      )

  -- A token that was issued stands in the store.
  pub issue_token-token_at :
      (req : TokenRequest) (w w' : World S) (resp : TokenResponse)
      → issue_token p S svc (some req) w ≡ (ok resp, w')
      → (t : Token) × ((L.maps w'.store).token_at (compute_token_hash p resp.access_token) ≡ some t)
  issue_token-token_at req w w' resp issued =
      let (client, may, (bytes, drawn, stored, e)) =
        issue_token_sound p S L svc req w w' resp issued in
      let opaque_token = "opq_" <> base64_encode bytes in
      let t : Token = make_token p S svc client req opaque_token (svc.now_func (suc w.ticks)) in
      rw e (
        t,
        ap (λ (f : String → Option Token). f (compute_token_hash p opaque_token)) stored.tokens
            ∙ rw eq_refl,
      )

-- A password matches the hash that `bcrypt.GenerateFromPassword` made of it.
abbrev pub Bcrypt : Platform → Type 0
Bcrypt p =
    (salt : ℕ) (password : String) (cost : ℤ) (hash : String)
    → p.bcrypt_generate salt password cost ≡ ok hash
    → p.bcrypt_matches hash password ≡ true

module _ (p : Platform) (S : Store) (L : IsLawful S) (svc : Service) (bcrypt : Bcrypt p) where
  -- A request with the credentials that a registration returns, for a resource and a scope that it
  -- allows, may be granted while the store holds what the registration left.
  pub register_client-MayIssue :
      (reg : RegisterClientRequest) (w w' u : World S) (registered : RegisterClientResponse)
      (req : TokenRequest)
      → register_client p S svc (some reg) w ≡ (ok registered, w')
      → L.maps u.store ≡ L.maps w'.store
      → req.grant_type ≡ "client_credentials"
      → req.client_id ≡ registered.client_id
      → req.client_secret ≡ registered.client_secret
      → check_resource p req.resource ≡ ok tt
      → MayTarget reg.allowed_resources req.resource
      → MayScope reg.allowed_scopes req.scope
      → (client : Client) × MayIssue p (L.maps u.store) req client
  register_client-MayIssue reg w w' u registered req done same grant id secret target resource
        scope =
      let a = (register_client_sound p S L svc reg w w' registered done).2 in
      let client : Client = make_client p S svc reg registered.client_id a.hash a.now in
      let found : (L.maps u.store).client_at req.client_id ≡ some client = rw id (
        ap (λ (m : Maps). m.client_at registered.client_id) same
        ∙ ap (λ (f : String → Option Client). f registered.client_id) a.clients
        ∙ rw eq_refl) in
      (
        client,
        record {
          grant = grant;
          target = target;
          registered = found;
          secret =
              rw secret (bcrypt a.salt registered.client_secret svc.bcrypt_cost a.hash a.hashed);
          resource = resource;
          scope = scope;
        },
      )

module _ (p : Platform) (sums : Sums p) (S : Store) (L : IsLawful S) (svc : Service) where
  -- The credentials that a registration returns are good for a token: any request that carries
  -- them, for a resource and a scope that the registration allows, is granted while the store holds
  -- what the registration left and the random reader has 32 bytes.
  pub issue_token-register_client :
      Bcrypt p
      → (reg : RegisterClientRequest) (w w' u : World S) (registered : RegisterClientResponse)
        (req : TokenRequest) (bytes left : List ℕ)
      → register_client p S svc (some reg) w ≡ (ok registered, w')
      → L.maps u.store ≡ L.maps w'.store
      → req.grant_type ≡ "client_credentials"
      → req.client_id ≡ registered.client_id
      → req.client_secret ≡ registered.client_secret
      → check_resource p req.resource ≡ ok tt
      → MayTarget reg.allowed_resources req.resource
      → MayScope reg.allowed_scopes req.scope
      → length bytes ≡ token_entropy_len
      → u.rand_reader ≡ bytes ++ left
      → (issue_token p S svc (some req) u).0
        ≡ ok (make_response p S svc req ("opq_" <> base64_encode bytes))
  issue_token-register_client bcrypt reg w w' u registered req bytes left done same grant id secret
        target resource scope enough e =
      let (client, may) =
        register_client-MayIssue p S L svc bcrypt reg w w' u registered req done same grant id
          secret target resource scope in
      issue_token_complete p sums S L svc req client bytes left u may enough e
