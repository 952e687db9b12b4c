-- ===== src/Oauth2/Service/Issue/Sound.antt =====
-- What a successful `IssueToken` has tested, and what it has written.
use go_oauth_client_credenti.Common.{
  ◌≡◌, inl, inr, suc, String, true, some, arith, eq_iff, Option-cases, List, ℕ,
}
use go_oauth_client_credenti.Common.Text.{◌<>◌}
use go_oauth_client_credenti.Oauth2.Exec.{ok, Result-cases}
use go_oauth_client_credenti.Oauth2.Types.{Time, Client, Token, TokenRequest, TokenResponse}
use go_oauth_client_credenti.Oauth2.Types.Platform.{Platform}
use go_oauth_client_credenti.Oauth2.Encoding.{base64_encode}
use go_oauth_client_credenti.Oauth2.Store.{Store}
use go_oauth_client_credenti.Oauth2.Store.Contract.{Maps, update, IsLawful}
use go_oauth_client_credenti.Oauth2.Service.{Service, World, token_entropy_len}
use go_oauth_client_credenti.Oauth2.Service.Random.{
  read_bytes, read_full, generate_random_base64, compute_token_hash,
}
use go_oauth_client_credenti.Oauth2.Service.Issue.{
  check_resource, make_token, make_response, store_token, mint, authorize, issue_checked,
  issue_token,
}
use go_oauth_client_credenti.Oauth2.Service.Issue.Checks.{
  MayTarget, MayScope, resource_allowed_iff, scope_allowed_iff,
}

-- The conditions under which a request is granted.
pub record MayIssue (p : Platform) (m : Maps) (req : TokenRequest) (client : Client) : Type 0 where
  pub grant : req.grant_type ≡ "client_credentials"
  pub target : check_resource p req.resource ≡ ok tt
  pub registered : m.client_at req.client_id ≡ some client
  pub secret : p.bcrypt_matches client.secret_hash req.client_secret ≡ true
  pub resource : MayTarget client.allowed_resources req.resource
  pub scope : MayScope client.allowed_scopes req.scope

module _ (p : Platform) (S : Store) (L : IsLawful S) (svc : Service) where
  -- A token was stored, and the two maps have not changed otherwise.
  pub record IsStored (req : TokenRequest) (client : Client) (w w' : World S)
      (opaque_token : String) (now : Time) : Type 0 where
    pub tokens :
        (L.maps w'.store).token_at
        ≡ update
            (L.maps w.store).token_at
            (compute_token_hash p opaque_token)
            (make_token p S svc client req opaque_token now)
    pub clients : (L.maps w'.store).client_at ≡ (L.maps w.store).client_at

  store_token-IsStored :
      (req : TokenRequest) (client : Client) (raw : String) (w w' : World S) (resp : TokenResponse)
      → store_token p S svc client req raw w ≡ (ok resp, w')
      → IsStored req client w w' ("opq_" <> raw) (svc.now_func w.ticks)
        × (resp ≡ make_response p S svc req ("opq_" <> raw))
  unfolding store_token
  store_token-IsStored req client raw w w' resp h =
      let t : Token = make_token p S svc client req ("opq_" <> raw) (svc.now_func w.ticks) in
      elim (Result-cases (S.save_token (some t) w.store).0) [
        | inr (e, failed) ↦ absurd (ground arith)
        | inl (tt, saved) ↦
            let law = L.save_token-maps t w.store in
            (record { tokens = ground (arith, law); clients = ground (arith, law) }, ground arith)
      ]

  -- The token is "opq_" and the text of 32 bytes of the random reader; the response carries the
  -- token that was stored, at the given time of issue.
  abbrev pub IsIssued : TokenRequest → Client → World S → World S → Time → TokenResponse → Type 0
  IsIssued req client w w' now resp =
      (bytes : List ℕ) × ((read_bytes token_entropy_len w.rand_reader).0 ≡ some bytes)
      × IsStored req client w w' ("opq_" <> base64_encode bytes) now
      × (resp ≡ make_response p S svc req ("opq_" <> base64_encode bytes))

  mint-IsIssued :
      (req : TokenRequest) (client : Client) (w w' : World S) (resp : TokenResponse)
      → mint p S svc client req w ≡ (ok resp, w')
      → IsIssued req client w w' (svc.now_func w.ticks) resp
  unfolding mint generate_random_base64 read_full
  mint-IsIssued req client w w' resp h =
      elim (Option-cases (read_bytes token_entropy_len w.rand_reader).0) [
        | inl short ↦ absurd (ground arith)
        | inr (bytes, drawn) ↦
            let raw = base64_encode bytes in
            let left = record w { rand_reader = (read_bytes token_entropy_len w.rand_reader).1 } in
            let (stored, e) = store_token-IsStored req client raw left w' resp (ground arith) in
            (bytes, drawn, record { tokens = stored.tokens; clients = stored.clients }, e)
      ]

  pub authorize-IsIssued :
      (req : TokenRequest) (client : Client) (w w' : World S) (resp : TokenResponse)
      → authorize p S svc client req w ≡ (ok resp, w')
      → (p.bcrypt_matches client.secret_hash req.client_secret ≡ true)
        × MayTarget client.allowed_resources req.resource
        × MayScope client.allowed_scopes req.scope
        × IsIssued req client w w' (svc.now_func w.ticks) resp
  unfolding authorize
  authorize-IsIssued req client w w' resp h = (
    ground arith,
    (resource_allowed_iff client.allowed_resources req.resource).0 (ground arith),
    (scope_allowed_iff client.allowed_scopes req.scope).0 (ground arith),
    mint-IsIssued req client w w' resp (ground arith),
  )

  issue_checked-IsIssued :
      (req : TokenRequest) (w w' : World S) (resp : TokenResponse)
      → issue_checked p S svc req w ≡ (ok resp, w')
      → (client : Client) × MayIssue p (L.maps w.store) req client
        × IsIssued req client w w' (svc.now_func w.ticks) resp
  unfolding issue_checked
  issue_checked-IsIssued req w w' resp h =
      elim (Option-cases ((L.maps w.store).client_at req.client_id)) [
        | inl absent ↦ absurd (ground (arith, L.get_client-maps req.client_id w.store))
        | inr (client, found) ↦
            let granted : authorize p S svc client req w ≡ (ok resp, w') =
              ground (arith, L.get_client-maps req.client_id w.store) in
            let (secret, resource, scope, issued) =
              authorize-IsIssued req client w w' resp granted in
            (
              client,
              record {
                grant = ground (arith, eq_iff req.grant_type "client_credentials");
                target = ground arith;
                registered = found;
                secret = secret;
                resource = resource;
                scope = scope;
              },
              issued,
            )
      ]

  -- A token is issued only on the client credentials grant, for a resource that is absent or an
  -- absolute URI, to a registered client whose secret matches, and within the resources and scopes
  -- of that client. The token is made of 32 bytes of the random
  -- reader; the one stored is the one returned, bound to the client, the resource and the
  -- scope; no other token and no client changes.
  pub issue_token_sound :
      (req : TokenRequest) (w w' : World S) (resp : TokenResponse)
      → issue_token p S svc (some req) w ≡ (ok resp, w')
      → (client : Client) × MayIssue p (L.maps w.store) req client
        × IsIssued req client w w' (svc.now_func (suc w.ticks)) resp
  unfolding issue_token
  issue_token_sound req w w' resp h =
      let (client, may, (bytes, drawn, stored, e)) =
        issue_checked-IsIssued req (record w { ticks = suc w.ticks }) w' resp h in
      (client, may, (bytes, drawn, record { tokens = stored.tokens; clients = stored.clients }, e))
