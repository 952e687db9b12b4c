-- ===== src/Server/Served.antt =====
-- What a client that follows the protocol gets.
use go_oauth_client_credenti.Common.{◌≡◌, refl, ap, ◌⊎◌, inl, inr, suc, String, some, true}
use go_oauth_client_credenti.Common.Int.{◌+ℤ◌, ◌≤ℤ◌}
use go_oauth_client_credenti.Common.Text.{◌<>◌, is_space}
use go_oauth_client_credenti.Common.Words.{is_word, is_word-append}
use go_oauth_client_credenti.Oauth2.Encoding.{base64_encode}
use go_oauth_client_credenti.Oauth2.Encoding.Words.{base64_encode-word}
use go_oauth_client_credenti.Oauth2.Exec.{ok}
use go_oauth_client_credenti.Oauth2.Types.{Time, TokenRequest, TokenResponse}
use go_oauth_client_credenti.Oauth2.Types.Platform.{Platform}
use go_oauth_client_credenti.Oauth2.Store.{Store}
use go_oauth_client_credenti.Oauth2.Store.Contract.{IsLawful}
use go_oauth_client_credenti.Oauth2.Service.{Service, World}
use go_oauth_client_credenti.Oauth2.Service.Issue.{issue_token}
use go_oauth_client_credenti.Oauth2.Service.Issue.Sound.{issue_token_sound}
use go_oauth_client_credenti.Oauth2.Service.Validate.Live.{validate_token_iff}
use go_oauth_client_credenti.Oauth2.Service.Lifecycle.Consistent.{IsConsistent}
use go_oauth_client_credenti.Oauth2.Service.Lifecycle.RoundTrip.{validate_token-issue_token}
use go_oauth_client_credenti.Oauth2.Middleware.Bearer.{bearer_token-word}
use go_oauth_client_credenti.Oauth2.Middleware.{bearer_token}
use go_oauth_client_credenti.Certificate.Store.{MemoryStore}
use go_oauth_client_credenti.Server.{Api, ApiCall, api_request, handle, handled, protected}
use go_oauth_client_credenti.Server.Guarded.{target_uri, IsAuthorized, protected-outcome}

opq-word : (raw : String) → is_word raw ≡ true → is_word ("opq_" <> raw) ≡ true
unfolding is_word is_space
opq-word raw h = is_word-append "opq_" raw refl h

module _ (p : Platform) (S : Store) (L : IsLawful S) (svc : Service) (base : String) where
  -- A call with the token of a response in its Bearer header is handled, if the maps were consistent
  -- before the issue, the token was issued for
  -- no resource or for the URI of the certificate, has not expired, and the store holds what the
  -- issue left.
  pub protected-issue_token :
      (req : TokenRequest) (w w' u : World S) (resp : TokenResponse) (api : Api) (now : Time)
      (call : ApiCall) (s : MemoryStore)
      → IsConsistent (L.maps w.store)
      → issue_token p S svc (some req) w ≡ (ok resp, w')
      → L.maps u.store ≡ L.maps w'.store
      → svc.now_func u.ticks ≤ℤ svc.now_func (suc w.ticks) +ℤ svc.token_ttl
      → call.context.request.authorization ≡ "Bearer " <> resp.access_token
      → (req.resource ≡ "") ⊎ (req.resource ≡ target_uri base call.context)
      → let out = protected p S svc base api now call u s in
        let run = handle api now (api_request call) s in (out.0 ≡ handled run.0) × (out.2 ≡ run.1)
  protected-issue_token req w w' u resp api now call s inv issued same young header bound =
      let (client, may, (bytes, drawn, stored, e)) =
        issue_token_sound p S L svc req w w' resp issued in
      let raw = base64_encode bytes in
      let (t, valid, _, resource, _, _) =
        (validate_token-issue_token p S L svc req w w' u resp inv issued same).0 young in
      let live = (validate_token_iff p S L svc resp.access_token u t).0 valid in
      let text : resp.access_token ≡ "opq_" <> raw = ap (λ (r : TokenResponse). r.access_token) e in
      let word : is_word resp.access_token ≡ true =
        rw text (opq-word raw (base64_encode-word bytes)) in
      let read : bearer_token call.context.request.authorization ≡ some resp.access_token =
        rw header (bearer_token-word resp.access_token live.given word) in
      let may' : IsAuthorized p S L svc base call.context u t =
        ((resp.access_token, read, live), rw resource bound) in
      elim (protected-outcome p S L svc base api now call u s).0 [
        | inl (_, _, answered, changed) ↦ (answered, changed)
        | inr (nobody, _, _) ↦ absurd (nobody t may')
      ]
