-- ===== src/Oauth2/Service/Abstract/Issue.antt =====
-- `IssueToken`, over a store and over its maps.
use go_oauth_client_credenti.Common.{refl, String, not, Option, none, some, ◌==◌}
use go_oauth_client_credenti.Common.Text.{◌<>◌}
use go_oauth_client_credenti.Oauth2.Error.{
  Error, sentinel, wrapped, invalid_request, invalid_grant, invalid_client, invalid_target,
  scope_mismatch,
}
use go_oauth_client_credenti.Oauth2.Types.{Client, TokenRequest}
use go_oauth_client_credenti.Oauth2.Types.Platform.{Platform}
use go_oauth_client_credenti.Oauth2.Store.{Store}
use go_oauth_client_credenti.Oauth2.Store.Contract.{IsLawful, found_client, put_token}
use go_oauth_client_credenti.Oauth2.Store.Abstract.{maps_store}
use go_oauth_client_credenti.Oauth2.Service.{Service, token_entropy_len}
use go_oauth_client_credenti.Oauth2.Service.Issue.{
  check_resource, resource_allowed, scope_allowed, report, reject, no_request, make_token,
  make_response, store_token, mint, authorize, issue_checked, issue_token,
}
use go_oauth_client_credenti.Oauth2.Service.Abstract.{
  Agrees, bind-Agrees, try-Agrees, pure-Agrees, read_clock-Agrees, if-Agrees, result-Agrees,
}
use go_oauth_client_credenti.Oauth2.Service.Abstract.Steps.{
  change-Agrees, ask-Agrees, generate_random_base64-Agrees,
}

module _ (S : Store) (L : IsLawful S) (p : Platform) (svc : Service) where
  reject-Agrees :
      (req : TokenRequest) (status : String) (recorded returned : Error)
      → Agrees S L
          (reject p S svc req status recorded returned)
          (reject p maps_store svc req status recorded returned)
  reject-Agrees req status recorded returned = record { same = λ w. refl }

  report-Agrees :
      (req : TokenRequest) (status : String) (e : Option Error)
      → Agrees S L (report p S svc req status e) (report p maps_store svc req status e)
  report-Agrees req status e = record { same = λ w. refl }

  store_token-Agrees :
      (client : Client) (req : TokenRequest) (raw : String)
      → Agrees S L
          (store_token p S svc client req raw)
          (store_token p maps_store svc client req raw)
  unfolding store_token
  store_token-Agrees client req raw = bind-Agrees S L (read_clock-Agrees S L svc) (λ now.
      let t = make_token p S svc client req ("opq_" <> raw) now in
      bind-Agrees S L
        (try-Agrees S L
          (change-Agrees S L (S.save_token (some t)) (put_token t) (L.save_token-maps t)))
        (λ saved.
          result-Agrees S L saved
            (λ e. reject-Agrees req "internal_error" e (wrapped "failed to store token: " e ""))
            (λ _.
              bind-Agrees S L (report-Agrees req "ok" none)
                (λ _. pure-Agrees S L (make_response p S svc req ("opq_" <> raw))))))

  mint-Agrees :
      (client : Client) (req : TokenRequest)
      → Agrees S L (mint p S svc client req) (mint p maps_store svc client req)
  unfolding mint
  mint-Agrees client req =
      bind-Agrees S L (try-Agrees S L (generate_random_base64-Agrees S L token_entropy_len))
        (λ drawn.
          result-Agrees S L drawn
            (λ e. reject-Agrees req "internal_error" e (wrapped "failed to generate token: " e ""))
            (λ raw_token. store_token-Agrees client req raw_token))

  authorize-Agrees :
      (client : Client) (req : TokenRequest)
      → Agrees S L (authorize p S svc client req) (authorize p maps_store svc client req)
  unfolding authorize
  authorize-Agrees client req =
      let s = p.bcrypt_matches client.secret_hash req.client_secret in
      let r = resource_allowed client.allowed_resources req.resource in
      let a = scope_allowed client.allowed_scopes req.scope in
      if-Agrees S L (not s)
        (reject-Agrees req "invalid_client" (sentinel invalid_client) (sentinel invalid_client))
        (if-Agrees S L (not r)
          (reject-Agrees req "unauthorized_resource" (sentinel invalid_target)
            (sentinel invalid_target))
          (if-Agrees S L (not a)
            (reject-Agrees req "unauthorized_scope" (sentinel scope_mismatch)
              (sentinel scope_mismatch))
            (mint-Agrees client req)))

  issue_checked-Agrees :
      (req : TokenRequest)
      → Agrees S L (issue_checked p S svc req) (issue_checked p maps_store svc req)
  unfolding issue_checked
  issue_checked-Agrees req =
      if-Agrees S L (not (req.grant_type == "client_credentials"))
        (reject-Agrees req "invalid_grant" (sentinel invalid_grant) (sentinel invalid_grant))
        (result-Agrees S L (check_resource p req.resource)
          (λ e. reject-Agrees req "invalid_resource" e e)
          (λ _.
            bind-Agrees S L
              (try-Agrees S L (
                ask-Agrees S L (S.get_client req.client_id)
                  (λ m. found_client (m.client_at req.client_id))
                  (L.get_client-maps req.client_id)))
              (λ found.
                result-Agrees S L found
                  (λ _.
                    reject-Agrees req "invalid_client" (sentinel invalid_client)
                      (sentinel invalid_client))
                  (λ client. authorize-Agrees client req))))

  pub issue_token-Agrees :
      (req : Option TokenRequest)
      → Agrees S L (issue_token p S svc req) (issue_token p maps_store svc req)
  unfolding issue_token
  issue_token-Agrees none = bind-Agrees S L (read_clock-Agrees S L svc) (λ _.
      reject-Agrees (no_request p S svc) "invalid_request" (sentinel invalid_request)
        (sentinel invalid_request))
  issue_token-Agrees (some req) =
      bind-Agrees S L (read_clock-Agrees S L svc) (λ _. issue_checked-Agrees req)
