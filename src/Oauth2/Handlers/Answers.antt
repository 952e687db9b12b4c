-- ===== src/Oauth2/Handlers/Answers.antt =====
-- What the endpoints answer.
use go_oauth_client_credenti.Common.{◌≡◌, ◌≢◌, ℕ, true, false, some, [], ◌∷◌, arith, eq_iff}
use go_oauth_client_credenti.Oauth2.Error.{Error, is, invalid_client}
use go_oauth_client_credenti.Oauth2.Exec.{ok, err}
use go_oauth_client_credenti.Oauth2.Types.{Time, Token, TokenRequest, TokenResponse}
use go_oauth_client_credenti.Oauth2.Types.Platform.{Platform}
use go_oauth_client_credenti.Oauth2.Store.{Store}
use go_oauth_client_credenti.Oauth2.Store.Contract.{IsLawful}
use go_oauth_client_credenti.Oauth2.Service.{Service, World}
use go_oauth_client_credenti.Oauth2.Service.Issue.{issue_token}
use go_oauth_client_credenti.Oauth2.Service.Validate.{inactive, active_response}
use go_oauth_client_credenti.Oauth2.Service.Validate.Live.{IsLive, introspect_token-IsLive}
use go_oauth_client_credenti.Oauth2.Service.Validate.Revoked.{revoke_token-maps}
use go_oauth_client_credenti.Oauth2.Http.{Request, nothing, value}
use go_oauth_client_credenti.Oauth2.Handlers.{
  answer, bound_token_request, with_basic_auth, token_error, extract_token_param, token_handler,
  introspect_handler, revoke_handler,
}

module _ (p : Platform) (S : Store) (L : IsLawful S) (svc : Service) (c : Request)
    (w : World S) where
  -- The token endpoint, once the request is bound, with Basic credentials in place of those of the
  -- body: it answers 200 exactly when a token is issued, and then with that token and with the
  -- headers that forbid caching; 401 with a Basic challenge exactly when the client is not
  -- authenticated; and 400 otherwise.
  pub token_handler-answers :
      (req : TokenRequest)
      → bound_token_request c ≡ ok req
      → let r = (issue_token p S svc (some (with_basic_auth c.basic_auth req)) w).0 in
        let a = (token_handler p S svc c w).0 in
        ((resp : TokenResponse)
          → r ≡ ok resp
          → (a.status ≡ 200)
            × (a.body ≡ value resp)
            × (a.headers ≡ ("Cache-Control", "no-store") ∷ ("Pragma", "no-cache") ∷ []))
        × ((e : Error)
            → r ≡ err e
            → is e invalid_client ≡ true
            → (a.status ≡ 401) × (a.headers ≡ ("WWW-Authenticate", "Basic realm=\"oauth2\"") ∷ []))
        × ((e : Error)
            → r ≡ err e
            → is e invalid_client ≡ false
            → (a.status ≡ 400) × (a.headers ≡ []))
  unfolding token_handler token_error
  token_handler-answers req bound = (
    λ resp issued. ground (arith, bound),
    λ e failed client. ground (arith, bound),
    λ e failed other. ground (arith, bound),
  )

  -- A request that cannot be bound is refused with 400 and changes nothing.
  pub token_handler-unbound :
      (e : Error)
      → bound_token_request c ≡ err e
      → ((token_handler p S svc c w).0.status ≡ 400) × ((token_handler p S svc c w).1 ≡ w)
  unfolding token_handler
  token_handler-unbound e unbound = (ground arith, ground arith)

  -- The introspection endpoint never fails: it answers 400 to a request with no token and 200 to
  -- every other, with the description of the token if it is live and with an inactive one if not.
  pub introspect_handler-answers :
      let raw = extract_token_param c in
      let a = (introspect_handler p S svc c w).0 in
      (raw ≡ "" → a.status ≡ 400)
      × ((t : Token)
          → IsLive p (L.maps w.store) raw (svc.now_func w.ticks) t
          → a ≡ answer 200 (value (active_response t)))
      × (raw ≢ ""
          → ((t : Token) → ¬ IsLive p (L.maps w.store) raw (svc.now_func w.ticks) t)
          → a ≡ answer 200 (value inactive))
  unfolding introspect_handler
  introspect_handler-answers =
      let raw = extract_token_param c in
      let (described, hidden) = introspect_token-IsLive p S L svc raw w in
      (
        λ e. ground (arith, eq_iff raw ""),
        λ t live. ground (arith, eq_iff raw "", live.given, described t live),
        λ given dead. ground (arith, eq_iff raw "", hidden dead),
      )

  -- The revocation endpoint answers 400 to a request with no token and 200 with no body to every
  -- other, whether or not there is such a token.
  pub revoke_handler-answers :
      (wall : ℕ → Time)
      → let raw = extract_token_param c in
        let a = (revoke_handler p S svc wall c w).0 in
        (raw ≡ "" → a.status ≡ 400) × (raw ≢ "" → a ≡ answer 200 nothing)
  unfolding revoke_handler
  revoke_handler-answers wall =
      let raw = extract_token_param c in
      let (done, _, _, _) = revoke_token-maps p S L svc wall raw w in
      (λ e. ground (arith, eq_iff raw ""), λ given. ground (arith, eq_iff raw "", done))
