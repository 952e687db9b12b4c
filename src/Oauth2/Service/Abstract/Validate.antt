-- ===== src/Oauth2/Service/Abstract/Validate.antt =====
-- `ValidateToken`, `IntrospectToken` and `RevokeToken`, over a store and over its maps.
use go_oauth_client_credenti.Common.{refl, ℕ, suc, String, not, ◌==◌}
use go_oauth_client_credenti.Oauth2.Error.{
  sentinel, wrapped, is, token_not_found, token_revoked, token_expired, invalid_request,
}
use go_oauth_client_credenti.Oauth2.Exec.{ok}
use go_oauth_client_credenti.Oauth2.Types.{Time, is_revoked, is_expired, Token}
use go_oauth_client_credenti.Oauth2.Types.Platform.{Platform}
use go_oauth_client_credenti.Oauth2.Store.{Store}
use go_oauth_client_credenti.Oauth2.Store.Contract.{IsLawful, found_token, mark_revoked}
use go_oauth_client_credenti.Oauth2.Store.Abstract.{maps_store}
use go_oauth_client_credenti.Oauth2.Service.{Service}
use go_oauth_client_credenti.Oauth2.Service.Random.{compute_token_hash}
use go_oauth_client_credenti.Oauth2.Service.Validate.{
  judge, is_inactive, inactive, active_response, validate_token, introspect_token, revoke_token,
}
use go_oauth_client_credenti.Oauth2.Service.Abstract.{
  Agrees, bind-Agrees, try-Agrees, pure-Agrees, raise-Agrees, read_clock-Agrees, if-Agrees,
  result-Agrees,
}
use go_oauth_client_credenti.Oauth2.Service.Abstract.Steps.{change-Agrees, ask-Agrees}

module _ (S : Store) (L : IsLawful S) (p : Platform) (svc : Service) where
  judge-Agrees :
      (token : Token) (now : Time)
      → Agrees S L (judge p S svc token now) (judge p maps_store svc token now)
  unfolding judge
  judge-Agrees token now =
      if-Agrees S L (is_revoked token) (raise-Agrees S L (sentinel token_revoked)) (
        if-Agrees S L (is_expired token now) (raise-Agrees S L (sentinel token_expired))
          (pure-Agrees S L token))

  pub validate_token-Agrees :
      (raw_token : String)
      → Agrees S L (validate_token p S svc raw_token) (validate_token p maps_store svc raw_token)
  unfolding validate_token
  validate_token-Agrees raw_token =
      let h = compute_token_hash p raw_token in
      if-Agrees S L (raw_token == "") (raise-Agrees S L (sentinel invalid_request)) (
        bind-Agrees S L
          (try-Agrees S L (
            ask-Agrees S L (S.get_token_by_hash h) (λ m. found_token (m.token_at h))
              (L.get_token-maps h)))
          (λ found.
            result-Agrees S L found
              (λ e.
                if-Agrees S L (is e token_not_found) (raise-Agrees S L (sentinel token_not_found))
                  (raise-Agrees S L (wrapped "failed to retrieve token: " e "")))
              (λ token.
                bind-Agrees S L (read_clock-Agrees S L svc) (λ now. judge-Agrees token now))))

  pub introspect_token-Agrees :
      (raw_token : String)
      → Agrees S L
          (introspect_token p S svc raw_token)
          (introspect_token p maps_store svc raw_token)
  unfolding introspect_token
  introspect_token-Agrees raw_token =
      bind-Agrees S L (try-Agrees S L (validate_token-Agrees raw_token)) (λ checked.
        result-Agrees S L checked
          (λ e. if-Agrees S L (is_inactive e) (pure-Agrees S L inactive) (raise-Agrees S L e))
          (λ token. pure-Agrees S L (active_response token)))

  pub revoke_token-Agrees :
      (wall : ℕ → Time) (raw_token : String)
      → Agrees S L
          (revoke_token p S svc wall raw_token)
          (revoke_token p maps_store svc wall raw_token)
  unfolding revoke_token
  revoke_token-Agrees wall raw_token =
      let h = compute_token_hash p raw_token in
      if-Agrees S L (raw_token == "") (pure-Agrees S L tt) (
        bind-Agrees S L {m = λ w. (ok (wall w.ticks), record w { ticks = suc w.ticks })}
          {n = λ w. (ok (wall w.ticks), record w { ticks = suc w.ticks })}
          (record { same = λ w. refl })
          (λ now.
            bind-Agrees S L
              (try-Agrees S L (
                change-Agrees S L (S.revoke_token now h) (mark_revoked now h)
                  (L.revoke_token-maps now h)))
              (λ done.
                result-Agrees S L done
                  (λ e.
                    if-Agrees S L (not (is e token_not_found))
                      (raise-Agrees S L (wrapped "failed to revoke token: " e ""))
                      (pure-Agrees S L tt))
                  (λ _. pure-Agrees S L tt))))
