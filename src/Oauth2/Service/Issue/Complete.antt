-- ===== src/Oauth2/Service/Issue/Complete.antt =====
-- `IssueToken` grants every request that meets the conditions.
use go_oauth_client_credenti.Common.{◌≡◌, ℕ, suc, String, some, List, arith, eq_iff, length, ◌++◌}
use go_oauth_client_credenti.Common.Text.{◌<>◌}
use go_oauth_client_credenti.Oauth2.Exec.{ok}
use go_oauth_client_credenti.Oauth2.Types.{Client, Token, TokenRequest}
use go_oauth_client_credenti.Oauth2.Types.Platform.{Platform}
use go_oauth_client_credenti.Oauth2.Encoding.{base64_encode}
use go_oauth_client_credenti.Oauth2.Store.{Store}
use go_oauth_client_credenti.Oauth2.Store.Contract.{IsLawful}
use go_oauth_client_credenti.Oauth2.Service.{Service, World, token_entropy_len}
use go_oauth_client_credenti.Oauth2.Service.Random.{read_bytes, read_full, generate_random_base64}
use go_oauth_client_credenti.Oauth2.Service.Random.Reads.{
  read_bytes-append, Sums, compute_token_hash-ne-nil,
}
use go_oauth_client_credenti.Oauth2.Service.Issue.{
  make_token, make_response, store_token, mint, authorize, issue_checked, issue_token,
}
use go_oauth_client_credenti.Oauth2.Service.Issue.Checks.{resource_allowed_iff, scope_allowed_iff}
use go_oauth_client_credenti.Oauth2.Service.Issue.Sound.{MayIssue}

module _ (p : Platform) (sums : Sums p) (S : Store) (L : IsLawful S) (svc : Service) where
  store_token-ok :
      (client : Client) (req : TokenRequest) (raw : String) (w : World S)
      → (store_token p S svc client req raw w).0 ≡ ok (make_response p S svc req ("opq_" <> raw))
  unfolding store_token
  store_token-ok client req raw w =
      let t : Token = make_token p S svc client req ("opq_" <> raw) (svc.now_func w.ticks) in
      ground (
        arith,
        L.save_token-maps t w.store,
        eq_iff t.token_hash "",
        compute_token_hash-ne-nil p sums ("opq_" <> raw),
      )

  mint-ok :
      (client : Client) (req : TokenRequest) (bytes left : List ℕ) (w : World S)
      → length bytes ≡ token_entropy_len
      → w.rand_reader ≡ bytes ++ left
      → (mint p S svc client req w).0
        ≡ ok (make_response p S svc req ("opq_" <> base64_encode bytes))
  unfolding mint generate_random_base64 read_full
  mint-ok client req bytes left w enough e =
      let drawn : read_bytes token_entropy_len w.rand_reader ≡ (some bytes, left) =
        rw (e, ← enough) (read_bytes-append bytes left) in
      ground (
        arith,
        drawn,
        store_token-ok client req (base64_encode bytes) (record w { rand_reader = left }),
      )

  -- A request that meets the conditions is granted, if the random reader has 32 bytes left; the
  -- token is "opq_" and the text of those bytes.
  pub issue_token_complete :
      (req : TokenRequest) (client : Client) (bytes left : List ℕ) (w : World S)
      → MayIssue p (L.maps w.store) req client
      → length bytes ≡ token_entropy_len
      → w.rand_reader ≡ bytes ++ left
      → (issue_token p S svc (some req) w).0
        ≡ ok (make_response p S svc req ("opq_" <> base64_encode bytes))
  unfolding issue_token issue_checked authorize
  issue_token_complete req client bytes left w may enough e = ground (
    arith,
    eq_iff req.grant_type "client_credentials",
    L.get_client-maps req.client_id w.store,
    (resource_allowed_iff client.allowed_resources req.resource).1 may.resource,
    (scope_allowed_iff client.allowed_scopes req.scope).1 may.scope,
    mint-ok client req bytes left (record w { ticks = suc w.ticks }) enough e,
  )
