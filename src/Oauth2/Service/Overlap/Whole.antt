-- ===== src/Oauth2/Service/Overlap/Whole.antt =====
-- The two steps of `IssueToken` in a row, beside the whole call.
use go_oauth_client_credenti.Common.{◌≡◌, some, ◌==◌, Bool-cases, inl, inr, arith}
use go_oauth_client_credenti.Oauth2.Exec.{Result-cases}
use go_oauth_client_credenti.Oauth2.Types.{TokenRequest}
use go_oauth_client_credenti.Oauth2.Types.Platform.{Platform}
use go_oauth_client_credenti.Oauth2.Store.{Store}
use go_oauth_client_credenti.Oauth2.Service.{Service, World}
use go_oauth_client_credenti.Oauth2.Service.Issue.{check_resource, issue_checked, issue_token}
use go_oauth_client_credenti.Oauth2.Service.Overlap.{look, rest_of}

module _ (p : Platform) (S : Store) (svc : Service) where
  pub issue_token-look :
      (req : TokenRequest) (w : World S)
      → issue_token p S svc (some req) w ≡ rest_of p S svc req (look p S svc req w)
  unfolding issue_token issue_checked look rest_of
  issue_token-look req w = elim (Bool-cases (req.grant_type == "client_credentials")) [
    | inr e ↦ ground (arith, e)
    | inl e ↦ elim (Result-cases (check_resource p req.resource)) [
      | inr (bad, f) ↦ ground (arith, e, f)
      | inl (_, f) ↦ elim (Result-cases (S.get_client req.client_id w.store)) [
        | inr (bad, g) ↦ ground (arith, e, f, g)
        | inl (client, g) ↦ ground (arith, e, f, g)
      ]
    ]
  ]
