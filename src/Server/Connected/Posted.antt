-- ===== src/Server/Connected/Posted.antt =====
-- The token of a form that arrives.
use go_oauth_client_credenti.Common.{◌≡◌, ◌≢◌, ℕ, String, Option, [], ◌∷◌, arith, eq_iff}
use go_oauth_client_credenti.Common.Dict.{lookup}
use go_oauth_client_credenti.Oauth2.Types.{Time}
use go_oauth_client_credenti.Oauth2.Types.Platform.{Platform}
use go_oauth_client_credenti.Oauth2.Store.{Store}
use go_oauth_client_credenti.Oauth2.Service.{Service}
use go_oauth_client_credenti.Oauth2.Handlers.{extract_token_param}
use go_oauth_client_credenti.Client.{Client}
use go_oauth_client_credenti.Client.Network.{RequestUrl}
use go_oauth_client_credenti.Server.Connected.{Wire, IsFaithful}
use go_oauth_client_credenti.Server.Connected.Tokens.{IsAimed, posted, posted-IsForm}

module _ (W : Wire) (faithful : IsFaithful W) (p : Platform) (S : Store) (svc : Service)
    (wall : ℕ → Time) (c : Client) (aimed : IsAimed W c) where
  pub extract_token_param-posted :
      (path token : String) (url : Option RequestUrl)
      → token ≢ ""
      → extract_token_param
          (W.received (posted W faithful p S svc wall c aimed path (("token", token) ∷ []) url))
        ≡ token
  unfolding extract_token_param lookup
  extract_token_param-posted path token url given =
      let values = ("token", token) ∷ [] in
      let req = posted W faithful p S svc wall c aimed path values url in
      let is_form = posted-IsForm W faithful p S svc wall c aimed path values url in
      ground (arith, faithful.post_form req values is_form "token", eq_iff token "")
