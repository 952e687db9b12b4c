-- ===== src/Server/Connected/Tokens.antt =====
-- What the client of a connected server gets.
use go_oauth_client_credenti.Common.{
  ◌≡◌, refl, ap, ◌∙◌, ℕ, String, false, Option, some, List, [], ◌∷◌, ◌==◌, arith, eq_iff,
  Bool-cases, inl, inr, if◌then◌else◌, eqb,
}
use go_oauth_client_credenti.Common.Dict.{lookup}
use go_oauth_client_credenti.Common.Text.{◌<>◌, contains, trim_right_slash}
use go_oauth_client_credenti.Oauth2.Error.{Error, foreign}
use go_oauth_client_credenti.Oauth2.Exec.{ok, err}
use go_oauth_client_credenti.Oauth2.Types.{Time, TokenRequest, TokenResponse}
use go_oauth_client_credenti.Oauth2.Types.Platform.{Platform}
use go_oauth_client_credenti.Oauth2.Store.{Store}
use go_oauth_client_credenti.Oauth2.Service.{Service, World}
use go_oauth_client_credenti.Oauth2.Service.Issue.{issue_token}
use go_oauth_client_credenti.Oauth2.Http.{Response}
use go_oauth_client_credenti.Oauth2.Handlers.{
  bound_token_request, with_basic_auth, token_error, token_answer, token_handler,
}
use go_oauth_client_credenti.Client.{Client}
use go_oauth_client_credenti.Client
use go_oauth_client_credenti.Client.Network.{HttpRequest, HttpResponse, RequestUrl, form}
use go_oauth_client_credenti.Client.Requests.{post_form, fetch_token}
use go_oauth_client_credenti.Server.System.{Endpoint, tokens, register_routes}
use go_oauth_client_credenti.Server.Connected.{
  Wire, form_type, IsForm, IsFaithful, endpoint_of, deliver, send, connected,
}

-- The request for a token that a client with the credentials makes of the server.
abbrev pub asked : Client → String → TokenRequest
asked c resource_uri = record {
  grant_type = "client_credentials";
  client_id = c.config.client_id;
  client_secret = c.config.client_secret;
  resource = resource_uri;
  scope = "";
}

-- The paths that the client posts to.
pub data IsPosted : String → Type 0 where
  to_clients : IsPosted "/oauth/clients"
  to_token : IsPosted "/oauth/token"
  to_introspect : IsPosted "/oauth/introspect"
  to_revoke : IsPosted "/oauth/revoke"

-- The client is set up for the server at the other end of the wire.
pub record IsAimed (W : Wire) (c : Client) : Type 0 where
  pub path :
      (path : String) → IsPosted path → W.path (trim_right_slash c.config.server_url <> path) ≡ path
  pub url :
      (path : String)
      → IsPosted path
      → (url : Option RequestUrl) × (W.new_request "POST"
            (trim_right_slash c.config.server_url <> path)
          ≡ ok url)
  pub client_id : contains c.config.client_id ":" ≡ false

module _ (W : Wire) (p : Platform) (S : Store) (svc : Service) (wall : ℕ → Time) where
  tokens-route : endpoint_of "POST" "/oauth/token" (register_routes "/oauth") ≡ some tokens
  unfolding endpoint_of register_routes
  tokens-route = refl

  -- A POST at a path of the group /oauth reaches the handler of its route.
  pub send-deliver :
      (path : String) (e : Endpoint) (req : HttpRequest) (w : World S)
      → endpoint_of "POST" path (register_routes "/oauth") ≡ some e
      → req.method ≡ "POST"
      → W.path req.endpoint ≡ path
      → send W p S svc wall req w
        ≡ (ok (deliver W p S svc wall e req w).0, (deliver W p S svc wall e req w).1)
  unfolding send
  send-deliver path e req w found post at =
      let route : endpoint_of req.method (W.path req.endpoint) (register_routes "/oauth") ≡ some e =
        rw (post, at) found in
      rw (route, send) refl

  send-tokens :
      (req : HttpRequest) (w : World S)
      → req.method ≡ "POST"
      → W.path req.endpoint ≡ "/oauth/token"
      → let out = token_handler p S svc (W.received req) w in
        send W p S svc wall req w ≡ (ok (W.token out.0), out.1)
  unfolding deliver
  send-tokens req w post path = send-deliver "/oauth/token" tokens req w tokens-route post path

module _ (W : Wire) (faithful : IsFaithful W) (p : Platform) (S : Store) (svc : Service)
    (wall : ℕ → Time) (c : Client) (aimed : IsAimed W c) where
  -- The request that `fetchToken` sends.
  abbrev values : String → List (String × String)
  values resource_uri =
      ("grant_type", "client_credentials")
      ∷ (if resource_uri == "" then [] else ("resource", resource_uri) ∷ [])

  abbrev pub posted : String → List (String × String) → Option RequestUrl → HttpRequest
  posted path vs url = record {
    method = "POST";
    endpoint = trim_right_slash c.config.server_url <> path;
    url = url;
    headers = ("Content-Type", form_type) ∷ [];
    basic_auth = some (c.config.client_id, c.config.client_secret);
    payload = form vs;
  }

  pub posted-IsForm :
      (path : String) (vs : List (String × String)) (url : Option RequestUrl)
      → IsForm (posted path vs url) vs
  unfolding lookup
  posted-IsForm path vs url = record { method = refl; content_type = refl; payload = refl }

  bound-posted :
      (resource_uri : String) (url : Option RequestUrl)
      → bound_token_request (W.received (posted "/oauth/token" (values resource_uri) url))
        ≡ ok (record (asked c resource_uri) { client_id = ""; client_secret = "" })
  unfolding bound_token_request contains lookup
  bound-posted resource_uri url =
      let req = posted "/oauth/token" (values resource_uri) url in
      let is_form = posted-IsForm "/oauth/token" (values resource_uri) url in
      let read = faithful.form_token_request req (values resource_uri) is_form in
      rw (faithful.content_type req (values resource_uri) is_form)
        (elim (Bool-cases (resource_uri == "")) [
          | inl e ↦ ground (arith, read, e, eq_iff resource_uri "")
          | inr e ↦ ground (arith, read, e)
        ])

  -- What the handler makes of the request is what was asked for.
  token_handler-posted :
      (resource_uri : String) (url : Option RequestUrl) (w : World S)
      → let out = issue_token p S svc (some (asked c resource_uri)) w in
        token_handler p S svc (W.received (posted "/oauth/token" (values resource_uri) url)) w
        ≡ (token_answer out.0, out.1)
  unfolding token_handler with_basic_auth
  token_handler-posted resource_uri url w =
      let req = posted "/oauth/token" (values resource_uri) url in
      ground (
        arith,
        bound-posted resource_uri url,
        faithful.basic_auth req c.config.client_id c.config.client_secret aimed.client_id refl,
      )

  token_error-status : (e : Error) → eqb (token_error e).status 200 ≡ false
  unfolding token_error
  token_error-status e = ground arith

  send-posted :
      (resource_uri : String) (url : Option RequestUrl) (w : World S)
      → let out = issue_token p S svc (some (asked c resource_uri)) w in
        send W p S svc wall (posted "/oauth/token" (values resource_uri) url) w
        ≡ (ok (W.token (token_answer out.0)), out.1)
  send-posted resource_uri url w =
      let req = posted "/oauth/token" (values resource_uri) url in
      ground (
        arith,
        send-tokens W p S svc wall req w refl (aimed.path "/oauth/token" to_token),
        token_handler-posted resource_uri url w,
      )

  fetch_token-refused :
      (resource_uri : String) (w : Client.World (World S)) (url : Option RequestUrl)
      (got : HttpResponse) (net : World S)
      → W.new_request "POST" (trim_right_slash c.config.server_url <> "/oauth/token") ≡ ok url
      → send W p S svc wall (posted "/oauth/token" (values resource_uri) url) w.net ≡ (ok got, net)
      → eqb got.status_code 200 ≡ false
      → (fetch_token (connected W p S svc wall) c resource_uri w).0
        ≡ err (
            foreign (
              "token request"
              <> " failed with status "
              <> W.decimal got.status_code
              <> ": "
              <> got.body))
  unfolding fetch_token post_form
  fetch_token-refused resource_uri w url got net made sent status =
      ground (arith, made, sent, status)

  -- For a client that is aimed at the server, to fetch a token over a faithful wire is to issue one
  -- at its other end: what the service grants is what the client gets, what it refuses is an error
  -- with the status and the body of the answer, and the server is left as the service leaves it.
  pub fetch_token-issue_token :
      (resource_uri : String) (w : Client.World (World S))
      → let out = issue_token p S svc (some (asked c resource_uri)) w.net in
        let got = fetch_token (connected W p S svc wall) c resource_uri w in
        (got.1.net ≡ out.1)
        × ((resp : TokenResponse) → out.0 ≡ ok resp → got.0 ≡ ok resp)
        × ((e : Error)
            → out.0 ≡ err e
            → let answer = W.token (token_error e) in
              got.0
              ≡ err (
                  foreign (
                    "token request"
                    <> " failed with status "
                    <> W.decimal answer.status_code
                    <> ": "
                    <> answer.body)))
  unfolding fetch_token post_form
  fetch_token-issue_token resource_uri w =
      let (url, made) = aimed.url "/oauth/token" to_token in
      let sent = send-posted resource_uri url w.net in
      let out = (issue_token p S svc (some (asked c resource_uri)) w.net).0 in
      let status = faithful.token_status (token_answer out) in
      (
        ground (arith, made, sent),
        λ resp issued. ground (
          arith,
          made,
          sent,
          status,
          issued,
          faithful.token_body (token_answer out) resp (rw issued refl),
        ),
        λ e failed.
            let answered : token_answer out ≡ token_error e = rw failed refl in
            let status : eqb (W.token (token_error e)).status_code 200 ≡ false =
              ground (arith, faithful.token_status (token_error e), token_error-status e) in
            fetch_token-refused resource_uri w url (W.token (token_error e))
              (issue_token p S svc (some (asked c resource_uri)) w.net).1 made
              (sent
                ∙ ap
                    (λ (r : Response TokenResponse).
                      (ok (W.token r), (issue_token p S svc (some (asked c resource_uri)) w.net).1))
                    answered)
              status,
      )
