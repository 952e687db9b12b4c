-- ===== src/Cli/Commands.antt =====
-- The actions of the commands of cmd/oauth-cli/main.go. `Flags` is `c.String`: the value of a flag by
-- its name.
pub mod Reads
pub mod Outcome
pub mod Certificates
use go_oauth_client_credenti.Common.{
  ℕ, String, Option, none, some, List, [], ◌∷◌, ◌==◌, if◌then◌else◌,
}
use go_oauth_client_credenti.Common.Int.{pos}
use go_oauth_client_credenti.Common.Text.{◌<>◌, trim_right_slash}
use go_oauth_client_credenti.Oauth2.Error.{Error}
use go_oauth_client_credenti.Oauth2.Exec.{Result, ok, err, Exec, ◌>>=◌, ◌>>◌}
use go_oauth_client_credenti.Oauth2.Types.{Time}
use go_oauth_client_credenti.Client.{Client, new}
use go_oauth_client_credenti.Client.Network.{
  Network, HttpRequest, HttpResponse, Payload, no_payload, json, RequestUrl,
}
use go_oauth_client_credenti.Client.Requests.{context}
use go_oauth_client_credenti.Client.Requests
use go_oauth_client_credenti.Client.Cache.{get_token}
use go_oauth_client_credenti.Client.Transport.{RoundTripper, do_request}
use go_oauth_client_credenti.Cli.{register_request}
use go_oauth_client_credenti.Cli.Declared.{
  Command, register, token, challenge_start, challenge_verify, challenge_complete, get_cert,
  introspect, revoke, call,
}
use go_oauth_client_credenti.Cli.Shell.{
  Console, Shell, print, print_pretty_json, with_client, with_net, show_response,
}

abbrev pub Flags : Type 0
Flags = String → String

-- `resourceURI`
unfoldable pub resource_uri : Flags → String
resource_uri flag =
    trim_right_slash (flag "resource-base-url") <> "/v1/certificates/" <> flag "cert-id"

module _ (N : Network) (K : Console N) (time_now : ℕ → Time) where
  abbrev Action : Type 0
  Action = Exec (Shell N.State) (Unit {0})

  -- The client of a command, with no HTTP client of its own and no buffer given.
  abbrev pub make_client : String → String → String → Client
  make_client server_url client_id client_secret = new time_now (record {
    server_url = server_url;
    client_id = client_id;
    client_secret = client_secret;
    expiry_buffer = pos 0;
  })

  abbrev pub client_at : String → Flags → Client
  client_at server_url flag = make_client server_url (flag "client-id") (flag "client-secret")

  -- `http.NewRequestWithContext` and the header that follows it
  abbrev pub built :
      String → String → List (String × String) → Payload → Option RequestUrl → HttpRequest
  built method endpoint headers payload url = record {
    method = method;
    endpoint = endpoint;
    url = url;
    headers = headers;
    basic_auth = none;
    payload = payload;
  }

  abbrev pub new_request :
      String → String → List (String × String) → Payload → Exec (Shell N.State) HttpRequest
  new_request method endpoint headers payload sh = elim (N.new_request method endpoint) [
    | err e ↦ (err e, sh)
    | ok url ↦ (ok (built method endpoint headers payload url), sh)
  ]

  -- `client.Do(httpReq, resource)` and what is printed of the response
  unfoldable pub perform : String → Client → String → HttpRequest → Action
  perform failure client resource req = do
    resp ← context failure (
        with_client N K (
          do_request K.quote N
            (λ sent w. let (r, net) = K.default_transport sent w.net in (r, record w { net = net }))
            none client req (resource ∷ [])))
    show_response N K resp

  abbrev pub json_header : List (String × String)
  json_header = ("Content-Type", "application/json") ∷ []

  abbrev pub start_payload : Flags → Payload
  start_payload flag = json (
      K.marshal_strings (
        ("domain", flag "domain")
        ∷ ("token", flag "token")
        ∷ ("key_authorization", flag "key-auth")
        ∷ []))

  abbrev pub complete_payload : Flags → Payload
  complete_payload flag = json (K.marshal_strings (("token", flag "token") ∷ []))

  unfoldable pub register_action : Flags → Action
  register_action flag = do
    resp ← context "registration failed" (
        with_client N K (
          Requests.register_client N (make_client (flag "server-url") "" "")
            (some (register_request (flag "name") (flag "resources") (flag "scopes")))))
    print N.State "Client successfully registered:"
    print_pretty_json N.State (K.indent_registration resp)

  unfoldable pub token_action : Flags → Action
  token_action flag = do
    text ←
        context "failed to obtain token"
          (with_client N K (get_token N (client_at (flag "server-url") flag) (flag "resource")))
    print N.State ("Access Token: " <> text)

  unfoldable pub challenge_start_action : Flags → Action
  challenge_start_action flag = do
    let server_url = trim_right_slash (flag "server-url")
    req ←
        new_request "POST"
          (server_url <> "/v1/certificates/" <> flag "cert-id" <> "/challenges/http-01/start")
          json_header (start_payload flag)
    perform "API call failed" (client_at server_url flag) (resource_uri flag) req

  unfoldable pub challenge_verify_action : Flags → Action
  challenge_verify_action flag = do
    got ← context "failed to fetch challenge" (
        with_net N K (
          K.get (
            trim_right_slash (flag "server-url")
            <> "/.well-known/acme-challenge/"
            <> flag "token")))
    print N.State ("HTTP Status: " <> N.decimal got.0.status_code)
    print N.State ("Content-Type: " <> got.1)
    print N.State ("Key Authorization: " <> got.0.body)

  unfoldable pub challenge_complete_action : Flags → Action
  challenge_complete_action flag = do
    let server_url = trim_right_slash (flag "server-url")
    req ←
        new_request "POST"
          (server_url <> "/v1/certificates/" <> flag "cert-id" <> "/challenges/http-01/complete")
          json_header (complete_payload flag)
    perform "API call failed" (client_at server_url flag) (resource_uri flag) req

  unfoldable pub get_cert_action : Flags → Action
  get_cert_action flag = do
    let server_url = trim_right_slash (flag "server-url")
    req ← new_request "GET" (server_url <> "/v1/certificates/" <> flag "cert-id") [] no_payload
    perform "API call failed" (client_at server_url flag) (resource_uri flag) req

  unfoldable pub introspect_action : Flags → Action
  introspect_action flag = do
    resp ← context "introspection failed" (
        with_client N K (Requests.introspect N (client_at (flag "server-url") flag) (flag "token")))
    print N.State "Introspection Response:"
    print_pretty_json N.State (K.indent_introspection resp)

  unfoldable pub revoke_action : Flags → Action
  revoke_action flag = do
    context "revocation failed"
        (with_client N K (Requests.revoke N (client_at (flag "server-url") flag) (flag "token")))
    print N.State "Token revoked successfully."

  unfoldable pub call_action : Flags → Action
  call_action flag = do
    let server_url = trim_right_slash (flag "server-url")
    let body = flag "body"
    req ←
        new_request (flag "method") (server_url <> flag "path")
          (if body == "" then [] else json_header) (if body == "" then no_payload else json body)
    perform "request execution failed" (client_at server_url flag) (flag "resource") req

  unfoldable pub run : Command → Flags → Action
  run register = register_action
  run token = token_action
  run challenge_start = challenge_start_action
  run challenge_verify = challenge_verify_action
  run challenge_complete = challenge_complete_action
  run get_cert = get_cert_action
  run introspect = introspect_action
  run revoke = revoke_action
  run call = call_action
