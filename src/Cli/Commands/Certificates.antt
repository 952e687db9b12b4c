-- ===== src/Cli/Commands/Certificates.antt =====
-- The commands on a certificate, and the resource that they ask for a token of.
use text.Mathlib.TextLemmas.{append-nil, append-ne-nil_of_right_ne-nil, cons-ne-nil, cons-append}
use mathlib.Core.Path.{subst}
use go_oauth_client_credenti.Common.{
  ◌≡◌, refl, sym, ◌∙◌, ◌≢◌, ℕ, String, Option, none, some, List, [], ◌∷◌, arith, eq_iff,
}
use go_oauth_client_credenti.Common.Text.{◌<>◌, trim_right_slash}
use go_oauth_client_credenti.Common.Dict.{lookup}
use go_oauth_client_credenti.Oauth2.Exec.{Result, ok}
use go_oauth_client_credenti.Oauth2.Types.{Time}
use go_oauth_client_credenti.Oauth2.Middleware.{Context}
use go_oauth_client_credenti.Client.Network.{
  Network, HttpRequest, RequestUrl, Payload, no_payload, json,
}
use go_oauth_client_credenti.Client.Transport.{target_resource}
use go_oauth_client_credenti.Server.{Api, start, complete, get, resource_extractor}
use go_oauth_client_credenti.Client.{Client, new}
use go_oauth_client_credenti.Cli.Declared.{Command, challenge_start, challenge_complete, get_cert}
use go_oauth_client_credenti.Cli.Shell.{Console, Shell}
use go_oauth_client_credenti.Cli.Commands.{
  Flags, resource_uri, perform, client_at, built, json_header, start_payload, complete_payload,
  challenge_start_action, challenge_complete_action, get_cert_action, run,
}
use go_oauth_client_credenti.Cli.Commands.Outcome.{IsPerformed, perform-IsPerformed}

-- The command for a route of the server, and the method and the end of the path that it sends.
abbrev pub command_of : Api → Command
command_of start = challenge_start
command_of complete = challenge_complete
command_of get = get_cert

abbrev pub method_of : Api → String
method_of start = "POST"
method_of complete = "POST"
method_of get = "GET"

abbrev pub suffix_of : Api → String
suffix_of start = "/challenges/http-01/start"
suffix_of complete = "/challenges/http-01/complete"
suffix_of get = ""

-- The fields of the JSON body of a command, if it has one.
abbrev pub fields_of : Api → Flags → Option (List (String × String))
fields_of start flag = some (
    ("domain", flag "domain")
    ∷ ("token", flag "token")
    ∷ ("key_authorization", flag "key-auth")
    ∷ [])
fields_of complete flag = some (("token", flag "token") ∷ [])
fields_of get flag = none

abbrev pub payload_of :
    (List (String × String) → String) → Option (List (String × String)) → Payload
payload_of marshal none = no_payload
payload_of marshal (some fields) = json (marshal fields)

abbrev pub content_type_of : Option (List (String × String)) → Option String
content_type_of none = none
content_type_of (some fields) = some "application/json"

-- The request of a command on a certificate.
pub record IsRequest (marshal : List (String × String) → String) (api : Api) (flag : Flags)
    (target : String) (parsed : Option RequestUrl) (req : HttpRequest) : Type 0 where
  pub method : req.method ≡ method_of api
  pub endpoint : req.endpoint ≡ target
  pub url : req.url ≡ parsed
  pub basic_auth : req.basic_auth ≡ none
  pub payload : req.payload ≡ payload_of marshal (fields_of api flag)
  pub content_type : lookup "Content-Type" req.headers ≡ content_type_of (fields_of api flag)

-- The client of a command, with the credentials of the flags.
pub record IsClient (time_now : ℕ → Time) (flag : Flags) (client : Client) : Type 0 where
  pub server_url : client.config.server_url ≡ trim_right_slash (flag "server-url")
  pub client_id : client.config.client_id ≡ flag "client-id"
  pub client_secret : client.config.client_secret ≡ flag "client-secret"
  pub now_func : client.now_func ≡ time_now

resource_uri-ne-nil : (flag : Flags) → resource_uri flag ≢ ""
unfolding resource_uri
resource_uri-ne-nil flag =
    append-ne-nil_of_right_ne-nil (trim_right_slash (flag "resource-base-url")) (λ e.
      cons-ne-nil "/" ("v1/certificates/" <> flag "cert-id")
        (sym (cons-append "/" "v1/certificates/" (flag "cert-id")) ∙ e))

target-resource_uri :
    (flag : Flags) (url : Option RequestUrl)
    → target_resource (resource_uri flag) url ≡ resource_uri flag
unfolding target_resource
target-resource_uri flag none = refl
target-resource_uri flag (some u) =
    ground (arith, eq_iff (resource_uri flag) "", resource_uri-ne-nil flag)

resource_uri-extractor :
    (flag : Flags) (c : Context)
    → c.request.param "id" ≡ flag "cert-id"
    → resource_uri flag ≡ resource_extractor (flag "resource-base-url") c
unfolding resource_uri resource_extractor
resource_uri-extractor flag c id = rw id refl

module _ (N : Network) (K : Console N) (time_now : ℕ → Time) where
  aimed :
      (flag : Flags) (c : Context) (client : Client) (req : HttpRequest) (sh : Shell N.State)
      → c.request.param "id" ≡ flag "cert-id"
      → (out : Result (Unit {0}) × Shell N.State)
      → out ≡ perform N K time_now "API call failed" client (resource_uri flag) req sh
      → IsPerformed N K time_now "API call failed" client
          (resource_extractor (flag "resource-base-url") c)
          req
          sh
          out
  aimed flag c client req sh id out same = rw same (
      subst
        (λ target.
          IsPerformed N K time_now "API call failed" client target req sh
            (perform N K time_now "API call failed" client (resource_uri flag) req sh))
        (target-resource_uri flag req.url ∙ resource_uri-extractor flag c id)
        (perform-IsPerformed N K time_now "API call failed" client (resource_uri flag) req sh))

  client_at-IsClient :
      (flag : Flags)
      → IsClient time_now flag (client_at N K time_now (trim_right_slash (flag "server-url")) flag)
  unfolding new
  client_at-IsClient flag = record {
    server_url = refl;
    client_id = refl;
    client_secret = refl;
    now_func = refl;
  }

  -- If a request can be made for the path of a certificate, each of the three commands on it makes
  -- the one for that path: with the method of the route, and, where the command has fields, with
  -- their JSON. It asks for a token of the URI that the server demands for that path, if the two are
  -- given the same base URL, with the credentials of the flags. If there is a token, it sends that request once, as it is but for the
  -- token in its Authorization header; if not, it sends nothing more, prints nothing and fails.
  pub run-IsPerformed :
      (api : Api) (flag : Flags) (c : Context) (url : Option RequestUrl) (sh : Shell N.State)
      → c.request.param "id" ≡ flag "cert-id"
      → let server_url = trim_right_slash (flag "server-url") in
        let endpoint = server_url <> "/v1/certificates/" <> flag "cert-id" <> suffix_of api in
        N.new_request (method_of api) endpoint ≡ ok url
        → (req : HttpRequest) × (client : Client) × IsRequest K.marshal_strings api flag endpoint
            url req
          × IsClient time_now flag client
          × IsPerformed N K time_now "API call failed" client
              (resource_extractor (flag "resource-base-url") c)
              req
              sh
              (run N K time_now (command_of api) flag sh)
  unfolding run challenge_start_action challenge_complete_action get_cert_action lookup
  run-IsPerformed start flag c url sh id made =
      let server_url = trim_right_slash (flag "server-url") in
      let endpoint =
        server_url <> "/v1/certificates/" <> flag "cert-id" <> "/challenges/http-01/start" in
      let req =
        built N K time_now "POST" endpoint (json_header N K time_now)
          (start_payload N K time_now flag) url in
      (
        req,
        client_at N K time_now server_url flag,
        record {
          method = refl;
          endpoint = refl;
          url = refl;
          basic_auth = refl;
          payload = refl;
          content_type = refl;
        },
        client_at-IsClient flag,
        aimed flag c (client_at N K time_now server_url flag) req sh id _ (ground (arith, made)),
      )
  run-IsPerformed complete flag c url sh id made =
      let server_url = trim_right_slash (flag "server-url") in
      let endpoint =
        server_url <> "/v1/certificates/" <> flag "cert-id" <> "/challenges/http-01/complete" in
      let req =
        built N K time_now "POST" endpoint (json_header N K time_now)
          (complete_payload N K time_now flag) url in
      (
        req,
        client_at N K time_now server_url flag,
        record {
          method = refl;
          endpoint = refl;
          url = refl;
          basic_auth = refl;
          payload = refl;
          content_type = refl;
        },
        client_at-IsClient flag,
        aimed flag c (client_at N K time_now server_url flag) req sh id _ (ground (arith, made)),
      )
  run-IsPerformed get flag c url sh id made =
      let server_url = trim_right_slash (flag "server-url") in
      let endpoint = server_url <> "/v1/certificates/" <> flag "cert-id" in
      let req = built N K time_now "GET" endpoint [] no_payload url in
      let made' : N.new_request "GET" endpoint ≡ ok url =
        rw (append-nil (flag "cert-id")) at made in
      (
        req,
        client_at N K time_now server_url flag,
        record {
          method = refl;
          endpoint = rw (append-nil (flag "cert-id")) refl;
          url = refl;
          basic_auth = refl;
          payload = refl;
          content_type = refl;
        },
        client_at-IsClient flag,
        aimed flag c (client_at N K time_now server_url flag) req sh id _ (ground (arith, made')),
      )
