-- ===== src/Oauth2/Handlers.antt =====
-- pkg/oauth2/handlers.go: the endpoints of the authorization server.
pub mod Answers
use go_oauth_client_credenti.Common.{
  ℕ, String, Bool, true, false, not, ◌&&◌, Option, none, some, List, [], ◌∷◌, ◌==◌, if◌then◌else◌,
}
use go_oauth_client_credenti.Common.Text.{◌<>◌, contains}
use go_oauth_client_credenti.Oauth2.Error.{
  Error, is, message, invalid_client, invalid_grant, invalid_target, scope_mismatch,
}
use go_oauth_client_credenti.Oauth2.Exec.{Result, ok, err}
use go_oauth_client_credenti.Oauth2.Types.{
  Time, RegisterClientResponse, TokenRequest, TokenResponse, IntrospectResponse,
}
use go_oauth_client_credenti.Oauth2.Types.Platform.{Platform}
use go_oauth_client_credenti.Oauth2.Store.{Store}
use go_oauth_client_credenti.Oauth2.Service.{Service, World}
use go_oauth_client_credenti.Oauth2.Service.Register.{register_client}
use go_oauth_client_credenti.Oauth2.Service.Issue.{issue_token}
use go_oauth_client_credenti.Oauth2.Service.Validate.{introspect_token, revoke_token}
use go_oauth_client_credenti.Oauth2.Http.{Request, Body, nothing, failure, value, Response}

abbrev pub answer : {A : Type 0} → ℕ → Body A → Response A
answer status body = record { status = status; headers = []; body = body }

-- The form of the request that the content type asks for.
unfoldable pub bound_token_request : Request → Result TokenRequest
bound_token_request c =
    if contains c.content_type "application/json"
    then c.json_token_request
    else c.form_token_request

abbrev binding_error : Request → String
binding_error c =
    if contains c.content_type "application/json"
    then "Failed to parse JSON: "
    else "Failed to parse form: "

-- HTTP Basic credentials replace those of the body.
unfoldable pub with_basic_auth : Option (String × String) → TokenRequest → TokenRequest
with_basic_auth none req = req
with_basic_auth (some (id, secret)) req = record req { client_id = id; client_secret = secret }

-- The switch on the error of `IssueToken`.
unfoldable pub token_error : Error → Response TokenResponse
token_error e =
    if is e invalid_client
    then record {
      status = 401;
      headers = ("WWW-Authenticate", "Basic realm=\"oauth2\"") ∷ [];
      body = failure "invalid_client" "Client authentication failed";
    }
    else if is e invalid_grant
    then answer 400 (failure "invalid_grant" "Unsupported grant_type (must be client_credentials)")
    else if is e invalid_target
    then answer 400 (failure "invalid_target" (message e))
    else if is e scope_mismatch
    then answer 400 (failure "invalid_scope" "Requested scope not authorized for this client")
    else answer 400 (failure "invalid_request" (message e))

abbrev pub token_answer : Result TokenResponse → Response TokenResponse
token_answer (err e) = token_error e
token_answer (ok resp) = record {
  status = 200;
  headers = ("Cache-Control", "no-store") ∷ ("Pragma", "no-cache") ∷ [];
  body = value resp;
}

-- The token of the form, of the query or of a JSON body, in this order; "" if there is none.
unfoldable pub extract_token_param : Request → String
extract_token_param c =
    if not (c.post_form "token" == "")
    then c.post_form "token"
    else if not (c.query "token" == "")
    then c.query "token"
    else elim c.json_token [ ok token ↦ if not (token == "") then token else "" | err _ ↦ "" ]

abbrev missing_token : {A : Type 0} → Response A
missing_token = answer 400 (failure "invalid_request" "Missing token parameter")

abbrev server_error : {A : Type 0} → Error → Response A
server_error e = answer 500 (failure "server_error" (message e))

module _ (p : Platform) (S : Store) (svc : Service) where
  abbrev pub registration_answer : Result RegisterClientResponse → Response RegisterClientResponse
  registration_answer (err e) = answer 400 (failure "invalid_request" (message e))
  registration_answer (ok resp) = answer 201 (value resp)

  unfoldable pub register_client_handler :
      Request → World S → Response RegisterClientResponse × World S
  register_client_handler c w = elim c.json_register [
    | err e ↦
        (answer 400 (failure "invalid_request" ("Failed to parse JSON body: " <> message e)), w)
    | ok req ↦ let (r, w') = register_client p S svc (some req) w in (registration_answer r, w')
  ]

  unfoldable pub token_handler : Request → World S → Response TokenResponse × World S
  token_handler c w = elim (bound_token_request c) [
    | err e ↦ (answer 400 (failure "invalid_request" (binding_error c <> message e)), w)
    | ok req ↦
        let (r, w') = issue_token p S svc (some (with_basic_auth c.basic_auth req)) w in
        (token_answer r, w')
  ]

  abbrev pub introspect_answer : Result IntrospectResponse → Response IntrospectResponse
  introspect_answer (err e) = server_error e
  introspect_answer (ok resp) = answer 200 (value resp)

  unfoldable pub introspect_handler : Request → World S → Response IntrospectResponse × World S
  introspect_handler c w =
      let token = extract_token_param c in
      if token == ""
      then (missing_token, w)
      else let (r, w') = introspect_token p S svc token w in (introspect_answer r, w')

  abbrev pub revoke_answer : Result (Unit {0}) → Response (Unit {0})
  revoke_answer (err e) = server_error e
  revoke_answer (ok _) = answer 200 nothing

  unfoldable pub revoke_handler : (ℕ → Time) → Request → World S → Response (Unit {0}) × World S
  revoke_handler wall c w =
      let token = extract_token_param c in
      if token == ""
      then (missing_token, w)
      else let (r, w') = revoke_token p S svc wall token w in (revoke_answer r, w')
