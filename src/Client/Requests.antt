-- ===== src/Client/Requests.antt =====
-- The calls of the four endpoints, from pkg/oauth2/client/client.go.
use go_oauth_client_credenti.Common.{
  String, Option, none, some, List, [], ◌∷◌, ◌==◌, not, eqb, if◌then◌else◌,
}
use go_oauth_client_credenti.Common.Dict.{Dict}
use go_oauth_client_credenti.Common.Text.{◌<>◌, trim_right_slash}
use go_oauth_client_credenti.Oauth2.Error.{Error, wrapped, foreign}
use go_oauth_client_credenti.Oauth2.Exec.{Result, ok, err, Exec, raise, ◌>>=◌}
use go_oauth_client_credenti.Oauth2.Types.{
  RegisterClientRequest, RegisterClientResponse, TokenResponse, IntrospectResponse,
}
use go_oauth_client_credenti.Client.{Client, CachedToken, World}
use go_oauth_client_credenti.Client.Network.{Network, HttpRequest, HttpResponse, form, json}

-- `fmt.Errorf("<what>: %w", err)` around an error.
abbrev pub context : {A W : Type 0} → String → Exec W A → Exec W A
context what m w = elim (m w).0 [
  | err e ↦ (err (wrapped (what <> ": ") e ""), (m w).1)
  | ok a ↦ (ok a, (m w).1)
]

-- The loop that deletes the entries of a token.
unfoldable pub forget : String → Dict CachedToken → Dict CachedToken
forget token [] = []
forget token ((res, cached) ∷ tokens) =
    let rest = forget token tokens in
    if cached.access_token == token then rest else (res, cached) ∷ rest

module _ (N : Network) (c : Client) where
  abbrev W : Type 0
  W = World N.State

  abbrev lift : {A : Type 0} → Result A → Exec W A
  lift r w = (r, w)

  abbrev send : HttpRequest → Exec W HttpResponse
  send req w = let (r, net) = N.send req w.net in (r, record w { net = net })

  abbrev endpoint : String → String
  endpoint path = trim_right_slash c.config.server_url <> path

  -- A POST of a form with the client's Basic credentials; `what` names the step that failed.
  unfoldable pub post_form :
      String → List (String × String) → (created called : String) → Exec W HttpResponse
  post_form path values created called = do
    url ← context created (lift (N.new_request "POST" (endpoint path)))
    context called (
        send (record {
          method = "POST";
          endpoint = endpoint path;
          url = url;
          headers = ("Content-Type", "application/x-www-form-urlencoded") ∷ [];
          basic_auth = some (c.config.client_id, c.config.client_secret);
          payload = form values;
        }))

  -- `fmt.Errorf("<what> failed with status %d: %s", …)`
  abbrev status_error : String → HttpResponse → Error
  status_error what resp =
      foreign (what <> " failed with status " <> N.decimal resp.status_code <> ": " <> resp.body)

  abbrev resource_values : String → List (String × String)
  resource_values resource_uri = if resource_uri == "" then [] else ("resource", resource_uri) ∷ []

  unfoldable pub fetch_token : String → Exec W TokenResponse
  fetch_token resource_uri = do
    resp ←
        post_form "/oauth/token"
          (("grant_type", "client_credentials") ∷ resource_values resource_uri)
          "failed to create token request" "failed to request token"
    if not (eqb resp.status_code 200)
        then raise (status_error "token request" resp)
        else context "failed to decode token response" (lift (N.unmarshal_token resp.body))

  unfoldable pub introspect : String → Exec W IntrospectResponse
  introspect token = do
    resp ←
        post_form "/oauth/introspect" (("token", token) ∷ []) "failed to create introspect request"
          "failed to call introspect endpoint"
    if not (eqb resp.status_code 200)
        then raise (status_error "introspect request" resp)
        else context "failed to decode introspect response"
            (lift (N.unmarshal_introspection resp.body))

  unfoldable pub revoke : String → Exec W (Unit {0})
  revoke token = do
    resp ←
        post_form "/oauth/revoke" (("token", token) ∷ []) "failed to create revoke request"
          "failed to call revoke endpoint"
    if not (eqb resp.status_code 200) then raise (status_error "revoke request" resp) else λ w.
        (ok tt, record w { tokens = forget token w.tokens })

  unfoldable pub register_client : Option RegisterClientRequest → Exec W RegisterClientResponse
  register_client none = raise (foreign "request cannot be nil")
  register_client (some req) = do
    body ← context "failed to marshal register request" (lift (N.marshal req))
    url ←
        context "failed to create request" (lift (N.new_request "POST" (endpoint "/oauth/clients")))
    resp ← context "failed to call register endpoint" (
        send (record {
          method = "POST";
          endpoint = endpoint "/oauth/clients";
          url = url;
          headers = ("Content-Type", "application/json") ∷ [];
          basic_auth = none;
          payload = json body;
        }))
    if not (eqb resp.status_code 201)
        then raise (status_error "register client" resp)
        else context "failed to decode register response"
            (lift (N.unmarshal_registration resp.body))
