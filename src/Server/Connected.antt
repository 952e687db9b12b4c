-- ===== src/Server/Connected.antt =====
-- The client of pkg/oauth2/client and the authorization server of pkg/oauth2 as the two ends of one
-- network. What `net/http`, gin and `encoding/json` do between them is a parameter, the `Wire`.
pub mod Tokens
pub mod Calls
pub mod Posted
pub mod Registered
pub mod Introspected
pub mod Lifecycle
pub mod Revoked
use go_oauth_client_credenti.Common.{
  ℕ, String, Bool, true, false, ◌&&◌, Option, none, some, List, [], ◌∷◌, ◌==◌, ◌≡◌, if◌then◌else◌,
}
use go_oauth_client_credenti.Common.Int.{pos, negsuc, ◌≤ℤ◌, ◌<ℤ◌}
use go_oauth_client_credenti.Common.Dict.{lookup}
use go_oauth_client_credenti.Common.Text.{contains}
use go_oauth_client_credenti.Oauth2.Exec.{Result, ok}
use go_oauth_client_credenti.Oauth2.Types.{
  Time, RegisterClientRequest, RegisterClientResponse, TokenRequest, TokenResponse,
  IntrospectResponse,
}
use go_oauth_client_credenti.Oauth2.Types.Platform.{Platform}
use go_oauth_client_credenti.Oauth2.Store.{Store}
use go_oauth_client_credenti.Oauth2.Service.{Service, World}
use go_oauth_client_credenti.Oauth2.Http.{Request, value, Response}
use go_oauth_client_credenti.Oauth2.Handlers.{
  register_client_handler, token_handler, introspect_handler, revoke_handler,
}
use go_oauth_client_credenti.Client.Network.{
  Network, HttpRequest, HttpResponse, Payload, form, json, RequestUrl,
}
use go_oauth_client_credenti.Server.System.{
  Endpoint, clients, tokens, introspection, revocation, health, metrics, acme, guarded, Route,
  register_routes,
}

pub record Wire : Type 0 where
  pub new_request : String → String → Result (Option RequestUrl)
  -- the path of a URL
  pub path : String → String
  -- what gin makes of a request that arrives
  pub received : HttpRequest → Request
  -- what the other end reads of a response
  pub registration : Response RegisterClientResponse → HttpResponse
  pub token : Response TokenResponse → HttpResponse
  pub introspection : Response IntrospectResponse → HttpResponse
  pub empty : Response (Unit {0}) → HttpResponse
  pub not_found : HttpResponse
  pub marshal : RegisterClientRequest → Result String
  pub unmarshal_registration : String → Result RegisterClientResponse
  pub unmarshal_token : String → Result TokenResponse
  pub unmarshal_introspection : String → Result IntrospectResponse
  pub decimal : ℕ → String

abbrev pub form_type : String
form_type = "application/x-www-form-urlencoded"

-- The value of a field of a form, "" where it is missing.
abbrev pub form_value : String → List (String × String) → String
form_value key values = elim (lookup key values) [ none ↦ "" | some v ↦ v ]

-- The request is a POST of the form.
pub record IsForm (req : HttpRequest) (values : List (String × String)) : Type 0 where
  pub method : req.method ≡ "POST"
  pub content_type : lookup "Content-Type" req.headers ≡ some form_type
  pub payload : req.payload ≡ form values

-- RFC 3339, in which a time is written, has the years 0 to 9999.
abbrev pub IsWritable : Time → Type 0
IsWritable t = (negsuc 62167219199999999999 ≤ℤ t) × (t <ℤ pos 253402300800000000000)

-- What is documented of the wire: a form arrives with its fields, Basic credentials arrive if the
-- name has no colon, a status arrives, and what a JSON encoder wrote is read back.
pub record IsFaithful (W : Wire) : Type 0 where
  pub content_type :
      (req : HttpRequest) (values : List (String × String))
      → IsForm req values
      → (W.received req).content_type ≡ form_type
  pub form_token_request :
      (req : HttpRequest) (values : List (String × String))
      → IsForm req values
      → (W.received req).form_token_request
        ≡ ok (record {
          grant_type = form_value "grant_type" values;
          client_id = form_value "client_id" values;
          client_secret = form_value "client_secret" values;
          resource = form_value "resource" values;
          scope = form_value "scope" values;
        })
  pub post_form :
      (req : HttpRequest) (values : List (String × String))
      → IsForm req values
      → (key : String) → (W.received req).post_form key ≡ form_value key values
  pub basic_auth :
      (req : HttpRequest) (name password : String)
      → contains name ":" ≡ false
      → req.basic_auth ≡ some (name, password)
      → (W.received req).basic_auth ≡ some (name, password)
  pub token_status : (r : Response TokenResponse) → (W.token r).status_code ≡ r.status
  pub token_body :
      (r : Response TokenResponse) (resp : TokenResponse)
      → r.body ≡ value resp
      → W.unmarshal_token (W.token r).body ≡ ok resp
  pub marshal : (req : RegisterClientRequest) → (body : String) × (W.marshal req ≡ ok body)
  pub json_register :
      (r : HttpRequest) (req : RegisterClientRequest) (body : String)
      → W.marshal req ≡ ok body
      → r.payload ≡ json body
      → (W.received r).json_register ≡ ok req
  pub registration_status :
      (r : Response RegisterClientResponse) → (W.registration r).status_code ≡ r.status
  pub registration_body :
      (r : Response RegisterClientResponse) (resp : RegisterClientResponse)
      → r.body ≡ value resp
      → IsWritable resp.created_at
      → W.unmarshal_registration (W.registration r).body ≡ ok resp
  pub introspection_status :
      (r : Response IntrospectResponse) → (W.introspection r).status_code ≡ r.status
  pub introspection_body :
      (r : Response IntrospectResponse) (resp : IntrospectResponse)
      → r.body ≡ value resp
      → W.unmarshal_introspection (W.introspection r).body ≡ ok resp
  pub empty_status : (r : Response (Unit {0})) → (W.empty r).status_code ≡ r.status

-- The first route with the method and the path.
unfoldable pub endpoint_of : String → String → List Route → Option Endpoint
endpoint_of method path [] = none
endpoint_of method path (r ∷ rest) =
    let found = endpoint_of method path rest in
    if (r.method == method) && (r.path == path) then some r.endpoint else found

module _ (W : Wire) (p : Platform) (S : Store) (svc : Service) (wall : ℕ → Time) where
  -- A request at an endpoint of the group /oauth.
  unfoldable pub deliver : Endpoint → HttpRequest → World S → HttpResponse × World S
  deliver clients req w =
      let (r, w') = register_client_handler p S svc (W.received req) w in (W.registration r, w')
  deliver tokens req w = let (r, w') = token_handler p S svc (W.received req) w in (W.token r, w')
  deliver introspection req w =
      let (r, w') = introspect_handler p S svc (W.received req) w in (W.introspection r, w')
  deliver revocation req w =
      let (r, w') = revoke_handler p S svc wall (W.received req) w in (W.empty r, w')
  deliver _ req w = (W.not_found, w)

  unfoldable pub send : HttpRequest → World S → Result HttpResponse × World S
  unfolding endpoint_of register_routes
  send req w = elim (endpoint_of req.method (W.path req.endpoint) (register_routes "/oauth")) [
    | none ↦ (ok W.not_found, w)
    | some e ↦ let (r, w') = deliver e req w in (ok r, w')
  ]

  -- The network with the server at its other end.
  abbrev pub connected : Network
  connected = record {
    State = World S;
    new_request = W.new_request;
    send = send;
    marshal = W.marshal;
    unmarshal_registration = W.unmarshal_registration;
    unmarshal_token = W.unmarshal_token;
    unmarshal_introspection = W.unmarshal_introspection;
    decimal = W.decimal;
  }
