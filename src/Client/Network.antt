-- ===== src/Client/Network.antt =====
-- `net/http` and `encoding/json`, which are not part of the repository: sending a request, and
-- reading what comes back. A form is the `url.Values` that the client encodes.
use go_oauth_client_credenti.Common.{ℕ, String, Option, List}
use go_oauth_client_credenti.Common.Dict.{Dict}
use go_oauth_client_credenti.Oauth2.Exec.{Result}
use go_oauth_client_credenti.Oauth2.Types.{
  RegisterClientRequest, RegisterClientResponse, TokenResponse, IntrospectResponse,
}

pub data Payload : Type 0 where
  no_payload : Payload
  form : List (String × String) → Payload
  json : String → Payload

-- The parts of `req.URL` that the transport reads.
pub record RequestUrl : Type 0 where
  pub scheme : String
  pub host : String
  pub path : String

pub record HttpRequest : Type 0 where
  pub method : String
  pub endpoint : String
  pub url : Option RequestUrl
  pub headers : Dict String
  pub basic_auth : Option (String × String)
  pub payload : Payload

pub record HttpResponse : Type 0 where
  pub status_code : ℕ
  pub body : String

pub record Network : Type 1 where
  -- The other side.
  pub State : Type 0
  -- `http.NewRequestWithContext`: the error, if there is one, of a method and an endpoint
  pub new_request : String → String → Result (Option RequestUrl)
  -- `httpClient.Do` with the body that `io.ReadAll` returns
  pub send : HttpRequest → State → Result HttpResponse × State
  -- `json.Marshal` and `json.Unmarshal`
  pub marshal : RegisterClientRequest → Result String
  pub unmarshal_registration : String → Result RegisterClientResponse
  pub unmarshal_token : String → Result TokenResponse
  pub unmarshal_introspection : String → Result IntrospectResponse
  -- the decimal digits of a status, the verb `%d`
  pub decimal : ℕ → String
