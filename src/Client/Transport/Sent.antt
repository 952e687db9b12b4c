-- ===== src/Client/Transport/Sent.antt =====
-- What the transport sends.
use go_oauth_client_credenti.Common.{◌≡◌, refl, ◌≢◌, String, some, arith, eq_iff}
use go_oauth_client_credenti.Common.Text.{◌<>◌}
use go_oauth_client_credenti.Common.Dict.{lookup, lookup-insert}
use go_oauth_client_credenti.Oauth2.Middleware.{bearer_token}
use go_oauth_client_credenti.Client.Network.{Network, HttpRequest}
use go_oauth_client_credenti.Client.Transport.{Transport, authorized}

-- The request that goes out is the one of the caller with the token in its Authorization header.
pub record IsCarried (req : HttpRequest) (token : String) (sent : HttpRequest) : Type 0 where
  pub method : sent.method ≡ req.method
  pub endpoint : sent.endpoint ≡ req.endpoint
  pub url : sent.url ≡ req.url
  pub basic_auth : sent.basic_auth ≡ req.basic_auth
  pub payload : sent.payload ≡ req.payload
  pub authorization : lookup "Authorization" sent.headers ≡ some ("Bearer " <> token)
  pub others :
      (name : String) → name ≢ "Authorization" → lookup name sent.headers ≡ lookup name req.headers

pub authorized-IsCarried :
    (req : HttpRequest) (token : String) → IsCarried req token (authorized req token)
authorized-IsCarried req token = record {
  method = refl;
  endpoint = refl;
  url = refl;
  basic_auth = refl;
  payload = refl;
  authorization = rw lookup-insert refl;
  others = λ name other. ground (
    arith,
    lookup-insert "Authorization" name ("Bearer " <> token) req.headers,
    eq_iff "Authorization" name,
  );
}

-- The middleware reads the token from the request that goes out.
abbrev pub IsBearer : HttpRequest → String → HttpRequest → Type 0
IsBearer req token sent =
    IsCarried req token sent
    × ((value : String) × (lookup "Authorization" sent.headers ≡ some value)
        × (bearer_token value ≡ some token))
