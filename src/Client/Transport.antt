-- ===== src/Client/Transport.antt =====
-- pkg/oauth2/client/transport.go
pub mod Sent
use go_oauth_client_credenti.Common.{String, Option, none, some, List, [], ◌∷◌, ◌==◌, if◌then◌else◌}
use go_oauth_client_credenti.Common.Int.{ℤ}
use go_oauth_client_credenti.Common.Dict.{insert}
use go_oauth_client_credenti.Common.Text.{◌<>◌}
use go_oauth_client_credenti.Oauth2.Error.{wrapped}
use go_oauth_client_credenti.Oauth2.Exec.{ok, err, Exec}
use go_oauth_client_credenti.Client.{Client, World}
use go_oauth_client_credenti.Client.Network.{Network, HttpRequest, HttpResponse, RequestUrl}
use go_oauth_client_credenti.Client.Cache.{get_token}

-- `http.RoundTripper`
abbrev pub RoundTripper : Network → Type 0
RoundTripper N = HttpRequest → Exec (World N.State) HttpResponse

pub record Transport (N : Network) : Type 0 where
  pub client : Client
  pub base : RoundTripper N
  pub resource_uri : String

-- `NewTransport`, given `http.DefaultTransport`
unfoldable pub new_transport :
    (N : Network) → RoundTripper N → Client → Option (RoundTripper N) → List String → Transport N
new_transport N default_transport c base resource_uris = record {
  client = c;
  base = elim base [ none ↦ default_transport | some b ↦ b ];
  resource_uri = elim resource_uris [ [] ↦ "" | res ∷ _ ↦ res ];
}

-- The resource of the transport, or else the URL of the request with neither query nor fragment.
unfoldable pub target_resource : String → Option RequestUrl → String
target_resource resource_uri none = resource_uri
target_resource resource_uri (some u) =
    if resource_uri == "" then u.scheme <> "://" <> u.host <> u.path else resource_uri

-- The clone of the request with its Authorization header.
abbrev pub authorized : HttpRequest → String → HttpRequest
authorized req token = record req {
  headers = insert "Authorization" ("Bearer " <> token) req.headers;
}

module _ (quote : String → String) (N : Network) where
  unfoldable pub round_trip : Transport N → RoundTripper N
  round_trip t req w =
      let target = target_resource t.resource_uri req.url in
      let (r, w') = get_token N t.client target w in
      elim r [
        | err e ↦ (err (wrapped ("failed to acquire token for " <> quote target <> ": ") e ""), w')
        | ok token ↦ t.base (authorized req token) w'
      ]

  -- `Do`, given the transport of the underlying HTTP client
  unfoldable pub do_request :
      RoundTripper N
      → Option (RoundTripper N)
      → Client
      → HttpRequest
      → List String
      → Exec (World N.State) HttpResponse
  unfolding round_trip
  do_request default_transport base c req resource_uris =
      round_trip (new_transport N default_transport c base resource_uris) req

-- An `http.Client`, as far as `HTTPClient` fills it.
pub record HttpClient (N : Network) : Type 0 where
  pub transport : Transport N
  pub timeout : ℤ

-- `HTTPClient`, given the transport and the timeout of the underlying HTTP client
unfoldable pub http_client :
    (N : Network)
    → RoundTripper N
    → Option (RoundTripper N)
    → ℤ
    → Client
    → List String
    → HttpClient N
unfolding new_transport
http_client N default_transport base timeout c resource_uris = record {
  transport = new_transport N default_transport c base resource_uris;
  timeout = timeout;
}
