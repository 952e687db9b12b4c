-- ===== src/Tests/Client.antt =====
-- The theorems on the client, against a server that counts its requests.
use go_oauth_client_credenti.Common.{◌≡◌, ℕ, suc, false, none, [], ◌∷◌, arith}
use go_oauth_client_credenti.Common.Int.{pos}
use go_oauth_client_credenti.Oauth2.Error.{foreign}
use go_oauth_client_credenti.Oauth2.Exec.{ok, err}
use go_oauth_client_credenti.Oauth2.Types.{TokenResponse}
use go_oauth_client_credenti.Client.{Client, CachedToken, World}
use go_oauth_client_credenti.Client.Network.{Network, HttpRequest, no_payload}
use go_oauth_client_credenti.Client.Cache.{is_fresh, local_expiry}
use go_oauth_client_credenti.Client.Transport.{Transport}
use go_oauth_client_credenti.Client.Cache.Fresh.{IsSensible, local_expiry-wraps}
use go_oauth_client_credenti.Tests.Fixtures.{clock}

abbrev pub response : TokenResponse
response = record {
  access_token = "opq_Zm9v";
  token_type = "Bearer";
  expires_in = pos 3600;
  resource = "";
  scope = "";
}

abbrev pub network : Network
network = record {
  State = ℕ;
  new_request = λ _ _. ok none;
  send = λ _ n. (ok (record { status_code = 200; body = "{}" }), suc n);
  marshal = λ _. ok "{}";
  unmarshal_registration = λ _. err (foreign "EOF");
  unmarshal_token = λ _. ok response;
  unmarshal_introspection = λ _. err (foreign "EOF");
  decimal = λ _. "200";
}

abbrev pub client : Client
client = record {
  config = record {
    server_url = "https://auth.example.com/";
    client_id = "client-1";
    client_secret = "secret";
    expiry_buffer = pos 0;
  };
  expiry_buffer = pos 30000000000;
  now_func = clock;
}

client-IsSensible : IsSensible client
client-IsSensible = record { above = omega arith; below = omega arith }

abbrev pub cold : World ℕ
cold = record { tokens = []; net = 0; ticks = 0 }

abbrev entry : CachedToken
entry = record { access_token = "opq_YmFy"; expires_at = clock 60 }

abbrev warm : World ℕ
warm = record { tokens = ("https://a", entry) ∷ []; net = 0; ticks = 0 }

local_expiry-wraps_example :
    is_fresh client
      (clock 5)
      (record { access_token = "opq_Zm9v"; expires_at = local_expiry (clock 0) (pos 10000000000) })
    ≡ false
local_expiry-wraps_example =
    local_expiry-wraps client (clock 0) 10000000000 (clock 5) "opq_Zm9v" client-IsSensible
      (omega arith) (omega arith) (omega arith)

abbrev transport : Transport network
transport = record {
  client = client;
  base = λ _ w. (ok (record { status_code = 200; body = "done" }), w);
  resource_uri = "https://a";
}

abbrev http_request : HttpRequest
http_request = record {
  method = "GET";
  endpoint = "https://a/v1";
  url = none;
  headers = ("Accept", "*/*") ∷ [];
  basic_auth = none;
  payload = no_payload;
}
