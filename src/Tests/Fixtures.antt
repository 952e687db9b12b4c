-- ===== src/Tests/Fixtures.antt =====
-- A platform, a service and a store with one client and one token.
use go_oauth_client_credenti.Common.{
  ◌≡◌, refl, ℕ, String, none, some, List, [], ◌∷◌, ◌==◌, true, false, ◌≢◌, arith, eq_iff, ◌+◌, ◌*◌,
  ◌++◌,
}
use go_oauth_client_credenti.Common.Int.{pos, floor_div}
use go_oauth_client_credenti.Common.Text.{◌<>◌}
use go_oauth_client_credenti.Oauth2.Exec.{ok}
use go_oauth_client_credenti.Oauth2.Types.{Time, Client, Token, TokenRequest, RegisterClientRequest}
use go_oauth_client_credenti.Oauth2.Types.Platform.{Platform}
use go_oauth_client_credenti.Oauth2.Store.Memory.{MemoryStore, memory_store, new_memory_store}
use go_oauth_client_credenti.Oauth2.Telemetry.{Telemetry}
use go_oauth_client_credenti.Oauth2.Service.{Service, World}
use go_oauth_client_credenti.Oauth2.Service.Random.{compute_token_hash}
use go_oauth_client_credenti.Oauth2.Service.Random.Reads.{Sums}
use Prim.Native.Char.{code}

abbrev pub eight : ℕ → List ℕ
eight b = b ∷ b ∷ b ∷ b ∷ b ∷ b ∷ b ∷ b ∷ []

abbrev pub bytes32 : List ℕ
bytes32 = eight 1 ++ eight 2 ++ eight 3 ++ eight 4

-- The character at index 4 of a text, which follows "opq_".
abbrev fifth : String → ℕ
fifth (String.◌∷◌ _ (String.◌∷◌ _ (String.◌∷◌ _ (String.◌∷◌ _ (String.◌∷◌ c _))))) = code c
fifth _ = 0

abbrev pub platform : Platform
platform = record {
  parse_url = λ _. ok (record { scheme = "https"; fragment = "" });
  quote = λ s. "\"" <> s <> "\"";
  sum256 = λ s. fifth s ∷ 0 ∷ 0 ∷ 0 ∷ 0 ∷ 0 ∷ 0 ∷ 0 ∷ eight 7 ++ eight 8 ++ eight 9;
  bcrypt_generate = λ _ password _. ok ("$2a$" <> password);
  bcrypt_matches = λ hash password. hash == "$2a$" <> password;
  whole_seconds = λ d. floor_div d 1000000000;
}

pub platform-Sums : Sums platform
platform-Sums text = refl

abbrev pub telemetry : Telemetry
telemetry = record {
  token_requests_total = some [];
  auth_checks_total = some [];
  token_durations = some 0;
  is_recording = true;
  spans = [];
  log = [];
}

-- A clock that goes on by one second with every reading.
abbrev pub clock : ℕ → Time
clock n = pos (1700000000000000000 + 1000000000 * n)

abbrev pub service : Service
service = record {
  telemetry = telemetry;
  token_ttl = pos 3600000000000;
  bcrypt_cost = pos 10;
  rand_reader = eight 255 ++ eight 254 ++ bytes32 ++ bytes32;
  now_func = clock;
}

abbrev pub certificate_uri : String
certificate_uri = "https://api.example.com/v1/certificates/cert-1"

abbrev pub acme_client : Client
acme_client = record {
  id = "client-1";
  secret_hash = "$2a$secret";
  name = "acme";
  allowed_resources = certificate_uri ∷ [];
  allowed_scopes = "read" ∷ "write" ∷ [];
  created_at = clock 0;
}

abbrev pub token_request : TokenRequest
token_request = record {
  grant_type = "client_credentials";
  client_id = "client-1";
  client_secret = "secret";
  resource = certificate_uri;
  scope = "write read";
}

abbrev pub live_token : Token
live_token = record {
  token_hash = compute_token_hash platform "opq_Zm9v";
  client_id = "client-1";
  resource = certificate_uri;
  scope = "read";
  expires_at = clock 60;
  created_at = clock 0;
  revoked_at = none;
}

abbrev pub store : MemoryStore
store = record {
  clients = ("client-1", acme_client) ∷ [];
  tokens = (compute_token_hash platform "opq_Zm9v", live_token) ∷ [];
}

abbrev pub world_of : MemoryStore → World memory_store
world_of s = record {
  store = s;
  rand_reader = service.rand_reader;
  telemetry = telemetry;
  ticks = 0;
  salts = 0;
}

abbrev pub world : World memory_store
world = world_of store

abbrev pub empty_world : World memory_store
empty_world = world_of new_memory_store

abbrev pub register_request : RegisterClientRequest
register_request = record {
  name = "acme";
  allowed_resources = certificate_uri ∷ [];
  allowed_scopes = "read" ∷ [];
}

pub differ : (s t : String) → (s == t) ≡ false → s ≢ t
differ s t h e = absurd (ground (arith, eq_iff s t))
