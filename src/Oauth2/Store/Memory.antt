-- ===== src/Oauth2/Store/Memory.antt =====
-- pkg/oauth2/store_memory.go. A method holds the store's lock from its first read to its last
-- write, so each is one step. Clients and tokens are copied on the way in and on the way out, so
-- that no caller shares a record with the map: values stand for them.
use go_oauth_client_credenti.Common.{String, Option, none, some, [], ◌==◌, if◌then◌else◌}
use go_oauth_client_credenti.Common.Dict.{Dict, lookup, insert}
use go_oauth_client_credenti.Oauth2.Error.{sentinel, invalid_client, token_not_found}
use go_oauth_client_credenti.Oauth2.Exec.{Result, ok, err}
use go_oauth_client_credenti.Oauth2.Types.{Client, Token, Time}
use go_oauth_client_credenti.Oauth2.Store.{Store}
use go_oauth_client_credenti.Oauth2.Store.Errors.{request_error}

pub record MemoryStore : Type 0 where
  pub clients : Dict Client
  pub tokens : Dict Token

abbrev pub new_memory_store : MemoryStore
new_memory_store = record { clients = []; tokens = [] }

unfoldable pub create_client : Option Client → MemoryStore → Result (Unit {0}) × MemoryStore
create_client none m = (err (request_error ": invalid client"), m)
create_client (some client) m =
    if client.id == ""
    then (err (request_error ": invalid client"), m)
    else elim (lookup client.id m.clients) [
      | some _ ↦ (err (request_error ": client already exists"), m)
      | none ↦ (ok tt, record m { clients = insert client.id client m.clients })
    ]

unfoldable pub get_client : String → MemoryStore → Result Client
get_client client_id m = elim (lookup client_id m.clients) [
  | none ↦ err (sentinel invalid_client)
  | some client ↦ ok client
]

unfoldable pub save_token : Option Token → MemoryStore → Result (Unit {0}) × MemoryStore
save_token none m = (err (request_error ": invalid token"), m)
save_token (some token) m =
    if token.token_hash == ""
    then (err (request_error ": invalid token"), m)
    else (ok tt, record m { tokens = insert token.token_hash token m.tokens })

unfoldable pub get_token_by_hash : String → MemoryStore → Result Token
get_token_by_hash token_hash m = elim (lookup token_hash m.tokens) [
  | none ↦ err (sentinel token_not_found)
  | some token ↦ ok token
]

-- The map holds a pointer, so the write to `RevokedAt` is one to the map's entry.
unfoldable pub revoke_token : Time → String → MemoryStore → Result (Unit {0}) × MemoryStore
revoke_token now token_hash m = elim (lookup token_hash m.tokens) [
  | none ↦ (err (sentinel token_not_found), m)
  | some token ↦ (
    ok tt,
    record m { tokens = insert token_hash (record token { revoked_at = some now }) m.tokens },
  )
]

abbrev pub memory_store : Store
memory_store = record {
  State = MemoryStore;
  create_client = create_client;
  get_client = get_client;
  save_token = save_token;
  get_token_by_hash = get_token_by_hash;
  revoke_token = revoke_token;
}
