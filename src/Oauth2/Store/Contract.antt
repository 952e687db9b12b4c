-- ===== src/Oauth2/Store/Contract.antt =====
-- What the service relies on: a store is two maps, of clients by id and of tokens by hash, and
-- each method does to the maps what its comment in pkg/oauth2/store.go says.
use go_oauth_client_credenti.Common.{String, ◌≡◌, Option, none, some, ◌==◌, if◌then◌else◌}
use go_oauth_client_credenti.Oauth2.Error.{sentinel, invalid_client, token_not_found}
use go_oauth_client_credenti.Oauth2.Exec.{Result, ok, err}
use go_oauth_client_credenti.Oauth2.Types.{Client, Token, Time}
use go_oauth_client_credenti.Oauth2.Store.{Store}
use go_oauth_client_credenti.Oauth2.Store.Errors.{request_error}

-- The two maps, with no order and no representation.
pub record Maps : Type 0 where
  pub client_at : String → Option Client
  pub token_at : String → Option Token

abbrev pub found_client : Option Client → Result Client
found_client none = err (sentinel invalid_client)
found_client (some c) = ok c

abbrev pub found_token : Option Token → Result Token
found_token none = err (sentinel token_not_found)
found_token (some t) = ok t

abbrev pub update {ℓ} : {V : Type ℓ} → (String → Option V) → String → V → String → Option V
update m k v j = if k == j then some v else m j

abbrev pub add_client : Client → Maps → Result (Unit {0}) × Maps
add_client c m =
    if c.id == "" then (err (request_error ": invalid client"), m) else elim (m.client_at c.id) [
      | some _ ↦ (err (request_error ": client already exists"), m)
      | none ↦ (ok tt, record m { client_at = update m.client_at c.id c })
    ]

abbrev pub put_token : Token → Maps → Result (Unit {0}) × Maps
put_token t m =
    if t.token_hash == ""
    then (err (request_error ": invalid token"), m)
    else (ok tt, record m { token_at = update m.token_at t.token_hash t })

abbrev pub mark_revoked : Time → String → Maps → Result (Unit {0}) × Maps
mark_revoked now h m = elim (m.token_at h) [
  | none ↦ (err (sentinel token_not_found), m)
  | some t ↦
      (ok tt, record m { token_at = update m.token_at h (record t { revoked_at = some now }) })
]

-- A store behaves as the two maps of its states.
pub record IsLawful (S : Store) : Type 0 where
  pub maps : S.State → Maps
  pub create_client-maps :
      (c : Client) (s : S.State)
      → let (r, s') = S.create_client (some c) s in
        ◌≡◌ {A = Result Unit × Maps} (r, maps s') (add_client c (maps s))
  pub get_client-maps :
      (id : String) (s : S.State) → S.get_client id s ≡ found_client ((maps s).client_at id)
  pub save_token-maps :
      (t : Token) (s : S.State)
      → let (r, s') = S.save_token (some t) s in
        ◌≡◌ {A = Result Unit × Maps} (r, maps s') (put_token t (maps s))
  pub get_token-maps :
      (h : String) (s : S.State) → S.get_token_by_hash h s ≡ found_token ((maps s).token_at h)
  pub revoke_token-maps :
      (now : Time) (h : String) (s : S.State)
      → let (r, s') = S.revoke_token now h s in
        ◌≡◌ {A = Result Unit × Maps} (r, maps s') (mark_revoked now h (maps s))
