-- ===== src/Oauth2/Error.antt =====
-- The sentinel errors of pkg/oauth2/types.go, errors wrapped by `fmt.Errorf` with `%w`, and
-- `errors.Is`. An error of another package is known by its text alone.
use go_oauth_client_credenti.Common.{ℕ, String, Bool, false, eqb}
use go_oauth_client_credenti.Common.Text.{◌<>◌}

pub data Sentinel : Type 0 where
  invalid_request invalid_client invalid_grant invalid_target unauthorized_client : Sentinel
  token_not_found token_expired token_revoked resource_mismatch scope_mismatch : Sentinel

abbrev index : Sentinel → ℕ
index invalid_request = 0
index invalid_client = 1
index invalid_grant = 2
index invalid_target = 3
index unauthorized_client = 4
index token_not_found = 5
index token_expired = 6
index token_revoked = 7
index resource_mismatch = 8
index scope_mismatch = 9

-- `errors.New(text)`
abbrev pub sentinel_text : Sentinel → String
sentinel_text invalid_request = "invalid_request"
sentinel_text invalid_client = "invalid_client"
sentinel_text invalid_grant = "invalid_grant"
sentinel_text invalid_target = "invalid_target"
sentinel_text unauthorized_client = "unauthorized_client"
sentinel_text token_not_found = "token_not_found"
sentinel_text token_expired = "token_expired"
sentinel_text token_revoked = "token_revoked"
sentinel_text resource_mismatch = "resource_mismatch"
sentinel_text scope_mismatch = "scope_mismatch"

-- `wrapped before e after` is `fmt.Errorf("<before>%w<after>", e)`.
pub data Error : Type 0 where
  sentinel : Sentinel → Error
  wrapped : String → Error → String → Error
  foreign : String → Error

-- `err.Error()`
abbrev pub message : Error → String
message (sentinel s) = sentinel_text s
message (wrapped before e after) = before <> message e <> after
message (foreign text) = text

-- `errors.Is(err, target)`
abbrev pub is : Error → Sentinel → Bool
is (sentinel s) target = eqb (index s) (index target)
is (wrapped before e after) target = is e target
is (foreign text) target = false
