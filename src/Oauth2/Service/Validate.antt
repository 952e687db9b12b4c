-- ===== src/Oauth2/Service/Validate.antt =====
-- `ValidateToken`, `IntrospectToken` and `RevokeToken` of pkg/oauth2/service.go
pub mod Live
pub mod Revoked
use go_oauth_client_credenti.Common.{
  ℕ, suc, String, Bool, true, false, ◌||◌, ◌&&◌, not, ◌==◌, if◌then◌else◌,
}
use go_oauth_client_credenti.Common.Int.{pos}
use go_oauth_client_credenti.Oauth2.Error.{
  Error, sentinel, wrapped, is, invalid_request, token_not_found, token_expired, token_revoked,
}
use go_oauth_client_credenti.Oauth2.Exec.{Result, ok, err, Exec, pure, raise, try, ◌>>=◌, ◌>>◌}
use go_oauth_client_credenti.Oauth2.Types.{
  Time, Token, is_expired, is_revoked, unix, IntrospectResponse,
}
use go_oauth_client_credenti.Oauth2.Types.Platform.{Platform}
use go_oauth_client_credenti.Oauth2.Store.{Store}
use go_oauth_client_credenti.Oauth2.Service.{Service, World, read_clock, change, ask}
use go_oauth_client_credenti.Oauth2.Service.Random.{compute_token_hash}

-- Whether the error is one of the four that mean an inactive token.
unfoldable pub is_inactive : Error → Bool
is_inactive e =
    is e token_not_found || is e token_expired || is e token_revoked || is e invalid_request

abbrev pub inactive : IntrospectResponse
inactive = record {
  active = false;
  client_id = "";
  resource = "";
  scope = "";
  exp = pos 0;
  token_type = "";
}

abbrev pub active_response : Token → IntrospectResponse
active_response token = record {
  active = true;
  client_id = token.client_id;
  resource = token.resource;
  scope = token.scope;
  exp = unix token.expires_at;
  token_type = "Bearer";
}

module _ (p : Platform) (S : Store) (svc : Service) where
  -- The tests on a token that was found.
  unfoldable pub judge : Token → Time → Exec (World S) Token
  judge token now =
      if is_revoked token
      then raise (sentinel token_revoked)
      else if is_expired token now
      then raise (sentinel token_expired)
      else pure token

  unfoldable pub validate_token : String → Exec (World S) Token
  unfolding judge
  validate_token raw_token = if raw_token == "" then raise (sentinel invalid_request) else do
    found ← try (ask S (S.get_token_by_hash (compute_token_hash p raw_token)))
    elim found [
      | err e ↦
          if is e token_not_found
          then raise (sentinel token_not_found)
          else raise (wrapped "failed to retrieve token: " e "")
      | ok token ↦ do now ← read_clock S svc; judge token now
    ]

  unfoldable pub introspect_token : String → Exec (World S) IntrospectResponse
  introspect_token raw_token = do
    checked ← try (validate_token raw_token)
    elim checked [
      | err e ↦ if is_inactive e then pure inactive else raise e
      | ok token ↦ pure (active_response token)
    ]

  -- `wall` gives the times of `time.Now`, which the store reads.
  unfoldable pub revoke_token : (ℕ → Time) → String → Exec (World S) (Unit {0})
  revoke_token wall raw_token = if raw_token == "" then pure tt else do
    now ← λ w. (ok (wall w.ticks), record w { ticks = suc w.ticks })
    done ← try (change S (S.revoke_token now (compute_token_hash p raw_token)))
    elim done [
      | err e ↦
          if not (is e token_not_found)
          then raise (wrapped "failed to revoke token: " e "")
          else pure tt
      | ok _ ↦ pure tt
    ]
