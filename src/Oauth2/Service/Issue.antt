-- ===== src/Oauth2/Service/Issue.antt =====
-- `IssueToken` of pkg/oauth2/service.go
pub mod Checks
pub mod Sound
pub mod Complete
pub mod Audit
use go_oauth_client_credenti.Common.{
  String, Bool, true, false, not, ◌&&◌, ◌||◌, Option, none, some, List, [], ◌∷◌, ◌==◌,
  if◌then◌else◌,
}
use go_oauth_client_credenti.Common.Int.{◌+ℤ◌}
use go_oauth_client_credenti.Common.Text.{◌<>◌, fields}
use go_oauth_client_credenti.Oauth2.Error.{
  Error, sentinel, wrapped, invalid_request, invalid_grant, invalid_client, invalid_target,
  scope_mismatch,
}
use go_oauth_client_credenti.Oauth2.Exec.{Result, ok, err, Exec, pure, raise, try, ◌>>=◌, ◌>>◌}
use go_oauth_client_credenti.Oauth2.Types.{Time, Client, Token, TokenRequest, TokenResponse}
use go_oauth_client_credenti.Oauth2.Types.Platform.{Platform}
use go_oauth_client_credenti.Oauth2.Types.Uri.{validate_absolute_uri}
use go_oauth_client_credenti.Oauth2.Store.{Store}
use go_oauth_client_credenti.Oauth2.Telemetry.{record_token_request}
use go_oauth_client_credenti.Oauth2.Service.{
  Service, World, token_entropy_len, read_clock, change, ask, observe,
}
use go_oauth_client_credenti.Oauth2.Service.Random.{generate_random_base64, compute_token_hash}

unfoldable pub contains_string : List String → String → Bool
contains_string [] s = false
contains_string (item ∷ slice) s = item == s || contains_string slice s

-- The test of the request's resource before the client is known.
unfoldable pub check_resource : Platform → String → Result (Unit {0})
check_resource p resource = if resource == "" then ok tt else validate_absolute_uri p resource

-- The test of the request's resource against the client's.
unfoldable pub resource_allowed : List String → String → Bool
unfolding contains_string
resource_allowed [] resource = true
resource_allowed (r ∷ allowed) resource =
    not (resource == "" || not (contains_string (r ∷ allowed) resource))

-- The loop over the requested scopes, false where it returns `ErrScopeMismatch`.
unfoldable pub scopes_contained : List String → List String → Bool
unfolding contains_string
scopes_contained allowed [] = true
scopes_contained allowed (sc ∷ scopes) =
    if not (contains_string allowed sc) then false else scopes_contained allowed scopes

unfoldable pub scope_allowed : List String → String → Bool
unfolding scopes_contained
scope_allowed [] scope = true
scope_allowed (a ∷ allowed) scope =
    if not (scope == "") then scopes_contained (a ∷ allowed) (fields scope) else true

module _ (p : Platform) (S : Store) (svc : Service) where
  -- `s.telemetry.RecordTokenRequest` with the fields of the request
  abbrev pub report : TokenRequest → String → Option Error → Exec (World S) (Unit {0})
  report req status e =
      observe S (record_token_request req.grant_type status req.client_id req.resource e)

  -- An early return: the telemetry is given one error, the caller another.
  abbrev pub reject : TokenRequest → String → Error → Error → Exec (World S) TokenResponse
  reject req status recorded returned = report req status (some recorded) >> raise returned

  abbrev pub make_token : Client → TokenRequest → String → Time → Token
  make_token client req opaque_token now = record {
    token_hash = compute_token_hash p opaque_token;
    client_id = client.id;
    resource = req.resource;
    scope = req.scope;
    expires_at = now +ℤ svc.token_ttl;
    created_at = now;
    revoked_at = none;
  }

  abbrev pub make_response : TokenRequest → String → TokenResponse
  make_response req opaque_token = record {
    access_token = opaque_token;
    token_type = "Bearer";
    expires_in = p.whole_seconds svc.token_ttl;
    resource = req.resource;
    scope = req.scope;
  }

  -- From `opaqueToken := "opq_" + rawToken` to the end.
  unfoldable pub store_token : Client → TokenRequest → String → Exec (World S) TokenResponse
  store_token client req raw_token = do
    let opaque_token = "opq_" <> raw_token
    now ← read_clock S svc
    saved ← try (change S (S.save_token (some (make_token client req opaque_token now))))
    elim saved [
      | err e ↦ reject req "internal_error" e (wrapped "failed to store token: " e "")
      | ok _ ↦ report req "ok" none >> pure (make_response req opaque_token)
    ]

  -- From the drawing of the token to the end.
  unfoldable pub mint : Client → TokenRequest → Exec (World S) TokenResponse
  mint client req = do
    drawn ← try (generate_random_base64 S token_entropy_len)
    elim drawn [
      | err e ↦ reject req "internal_error" e (wrapped "failed to generate token: " e "")
      | ok raw_token ↦ store_token client req raw_token
    ]

  -- The tests on a client that was found.
  unfoldable pub authorize : Client → TokenRequest → Exec (World S) TokenResponse
  authorize client req =
      if not (p.bcrypt_matches client.secret_hash req.client_secret)
      then reject req "invalid_client" (sentinel invalid_client) (sentinel invalid_client)
      else if not (resource_allowed client.allowed_resources req.resource)
      then reject req "unauthorized_resource" (sentinel invalid_target) (sentinel invalid_target)
      else if not (scope_allowed client.allowed_scopes req.scope)
      then reject req "unauthorized_scope" (sentinel scope_mismatch) (sentinel scope_mismatch)
      else mint client req

  abbrev pub no_request : TokenRequest
  no_request = record {
    grant_type = "";
    client_id = "";
    client_secret = "";
    resource = "";
    scope = "";
  }

  -- The service and the parameters of the request after the nil check.
  unfoldable pub issue_checked : TokenRequest → Exec (World S) TokenResponse
  issue_checked req =
      if not (req.grant_type == "client_credentials")
      then reject req "invalid_grant" (sentinel invalid_grant) (sentinel invalid_grant)
      else elim (check_resource p req.resource) [
        | err e ↦ reject req "invalid_resource" e e
        | ok _ ↦ do
          found ← try (ask S (S.get_client req.client_id))
          elim found [
            | err _ ↦
                reject req "invalid_client" (sentinel invalid_client) (sentinel invalid_client)
            | ok client ↦ authorize client req
          ]
      ]

  unfoldable pub issue_token : Option TokenRequest → Exec (World S) TokenResponse
  issue_token none = do
    read_clock S svc
    reject no_request "invalid_request" (sentinel invalid_request) (sentinel invalid_request)
  issue_token (some req) = do read_clock S svc; issue_checked req
