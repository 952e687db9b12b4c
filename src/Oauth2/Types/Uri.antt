-- ===== src/Oauth2/Types/Uri.antt =====
-- `ValidateAbsoluteURI` of pkg/oauth2/types.go
use go_oauth_client_credenti.Common.{String, ◌==◌, not, if◌then◌else◌}
use go_oauth_client_credenti.Common.Text.{◌<>◌}
use go_oauth_client_credenti.Oauth2.Error.{Error, sentinel, wrapped, invalid_target, message}
use go_oauth_client_credenti.Oauth2.Exec.{Result, ok, err}
use go_oauth_client_credenti.Oauth2.Types.Platform.{Platform}

-- `fmt.Errorf("%w: <text>", ErrInvalidTarget)`
abbrev target_error : String → Error
target_error text = wrapped "" (sentinel invalid_target) (": " <> text)

unfoldable pub validate_absolute_uri : Platform → String → Result (Unit {0})
validate_absolute_uri p raw_uri =
    if raw_uri == ""
    then err (target_error "resource URI cannot be empty")
    else elim (p.parse_url raw_uri) [
      | err e ↦ err (target_error ("failed to parse URI: " <> message e))
      | ok u ↦
          if u.scheme == ""
          then err (target_error "URI must be absolute (scheme required)")
          else if not (u.fragment == "")
          then err (target_error "URI must not contain a fragment component")
          else ok tt
    ]
