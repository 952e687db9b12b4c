-- ===== src/Cli.antt =====
-- What cmd/oauth-cli/main.go makes of the flags of the command register; the rest of the tool is in
-- the modules below.
pub mod Flags
pub mod Declared
pub mod Shell
pub mod Commands
use go_oauth_client_credenti.Common.{String, not, List, [], ◌∷◌, ◌==◌, if◌then◌else◌}
use go_oauth_client_credenti.Common.Text.{split, fields, trim_space}
use go_oauth_client_credenti.Oauth2.Types.{RegisterClientRequest}

-- The loop over the parts between the commas.
unfoldable pub trimmed_parts : List String → List String
trimmed_parts [] = []
trimmed_parts (r ∷ parts) =
    let rest = trimmed_parts parts in
    let tr = trim_space r in if not (tr == "") then tr ∷ rest else rest

unfoldable pub parse_resources : String → List String
parse_resources raw = if not (raw == "") then trimmed_parts (split b',' raw) else []

unfoldable pub parse_scopes : String → List String
parse_scopes raw_scopes = if not (raw_scopes == "") then fields raw_scopes else []

-- The request, from the flags name, resources and scopes.
unfoldable pub register_request : String → String → String → RegisterClientRequest
register_request name resources scopes = record {
  name = name;
  allowed_resources = parse_resources resources;
  allowed_scopes = parse_scopes scopes;
}
