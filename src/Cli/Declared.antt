-- ===== src/Cli/Declared.antt =====
-- The commands of cmd/oauth-cli/main.go and the flags that they declare. Reading the command line is
-- the work of the package `cli`, which is not part of the repository.
use go_oauth_client_credenti.Common.{String, Bool, true, false, List, [], ◌∷◌, ◌==◌, if◌then◌else◌}

pub data Command : Type 0 where
  register token challenge_start challenge_verify challenge_complete : Command
  get_cert introspect revoke call : Command

abbrev pub command_name : Command → String
command_name register = "register"
command_name token = "token"
command_name challenge_start = "challenge-start"
command_name challenge_verify = "challenge-verify"
command_name challenge_complete = "challenge-complete"
command_name get_cert = "get-cert"
command_name introspect = "introspect"
command_name revoke = "revoke"
command_name call = "call"

-- `main`: the list `Commands`
abbrev pub commands : List Command
commands =
    register ∷ token ∷ challenge_start ∷ challenge_verify ∷ challenge_complete ∷ get_cert
    ∷ introspect ∷ revoke ∷ call ∷ []

-- A `cli.StringFlag` but for the text of its usage.
pub record Flag : Type 0 where
  pub name : String
  pub default : String
  pub required : Bool
  pub env_vars : List String

abbrev plain : String → String → Flag
plain name default = record { name = name; default = default; required = false; env_vars = [] }

abbrev needed : String → List String → Flag
needed name env_vars = record { name = name; default = ""; required = true; env_vars = env_vars }

-- `defaultServerURL`, given the variable SERVER_URL, which is "" where it is not set
unfoldable pub default_server_url : String → String
default_server_url u = if u == "" then "http://localhost:8080" else u

-- The flags that most commands begin with.
abbrev with_credentials : String → List Flag → List Flag
with_credentials server_url flags =
    plain "server-url" server_url
    ∷ needed "client-id" ("CLIENT_ID" ∷ [])
    ∷ needed "client-secret" ("CLIENT_SECRET" ∷ [])
    ∷ flags

abbrev resource_base_url : Flag
resource_base_url = plain "resource-base-url" "https://api.example.com"

-- The flags of each command, given `defaultServerURL()`
abbrev pub register_flags : String → List Flag
register_flags server_url =
    plain "server-url" server_url ∷ needed "name" [] ∷ plain "resources" "" ∷ plain "scopes" "" ∷ []

abbrev pub token_flags : String → List Flag
token_flags server_url = with_credentials server_url (plain "resource" "" ∷ [])

abbrev pub challenge_start_flags : String → List Flag
challenge_start_flags server_url = with_credentials server_url (
    needed "cert-id" []
    ∷ needed "domain" []
    ∷ needed "token" []
    ∷ needed "key-auth" []
    ∷ resource_base_url
    ∷ [])

abbrev pub challenge_verify_flags : String → List Flag
challenge_verify_flags server_url = plain "server-url" server_url ∷ needed "token" [] ∷ []

abbrev pub challenge_complete_flags : String → List Flag
challenge_complete_flags server_url =
    with_credentials server_url (needed "cert-id" [] ∷ needed "token" [] ∷ resource_base_url ∷ [])

abbrev pub get_cert_flags : String → List Flag
get_cert_flags server_url =
    with_credentials server_url (needed "cert-id" [] ∷ resource_base_url ∷ [])

abbrev pub introspect_flags : String → List Flag
introspect_flags server_url = with_credentials server_url (needed "token" [] ∷ [])

abbrev pub revoke_flags : String → List Flag
revoke_flags server_url = with_credentials server_url (needed "token" [] ∷ [])

abbrev pub call_flags : String → List Flag
call_flags server_url =
    with_credentials server_url
      (plain "resource" "" ∷ plain "method" "GET" ∷ needed "path" [] ∷ plain "body" "" ∷ [])

unfoldable pub declared : String → Command → List Flag
declared server_url register = register_flags server_url
declared server_url token = token_flags server_url
declared server_url challenge_start = challenge_start_flags server_url
declared server_url challenge_verify = challenge_verify_flags server_url
declared server_url challenge_complete = challenge_complete_flags server_url
declared server_url get_cert = get_cert_flags server_url
declared server_url introspect = introspect_flags server_url
declared server_url revoke = revoke_flags server_url
declared server_url call = call_flags server_url
