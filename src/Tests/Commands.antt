-- ===== src/Tests/Commands.antt =====
-- The theorems on the commands, on a network that answers every request.
use go_oauth_client_credenti.Common.{refl, ℕ, suc, String, none, some, [], ◌==◌, if◌then◌else◌}
use go_oauth_client_credenti.Common.Text.{◌<>◌, trim_right_slash}
use go_oauth_client_credenti.Oauth2.Exec.{ok}
use go_oauth_client_credenti.Client.{Client}
use go_oauth_client_credenti.Client.Network.{HttpRequest}
use go_oauth_client_credenti.Server.{complete, resource_extractor}
use go_oauth_client_credenti.Cli.Declared.{challenge_complete}
use go_oauth_client_credenti.Cli.Shell.{Console, Shell}
use go_oauth_client_credenti.Cli.Commands.{Flags, run}
use go_oauth_client_credenti.Cli.Commands.Outcome.{IsPerformed}
use go_oauth_client_credenti.Cli.Commands.Certificates.{IsRequest, IsClient, run-IsPerformed}
use go_oauth_client_credenti.Tests.Fixtures.{clock}
use go_oauth_client_credenti.Tests.Client.{network}
use go_oauth_client_credenti.Tests.Web.{context}

abbrev console : Console network
console = record {
  Value = String;
  unmarshal_value = λ body. some body;
  marshal_strings = λ _. "{}";
  indent_value = λ v. ok v;
  indent_registration = λ r. ok r.client_id;
  indent_introspection = λ _. ok "{}";
  get = λ _ n. (ok (record { status_code = 200; body = "abc.key" }, "text/plain"), suc n);
  default_transport = λ _ n. (ok (record { status_code = 200; body = "{}" }), suc n);
  quote = λ s. "\"" <> s <> "\"";
}

abbrev flags : Flags
flags name =
    if name == "cert-id"
    then "cert-1"
    else if name == "resource-base-url"
    then "https://api.example.com"
    else if name == "server-url"
    then "http://localhost:8080/"
    else "abc"

abbrev shell : Shell ℕ
shell = record { net = 0; ticks = 0; out = [] }

run-IsPerformed_example :
    (req : HttpRequest) × (client : Client) × IsRequest
      (λ _. "{}")
      complete
      flags
      (trim_right_slash "http://localhost:8080/"
        <> "/v1/certificates/cert-1/challenges/http-01/complete")
      none
      req
    × IsClient clock flags client
    × IsPerformed network console clock "API call failed" client
        (resource_extractor "https://api.example.com" context)
        req
        shell
        (run network console clock challenge_complete flags shell)
run-IsPerformed_example =
    run-IsPerformed network console clock complete flags context none shell refl refl
