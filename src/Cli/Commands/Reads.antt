-- ===== src/Cli/Commands/Reads.antt =====
-- Which flags an action reads.
use go_oauth_client_credenti.Common.{◌≡◌, refl, ℕ, String, All}
use go_oauth_client_credenti.Oauth2.Types.{Time}
use go_oauth_client_credenti.Client.Network.{Network}
use go_oauth_client_credenti.Cli.Declared.{
  Command, register, token, challenge_start, challenge_verify, challenge_complete, get_cert,
  introspect, revoke, call, Flag, declared,
}
use go_oauth_client_credenti.Cli.Shell.{Console, Shell}
use go_oauth_client_credenti.Cli.Commands.{
  Flags, resource_uri, register_action, token_action, challenge_start_action,
  challenge_verify_action, challenge_complete_action, get_cert_action, introspect_action,
  revoke_action, call_action, run,
}

-- Two command lines give the same value to every flag that a command declares.
abbrev pub IsAgreed : String → Command → Flags → Flags → Type 0
IsAgreed server_url cmd f g =
    All (λ (flag : Flag). f flag.name ≡ g flag.name) (declared server_url cmd)

module _ (N : Network) (K : Console N) (time_now : ℕ → Time) where
  -- A command reads no flag but those that it declares: two command lines that agree on these have
  -- the same outcome, with the same requests and the same output.
  pub run-IsAgreed :
      (server_url : String) (cmd : Command) (f g : Flags) (sh : Shell N.State)
      → IsAgreed server_url cmd f g
      → run N K time_now cmd f sh ≡ run N K time_now cmd g sh
  unfolding run declared register_action token_action challenge_start_action challenge_verify_action
      challenge_complete_action get_cert_action introspect_action revoke_action call_action
      resource_uri
  run-IsAgreed server_url register f g sh (url, (name, (resources, (scopes, _)))) =
      rw (url, name, resources, scopes) refl
  run-IsAgreed server_url token f g sh (url, (id, (secret, (resource, _)))) =
      rw (url, id, secret, resource) refl
  run-IsAgreed server_url challenge_start f g sh
        (url, (id, (secret, (cert, (domain, (text, (key, (base, _)))))))) =
      rw (url, id, secret, cert, domain, text, key, base) refl
  run-IsAgreed server_url challenge_verify f g sh (url, (text, _)) = rw (url, text) refl
  run-IsAgreed server_url challenge_complete f g sh
        (url, (id, (secret, (cert, (text, (base, _)))))) =
      rw (url, id, secret, cert, text, base) refl
  run-IsAgreed server_url get_cert f g sh (url, (id, (secret, (cert, (base, _))))) =
      rw (url, id, secret, cert, base) refl
  run-IsAgreed server_url introspect f g sh (url, (id, (secret, (text, _)))) =
      rw (url, id, secret, text) refl
  run-IsAgreed server_url revoke f g sh (url, (id, (secret, (text, _)))) =
      rw (url, id, secret, text) refl
  run-IsAgreed server_url call f g sh
        (url, (id, (secret, (resource, (method, (path, (body, _))))))) =
      rw (url, id, secret, resource, method, path, body) refl
