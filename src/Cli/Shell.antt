-- ===== src/Cli/Shell.antt =====
-- What the commands of cmd/oauth-cli/main.go read and write besides the network: the lines on the
-- standard output, and the JSON that they print.
use go_oauth_client_credenti.Common.{ℕ, String, Option, none, some, List, [], ◌∷◌, ◌++◌}
use go_oauth_client_credenti.Common.Text.{◌<>◌}
use go_oauth_client_credenti.Oauth2.Error.{message}
use go_oauth_client_credenti.Oauth2.Exec.{Result, ok, err, Exec, ◌>>◌}
use go_oauth_client_credenti.Oauth2.Types.{RegisterClientResponse, IntrospectResponse}
use go_oauth_client_credenti.Client.{World}
use go_oauth_client_credenti.Client.Network.{Network, HttpRequest, HttpResponse}

-- `encoding/json`, `net/http` and `%q`, as far as the commands call them.
pub record Console (N : Network) : Type 1 where
  -- what `json.Unmarshal` puts into an `any`
  pub Value : Type 0
  pub unmarshal_value : String → Option Value
  -- `json.Marshal` of a map of strings, which has no error
  pub marshal_strings : List (String × String) → String
  -- `json.MarshalIndent(v, "", "  ")`
  pub indent_value : Value → Result String
  pub indent_registration : RegisterClientResponse → Result String
  pub indent_introspection : IntrospectResponse → Result String
  -- `http.Get`: the response and its Content-Type
  pub get : String → N.State → Result (HttpResponse × String) × N.State
  -- `http.DefaultTransport`
  pub default_transport : HttpRequest → N.State → Result HttpResponse × N.State
  pub quote : String → String

-- The other side of the network, how often the clock was read, and the lines printed.
pub record Shell (S : Type 0) : Type 0 where
  pub net : S
  pub ticks : ℕ
  pub out : List String

module _ (S : Type 0) where
  -- `fmt.Println(line)`, or `fmt.Printf` of a line
  abbrev pub print : String → Exec (Shell S) (Unit {0})
  print line sh = (ok tt, record sh { out = sh.out ++ line ∷ [] })

  -- `printPrettyJSON`, given what `json.MarshalIndent` returns
  unfoldable pub print_pretty_json : Result String → Exec (Shell S) (Unit {0})
  print_pretty_json (err e) sh = (err e, sh)
  print_pretty_json (ok b) sh = print b sh

module _ (N : Network) (K : Console N) where
  -- A method of a client that was just made, so that its cache is empty.
  abbrev pub with_client : {A : Type 0} → Exec (World N.State) A → Exec (Shell N.State) A
  with_client m sh =
      let (r, w) = m (record { tokens = []; net = sh.net; ticks = sh.ticks }) in
      (r, record sh { net = w.net; ticks = w.ticks })

  -- A call of `net/http` that the commands make themselves.
  abbrev pub with_net : {A : Type 0} → (N.State → Result A × N.State) → Exec (Shell N.State) A
  with_net m sh = let (r, net) = m sh.net in (r, record sh { net = net })

  -- The status, and the body, indented where it is JSON.
  unfoldable pub show_response : HttpResponse → Exec (Shell N.State) (Unit {0})
  show_response resp = do
    print N.State ("HTTP Status: " <> N.decimal resp.status_code)
    elim (K.unmarshal_value resp.body) [
      | some parsed ↦ print_pretty_json N.State (K.indent_value parsed)
      | none ↦ print N.State resp.body
    ]

-- The end of `main`: the exit status and the line on the standard error.
unfoldable pub exit : Result (Unit {0}) → ℕ × List String
exit (ok _) = (0, [])
exit (err e) = (1, ("Error: " <> message e) ∷ [])
