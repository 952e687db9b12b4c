-- ===== src/Tests/Callers.antt =====
-- The theorems on the callers of `GetToken`: two callers of a client whose clock stands still.
use go_oauth_client_credenti.Common.{◌≡◌, refl, ◌⊎◌, ℕ, String, none, arith}
use go_oauth_client_credenti.Common.Int.{◌+ℤ◌, wrap64, scale}
use go_oauth_client_credenti.Common.Text.{trim_right_slash, trim_right}
use go_oauth_client_credenti.Common.Dict.{lookup}
use go_oauth_client_credenti.Oauth2.Exec.{Result, ok}
use go_oauth_client_credenti.Client.{Client}
use go_oauth_client_credenti.Client.Requests.{post_form, fetch_token}
use go_oauth_client_credenti.Client.Cache.{local_expiry}
use go_oauth_client_credenti.Client.Cache.Fresh.{IsSensible}
use go_oauth_client_credenti.Client.Cache.Callers.{
  Callers, called, returned, Interleaved, begun, more, advance,
}
use go_oauth_client_credenti.Client.Cache.Callers.Once.{IsCalm, Interleaved-once}
use go_oauth_client_credenti.Tests.Fixtures.{clock}
use go_oauth_client_credenti.Tests.Client.{network, client, cold, response}

abbrev still : Client
still = record client { now_func = λ _. clock 0 }

abbrev at_first : Callers network
at_first = record { phases = λ _. called; world = cold }

abbrev go : ℕ → Callers network → Callers network
go = advance network still "https://a"

-- Both look before either goes on.
abbrev at_last : Callers network
at_last = go 1 (go 0 (go 1 (go 0 (go 1 (go 0 at_first)))))

abbrev steps : Interleaved network still "https://a" at_first at_last
steps = more (more (more (more (more (more begun 0) 1) 0) 1) 0) 1

still-IsSensible : IsSensible still
still-IsSensible = record { above = omega arith; below = omega arith }

still-IsCalm : IsCalm network still "https://a" cold response
unfolding local_expiry wrap64 scale ◌+ℤ◌
still-IsCalm = λ m n. omega arith

absent : lookup "https://a" cold.tokens ≡ none
unfolding lookup
absent = refl

asked : (fetch_token network still "https://a" cold).0 ≡ ok response
unfolding fetch_token post_form trim_right_slash trim_right
asked = refl

Interleaved-once_example :
    ((i : ℕ) (r : Result String) → at_last.phases i ≡ returned r → r ≡ ok "opq_Zm9v")
    × ((at_last.world.net ≡ 0)
        ⊎ (at_last.world.net ≡ (fetch_token network still "https://a" cold).1.net))
Interleaved-once_example =
    Interleaved-once network still "https://a" cold response at_last still-IsSensible asked
      still-IsCalm absent steps
