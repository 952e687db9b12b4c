-- ===== src/Cli/Commands/Outcome.antt =====
-- What the commands that call the protected API send and print.
use go_oauth_client_credenti.Common.{
  ◌≡◌, ℕ, suc, String, none, List, [], ◌∷◌, ◌++◌, arith, Option-cases, inl, inr,
}
use go_oauth_client_credenti.Common.Text.{◌<>◌}
use go_oauth_client_credenti.Common.Dict.{lookup}
use go_oauth_client_credenti.Oauth2.Error.{Error, wrapped}
use go_oauth_client_credenti.Oauth2.Exec.{Result, ok, err, Result-cases}
use go_oauth_client_credenti.Oauth2.Types.{Time, TokenResponse}
use go_oauth_client_credenti.Client.{Client, World}
use go_oauth_client_credenti.Client.Network.{Network, HttpRequest, HttpResponse}
use go_oauth_client_credenti.Client.Requests.{fetch_token}
use go_oauth_client_credenti.Client.Cache.{cached_token, refresh, get_token}
use go_oauth_client_credenti.Client.Transport.{
  new_transport, target_resource, authorized, round_trip, do_request,
}
use go_oauth_client_credenti.Client.Transport.Sent.{IsCarried, authorized-IsCarried}
use go_oauth_client_credenti.Cli.Shell.{Console, Shell, print_pretty_json, show_response}
use go_oauth_client_credenti.Cli.Commands.{perform}

module _ (N : Network) (K : Console N) (time_now : ℕ → Time) where
  -- The token request of a client that was just made.
  abbrev pub fetched : Client → String → Shell N.State → Result TokenResponse × World N.State
  fetched c target sh =
      fetch_token N c target (record { tokens = []; net = sh.net; ticks = suc sh.ticks })

  -- A token is asked for the target. If there is none, nothing else is sent and nothing is printed;
  -- else the request is sent once, as it is but for the token in its Authorization header. If it has no response nothing is
  -- printed; else its status is printed first, whatever it is.
  pub record IsPerformed (failure : String) (c : Client) (target : String) (req : HttpRequest)
      (sh : Shell N.State) (out : Result (Unit {0}) × Shell N.State) : Type 0 where
    pub no_token :
        (e : Error)
        → (fetched c target sh).0 ≡ err e
        → (out.0
            ≡ err (
                wrapped
                  (failure <> ": ")
                  (wrapped ("failed to acquire token for " <> K.quote target <> ": ") e "")
                  ""))
          × (out.1.net ≡ (fetched c target sh).1.net)
          × (out.1.out ≡ sh.out)
    pub sent :
        (resp : TokenResponse)
        → (fetched c target sh).0 ≡ ok resp
        → (posted : HttpRequest) × IsCarried req resp.access_token posted
          × (let answer = K.default_transport posted (fetched c target sh).1.net in
              (out.1.net ≡ answer.1)
              × ((e : Error)
                  → answer.0 ≡ err e
                  → (out.0 ≡ err (wrapped (failure <> ": ") e "")) × (out.1.out ≡ sh.out))
              × ((got : HttpResponse)
                  → answer.0 ≡ ok got
                  → (lines : List String) × (out.1.out
                      ≡ (sh.out ++ ("HTTP Status: " <> N.decimal got.status_code) ∷ []) ++ lines)))

  show_response-lines :
      (got : HttpResponse) (sh : Shell N.State)
      → (lines : List String) × ((show_response N K got sh).1.out
          ≡ (sh.out ++ ("HTTP Status: " <> N.decimal got.status_code) ∷ []) ++ lines)
        × ((show_response N K got sh).1.net ≡ sh.net)
  unfolding show_response print_pretty_json
  show_response-lines got sh = elim (Option-cases (K.unmarshal_value got.body)) [
    | inl e ↦ (got.body ∷ [], ground (arith, e), ground (arith, e))
    | inr (parsed, e) ↦ elim (Result-cases (K.indent_value parsed)) [
      | inl (b, shown) ↦ (b ∷ [], ground (arith, e, shown), ground (arith, e, shown))
      | inr (bad, failed) ↦ (
        [],
        ground (
          arith,
          e,
          failed,
          mathlib.Core.List.append-nil
              (sh.out ++ ("HTTP Status: " <> N.decimal got.status_code) ∷ []),
        ),
        ground (arith, e, failed),
      )
    ]
  ]

  -- `http.DefaultTransport`, which leaves the client's cache alone.
  abbrev base : HttpRequest → World N.State → Result HttpResponse × World N.State
  base sent w = let (r, net) = K.default_transport sent w.net in (r, record w { net = net })

  get_token-cold :
      (c : Client) (target : String) (sh : Shell N.State)
      → let w : World N.State = record { tokens = []; net = sh.net; ticks = sh.ticks } in
        ((e : Error)
          → (fetched c target sh).0 ≡ err e
          → get_token N c target w ≡ (err e, (fetched c target sh).1))
        × ((resp : TokenResponse)
            → (fetched c target sh).0 ≡ ok resp
            → ((get_token N c target w).0 ≡ ok resp.access_token)
              × ((get_token N c target w).1.net ≡ (fetched c target sh).1.net))
  unfolding get_token refresh cached_token lookup
  get_token-cold c target sh =
      (λ e failed. ground arith, λ resp found. (ground arith, ground arith))

  do_request-cold :
      (c : Client) (resource : String) (req : HttpRequest) (sh : Shell N.State)
      → let w : World N.State = record { tokens = []; net = sh.net; ticks = sh.ticks } in
        let target = target_resource resource req.url in
        let out = do_request K.quote N base none c req (resource ∷ []) w in
        ((e : Error)
          → (fetched c target sh).0 ≡ err e
          → (out.0 ≡ err (wrapped ("failed to acquire token for " <> K.quote target <> ": ") e ""))
            × (out.1.net ≡ (fetched c target sh).1.net))
        × ((resp : TokenResponse)
            → (fetched c target sh).0 ≡ ok resp
            → let answer =
                K.default_transport
                  (authorized req resp.access_token)
                  (fetched c target sh).1.net in
              (out.0 ≡ answer.0) × (out.1.net ≡ answer.1))
  unfolding do_request round_trip new_transport
  do_request-cold c resource req sh =
      let cold = get_token-cold c (target_resource resource req.url) sh in
      (λ e failed. ground (arith, cold.0 e failed), λ resp found. ground (arith, cold.1 resp found))

  pub perform-IsPerformed :
      (failure : String) (c : Client) (resource : String) (req : HttpRequest) (sh : Shell N.State)
      → IsPerformed failure c
          (target_resource resource req.url)
          req
          sh
          (perform N K time_now failure c resource req sh)
  unfolding perform
  perform-IsPerformed failure c resource req sh =
      let cold = do_request-cold c resource req sh in
      let w =
        (do_request K.quote N base none c req (resource ∷ [])
          (record { tokens = []; net = sh.net; ticks = sh.ticks })).1 in
      let called : Shell N.State = record sh { net = w.net; ticks = w.ticks } in
      record {
        no_token = λ e failed. ground (arith, cold.0 e failed);
        sent = λ resp found.
            let answer =
              K.default_transport (authorized req resp.access_token)
                (fetched c (target_resource resource req.url) sh).1.net in
            (
              authorized req resp.access_token,
              authorized-IsCarried req resp.access_token,
              (
                elim (Result-cases answer.0) [
                  | inl (got, answered) ↦
                      ground (arith, cold.1 resp found, (show_response-lines got called).2)
                  | inr (e, failed) ↦ ground (arith, cold.1 resp found)
                ],
                λ e failed. ground (arith, cold.1 resp found),
                λ got answered.
                    let (lines, shown, _) = show_response-lines got called in
                    (lines, ground (arith, cold.1 resp found, shown)),
              ),
            );
      }
