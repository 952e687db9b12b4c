-- ===== src/Certificate/Handler/Acknowledged.antt =====
-- What a challenge whose start was answered with 201 is good for, over any lawful store.
use go_oauth_client_credenti.Common.{
  ◌≡◌, ◌≢◌, refl, inl, inr, ℕ, String, false, ◌||◌, arith, eq_iff, Bool-cases, ◌==◌,
}
use go_oauth_client_credenti.Oauth2.Exec.{ok}
use go_oauth_client_credenti.Oauth2.Types.{Time}
use go_oauth_client_credenti.Certificate.Model.{StartChallengeRequest, Http01Challenge, done}
use go_oauth_client_credenti.Certificate.Store.{Store}
use go_oauth_client_credenti.Certificate.Store.Contract.{IsLawful}
use go_oauth_client_credenti.Certificate.Handler.{
  ApiRequest, start_challenge, serve_acme_challenge, pending_challenge,
}
use go_oauth_client_credenti.Certificate.Handler.Completion.{served}
use go_oauth_client_credenti.Certificate.Handler.Faults.{Started, created, start_challenge-Started}

-- The request has a certificate id and the three fields.
abbrev IsGiven : ApiRequest → StartChallengeRequest → Type 0
IsGiven c req =
    (c.param "id" ≢ "")
    × ((req.domain == "" || req.token == "" || req.key_authorization == "") ≡ false)

refused : {A : Type 0} (k : ℕ) → k ≡ 400 → k ≡ 201 → A
refused k e f = absurd (omega arith)

start_challenge-IsGiven :
    (S : Store) (now : Time) (c : ApiRequest) (s : S.State) (req : StartChallengeRequest)
    → c.json_start ≡ ok req
    → (start_challenge S now c s).0.status ≡ 201
    → IsGiven c req
unfolding start_challenge
start_challenge-IsGiven S now c s req bound answered = elim (Bool-cases (c.param "id" == "")) [
  | inl e ↦ refused (start_challenge S now c s).0.status (rw (start_challenge, e) refl) answered
  | inr named ↦
      elim (Bool-cases (req.domain == "" || req.token == "" || req.key_authorization == "")) [
        | inl e ↦
            refused (start_challenge S now c s).0.status
              (rw (start_challenge, named, bound, e) refl) answered
        | inr given ↦ (ground (arith, eq_iff (c.param "id") ""), given)
      ]
]

Started-get_challenge :
    (S : Store)
    → IsLawful S
    → (id : String) (req : StartChallengeRequest) (now : Time) (s u : S.State) (k : ℕ)
    → Started S id req now s k u
    → k ≡ 201
    → S.get_challenge req.token u ≡ done (pending_challenge id req now)
Started-get_challenge S L id req now s u k (created t _ ready h) e =
    L.save_challenge (pending_challenge id req now) t u h
Started-get_challenge S L id req now s u k _ e = absurd (omega arith)

serve_acme_challenge-found :
    (S : Store) (d : ApiRequest) (u : S.State) (ch : Http01Challenge)
    → d.param "token" ≢ ""
    → S.get_challenge (d.param "token") u ≡ done ch
    → serve_acme_challenge S d u ≡ served ch.key_authorization
unfolding serve_acme_challenge
serve_acme_challenge-found S d u ch given found =
    let given' : (d.param "token" == "") ≡ false = ground (arith, eq_iff (d.param "token") "") in
    rw (serve_acme_challenge, given', found) refl

-- Over a lawful store, a challenge whose start is answered with 201 is served: the public endpoint
-- answers its token with its key authorization.
pub serve_acme_challenge-created :
    (S : Store)
    → IsLawful S
    → (now : Time) (c d : ApiRequest) (s : S.State) (req : StartChallengeRequest)
    → c.json_start ≡ ok req
    → (start_challenge S now c s).0.status ≡ 201
    → d.param "token" ≡ req.token
    → serve_acme_challenge S d (start_challenge S now c s).1 ≡ served req.key_authorization
serve_acme_challenge-created S L now c d s req bound answered asked =
    let out = start_challenge S now c s in
    let (named, given) = start_challenge-IsGiven S now c s req bound answered in
    let ends =
      (start_challenge-Started S now c s req named bound given out.0.status out.1).1 (refl, refl) in
    let stored =
      Started-get_challenge S L (c.param "id") req now s out.1 out.0.status ends answered in
    let given' : d.param "token" ≢ "" = λ e. ground (arith, given, asked, e, eq_iff req.token "") in
    serve_acme_challenge-found S d out.1 (pending_challenge (c.param "id") req now) given'
      (rw asked stored)
