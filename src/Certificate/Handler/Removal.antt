-- ===== src/Certificate/Handler/Removal.antt =====
-- How completing a challenge ends over any store, and what is left of the challenge.
use go_oauth_client_credenti.Common.{
  ◌≡◌, ◌≢◌, refl, ap, sym, ◌∙◌, ◌↔◌, inl, inr, ℕ, String, true, false, some, arith, eq_iff,
  Bool-cases, ◌==◌,
}
use go_oauth_client_credenti.Oauth2.Exec.{ok}
use go_oauth_client_credenti.Oauth2.Types.{Time}
use go_oauth_client_credenti.Oauth2.Http.{Response}
use go_oauth_client_credenti.Certificate.Model.{
  Certificate, CompleteChallengeRequest, Fault, challenge_not_found, Outcome,
  is_certificate_not_found, is_challenge_not_found, Outcome-cases, done, failed,
}
use go_oauth_client_credenti.Certificate.Store.{Store}
use go_oauth_client_credenti.Certificate.Store.Contract.{IsLawful}
use go_oauth_client_credenti.Certificate.Handler.{
  ApiRequest, Content, not_found, issued, finish, complete_challenge,
}

-- How the request ends once the challenge is removed, and the state that is left.
pub data Finished (S : Store) (id : String) (now : Time) (s : S.State) : ℕ → S.State → Type 0 where
  unknown_certificate :
      (e : Fault)
      → S.get_certificate id s ≡ failed e
      → is_certificate_not_found e ≡ true
      → Finished S id now s 404 s
  lookup_fault :
      (e : Fault)
      → S.get_certificate id s ≡ failed e
      → is_certificate_not_found e ≡ false
      → Finished S id now s 500 s
  certificate_fault :
      (cert : Certificate) (e : Fault) (t : S.State)
      → S.get_certificate id s ≡ done cert
      → S.save_certificate (some (issued cert now)) s ≡ (failed e, t)
      → Finished S id now s 500 t
  granted :
      (cert : Certificate) (t : S.State)
      → S.get_certificate id s ≡ done cert
      → S.save_certificate (some (issued cert now)) s ≡ (done tt, t)
      → Finished S id now s 200 t

-- A status with which the completion of a challenge ends, and the state that it leaves.
pub data Completed (S : Store) (id token : String) (now : Time) (s : S.State)
    : ℕ → S.State → Type 0 where
  unknown_token :
      (e : Fault) (t : S.State)
      → S.delete_challenge token s ≡ (failed e, t)
      → is_challenge_not_found e ≡ true
      → Completed S id token now s 404 t
  delete_fault :
      (e : Fault) (t : S.State)
      → S.delete_challenge token s ≡ (failed e, t)
      → is_challenge_not_found e ≡ false
      → Completed S id token now s 500 t
  removed :
      {k : ℕ} {u : S.State} (t : S.State)
      → S.delete_challenge token s ≡ (done tt, t)
      → Finished S id now t k u
      → Completed S id token now s k u

module _ (S : Store) (id : String) (now : Time) where
  finish-Finished :
      (s : S.State) → Finished S id now s (finish S id now s).0.status (finish S id now s).1
  unfolding finish
  finish-Finished s = elim (Outcome-cases (S.get_certificate id s)) [
    | inr (e, h) ↦ elim (Bool-cases (is_certificate_not_found e)) [
      | inl unknown ↦ rw (finish, h, unknown) (unknown_certificate e h unknown)
      | inr other ↦ rw (finish, h, other) (lookup_fault e h other)
    ]
    | inl (cert, h) ↦
        let saved = S.save_certificate (some (issued cert now)) s in
        elim (Outcome-cases saved.0) [
          | inl (a, g) ↦ rw (finish, h, g) (granted cert saved.1 h (ground (arith, g)))
          | inr (e, g) ↦ rw (finish, h, g) (certificate_fault cert e saved.1 h (ground (arith, g)))
        ]
  ]

  Finished-finish :
      {s u : S.State} {k : ℕ}
      → Finished S id now s k u
      → ((finish S id now s).0.status ≡ k) × ((finish S id now s).1 ≡ u)
  unfolding finish
  Finished-finish (unknown_certificate e h unknown) = rw (finish, h, unknown) (refl, refl)
  Finished-finish (lookup_fault e h other) = rw (finish, h, other) (refl, refl)
  Finished-finish (certificate_fault cert e t h g) =
      rw (finish, h, g) (refl, ap (λ (x : Outcome (Unit {0}) × S.State). x.1) g)
  Finished-finish (granted cert t h g) =
      rw (finish, h, g) (refl, ap (λ (x : Outcome (Unit {0}) × S.State). x.1) g)

module _ (S : Store) (now : Time) (c : ApiRequest) (s : S.State) (req : CompleteChallengeRequest)
    (named : c.param "id" ≢ "") (bound : c.json_complete ≡ ok req) (given : req.token ≢ "") where
  named_test : (c.param "id" == "") ≡ false
  named_test = ground (arith, eq_iff (c.param "id") "")

  given_test : (req.token == "") ≡ false
  given_test = ground (arith, eq_iff req.token "")

  complete_challenge-Ends :
      Completed S
        (c.param "id")
        req.token
        now
        s
        (complete_challenge S now c s).0.status
        (complete_challenge S now c s).1
  unfolding complete_challenge
  complete_challenge-Ends =
      let deleted = S.delete_challenge req.token s in
      elim (Outcome-cases deleted.0) [
        | inl (a, h) ↦
            rw (complete_challenge, named_test, bound, given_test, h)
              (removed deleted.1 (ground (arith, h))
                (finish-Finished S (c.param "id") now deleted.1))
        | inr (e, h) ↦ elim (Bool-cases (is_challenge_not_found e)) [
          | inl unknown ↦
              rw (complete_challenge, named_test, bound, given_test, h, unknown)
                (unknown_token e deleted.1 (ground (arith, h)) unknown)
          | inr other ↦
              rw (complete_challenge, named_test, bound, given_test, h, other)
                (delete_fault e deleted.1 (ground (arith, h)) other)
        ]
      ]

  complete_challenge-removed :
      (t : S.State)
      → S.delete_challenge req.token s ≡ (done tt, t)
      → complete_challenge S now c s ≡ finish S (c.param "id") now t
  unfolding complete_challenge
  complete_challenge-removed t h =
      rw (complete_challenge, named_test, bound, given_test, h)
        (ap (λ (x : Outcome (Unit {0}) × S.State). finish S (c.param "id") now x.1) h)

  complete_challenge-missing :
      S.delete_challenge req.token s ≡ (failed challenge_not_found, s)
      → complete_challenge S now c s ≡ (not_found "Challenge token not found", s)
  unfolding complete_challenge
  complete_challenge-missing h =
      rw (complete_challenge, named_test, bound, given_test, h)
        (ap (λ (x : Outcome (Unit {0}) × S.State). (not_found "Challenge token not found", x.1)) h)

  Completed-complete_challenge :
      {k : ℕ} {u : S.State}
      → Completed S (c.param "id") req.token now s k u
      → ((complete_challenge S now c s).0.status ≡ k) × ((complete_challenge S now c s).1 ≡ u)
  unfolding complete_challenge
  Completed-complete_challenge (unknown_token e t h unknown) =
      rw (complete_challenge, named_test, bound, given_test, h, unknown)
        (refl, ap (λ (x : Outcome (Unit {0}) × S.State). x.1) h)
  Completed-complete_challenge (delete_fault e t h other) =
      rw (complete_challenge, named_test, bound, given_test, h, other)
        (refl, ap (λ (x : Outcome (Unit {0}) × S.State). x.1) h)
  Completed-complete_challenge (removed t h rest) =
      rw (complete_challenge-removed t h) (Finished-finish S (c.param "id") now rest)

-- Over any store, whatever its calls answer, the completion of a challenge for a request with a
-- certificate id and a token ends with a status and a state exactly as follows. If the challenge is
-- not removed, the status is 404 or 500, as the error says that there is none or not. If it is
-- removed, the status is 404 for a certificate that is not found, 500 if the look for it fails
-- otherwise or the save of the issued certificate fails, and 200 if that is saved; the state is what
-- the last call left.
pub complete_challenge-Completed :
    (S : Store) (now : Time) (c : ApiRequest) (s : S.State) (req : CompleteChallengeRequest)
    → c.param "id" ≢ ""
    → c.json_complete ≡ ok req
    → req.token ≢ ""
    → (k : ℕ) (u : S.State)
    → Completed S (c.param "id") req.token now s k u
      ↔ (((complete_challenge S now c s).0.status ≡ k) × ((complete_challenge S now c s).1 ≡ u))
complete_challenge-Completed S now c s req named bound given k u = (
  Completed-complete_challenge S now c s req named bound given,
  λ (status, state).
      rw (← status, ← state) (complete_challenge-Ends S now c s req named bound given),
)

module _ (S : Store) (L : IsLawful S) (id : String) (now : Time) where
  -- The end of a completion leaves the challenges as they were.
  Finished-get_challenge :
      {k : ℕ} {s u : S.State} (token : String)
      → Finished S id now s k u
      → S.get_challenge token u ≡ S.get_challenge token s
  Finished-get_challenge token (unknown_certificate e h unknown) = refl
  Finished-get_challenge token (lookup_fault e h other) = refl
  Finished-get_challenge {s = s} token (certificate_fault cert e t h g) =
      ap (λ (x : Outcome (Unit {0}) × S.State). S.get_challenge token x.1) (sym g)
      ∙ L.save_certificate (issued cert now) token s
  Finished-get_challenge {s = s} token (granted cert t h g) =
      ap (λ (x : Outcome (Unit {0}) × S.State). S.get_challenge token x.1) (sym g)
      ∙ L.save_certificate (issued cert now) token s

-- Over a lawful store, a completion that removed the challenge leaves none for its token, also if it
-- then answered with an error because the certificate was not found or not saved. In any state that
-- has for the token what the completion left, a completion with the token, for whatever certificate,
-- answers that the token is not found, and changes nothing.
pub complete_challenge-once :
    (S : Store)
    → IsLawful S
    → (now later : Time) (c d : ApiRequest) (s t : S.State) (req again : CompleteChallengeRequest)
    → c.param "id" ≢ ""
    → c.json_complete ≡ ok req
    → req.token ≢ ""
    → S.delete_challenge req.token s ≡ (done tt, t)
    → d.param "id" ≢ ""
    → d.json_complete ≡ ok again
    → again.token ≡ req.token
    → (u : S.State)
    → S.get_challenge req.token u ≡ S.get_challenge req.token (complete_challenge S now c s).1
    → complete_challenge S later d u ≡ (not_found "Challenge token not found", u)
complete_challenge-once S L now later c d s t req again named bound given deleted named' bound' same
      u left =
    let rest = finish-Finished S (c.param "id") now t in
    let given' : again.token ≢ "" = λ e. given (sym same ∙ e) in
    let gone : S.get_challenge again.token u ≡ failed challenge_not_found = rw same (
      left
      ∙ ap (λ (o : Response Content × S.State). S.get_challenge req.token o.1)
          (complete_challenge-removed S now c s req named bound given t deleted)
      ∙ Finished-get_challenge S L (c.param "id") now req.token rest
      ∙ L.delete_challenge req.token s t deleted) in
    complete_challenge-missing S later d u again named' bound' given'
      (L.delete_missing again.token u gone)
