-- ===== src/Certificate/Handler/Faults.antt =====
-- How starting and completing a challenge end over any store, with an answer of the store that is
-- an error at every call where one can be.
use go_oauth_client_credenti.Common.{
  ◌≡◌, ◌≢◌, refl, ap, inl, inr, ◌↔◌, ◌||◌, ℕ, String, true, false, some, arith, eq_iff, Bool-cases,
  ◌==◌,
}
use go_oauth_client_credenti.Oauth2.Exec.{ok}
use go_oauth_client_credenti.Oauth2.Types.{Time}
use go_oauth_client_credenti.Certificate.Model.{
  Certificate, StartChallengeRequest, Fault, Outcome, is_certificate_not_found, Outcome-cases, done,
  failed,
}
use go_oauth_client_credenti.Certificate.Store.{Store}
use go_oauth_client_credenti.Certificate.Handler.{
  ApiRequest, pending_certificate, pending_challenge, provision, ensure_certificate,
  start_challenge,
}

-- The store has the certificate: it was found, or a pending one was saved.
pub data Prepared (S : Store) (id : String) (req : StartChallengeRequest) (now : Time) (s : S.State)
    : S.State → Type 0 where
  found : (cert : Certificate) → S.get_certificate id s ≡ done cert → Prepared S id req now s s
  added :
      (e : Fault) (t : S.State)
      → S.get_certificate id s ≡ failed e
      → is_certificate_not_found e ≡ true
      → S.save_certificate (some (pending_certificate id req now)) s ≡ (done tt, t)
      → Prepared S id req now s t

-- A status with which the start of a challenge ends, and the state that it leaves.
pub data Started (S : Store) (id : String) (req : StartChallengeRequest) (now : Time) (s : S.State)
    : ℕ → S.State → Type 0 where
  created :
      (t u : S.State)
      → Prepared S id req now s t
      → S.save_challenge (some (pending_challenge id req now)) t ≡ (done tt, u)
      → Started S id req now s 201 u
  lookup_fault :
      (e : Fault)
      → S.get_certificate id s ≡ failed e
      → is_certificate_not_found e ≡ false
      → Started S id req now s 500 s
  certificate_fault :
      (e f : Fault) (t : S.State)
      → S.get_certificate id s ≡ failed e
      → is_certificate_not_found e ≡ true
      → S.save_certificate (some (pending_certificate id req now)) s ≡ (failed f, t)
      → Started S id req now s 500 t
  challenge_fault :
      (e : Fault) (t u : S.State)
      → Prepared S id req now s t
      → S.save_challenge (some (pending_challenge id req now)) t ≡ (failed e, u)
      → Started S id req now s 500 u

module _ (S : Store) (id : String) (req : StartChallengeRequest) (now : Time) where
  provision-Started :
      (s t : S.State)
      → Prepared S id req now s t
      → Started S id req now s (provision S id req now t).0.status (provision S id req now t).1
  unfolding provision
  provision-Started s t ready = elim (Outcome-cases saved.0) [
    | inl (a, e) ↦ rw (provision, e) (created t saved.1 ready (ground (arith, e)))
    | inr (f, e) ↦ rw (provision, e) (challenge_fault f t saved.1 ready (ground (arith, e)))
  ]
    where
      saved : Outcome (Unit {0}) × S.State
      saved = S.save_challenge (some (pending_challenge id req now)) t

  ensure_certificate-Started :
      (s : S.State)
      → Started S id req now s
          (ensure_certificate S id req now s).0.status
          (ensure_certificate S id req now s).1
  unfolding ensure_certificate
  ensure_certificate-Started s = elim (Outcome-cases (S.get_certificate id s)) [
    | inl (cert, e) ↦ rw (ensure_certificate, e) (provision-Started s s (found cert e))
    | inr (f, e) ↦ elim (Bool-cases (is_certificate_not_found f)) [
      | inr other ↦ rw (ensure_certificate, e, other) (lookup_fault f e other)
      | inl unknown ↦ elim (Outcome-cases saved.0) [
        | inl (a, h) ↦
            rw (ensure_certificate, e, unknown, h)
              (provision-Started s saved.1 (added f saved.1 e unknown (ground (arith, h))))
        | inr (g, h) ↦
            rw (ensure_certificate, e, unknown, h)
              (certificate_fault f g saved.1 e unknown (ground (arith, h)))
      ]
    ]
  ]
    where
      saved : Outcome (Unit {0}) × S.State
      saved = S.save_certificate (some (pending_certificate id req now)) s

  -- The handler from the look for the certificate on: the status and the state are these.
  Ends : (s : S.State) → ℕ → S.State → Type 0
  Ends s k u =
      ((ensure_certificate S id req now s).0.status ≡ k)
      × ((ensure_certificate S id req now s).1 ≡ u)

  ensure_certificate-Prepared :
      {s t : S.State}
      → Prepared S id req now s t
      → ensure_certificate S id req now s ≡ provision S id req now t
  unfolding ensure_certificate
  ensure_certificate-Prepared (found cert e) = rw (ensure_certificate, e) refl
  ensure_certificate-Prepared (added f t e unknown h) =
      rw (ensure_certificate, e, unknown, h)
        (ap (λ (x : Outcome (Unit {0}) × S.State). provision S id req now x.1) h)

  Started-Ends : {s u : S.State} {k : ℕ} → Started S id req now s k u → Ends s k u
  unfolding Ends ensure_certificate provision
  Started-Ends (created t u ready h) =
      rw (ensure_certificate-Prepared ready, provision, h)
        (refl, ap (λ (x : Outcome (Unit {0}) × S.State). x.1) h)
  Started-Ends (lookup_fault e h other) = rw (ensure_certificate, h, other) (refl, refl)
  Started-Ends (certificate_fault e f t h unknown g) =
      rw (ensure_certificate, h, unknown, g)
        (refl, ap (λ (x : Outcome (Unit {0}) × S.State). x.1) g)
  Started-Ends (challenge_fault e t u ready h) =
      rw (ensure_certificate-Prepared ready, provision, h)
        (refl, ap (λ (x : Outcome (Unit {0}) × S.State). x.1) h)

start_challenge-ensure_certificate :
    (S : Store) (now : Time) (c : ApiRequest) (s : S.State) (req : StartChallengeRequest)
    → c.param "id" ≢ ""
    → c.json_start ≡ ok req
    → (req.domain == "" || req.token == "" || req.key_authorization == "") ≡ false
    → start_challenge S now c s ≡ ensure_certificate S (c.param "id") req now s
unfolding start_challenge
start_challenge-ensure_certificate S now c s req named bound given =
    let id : (c.param "id" == "") ≡ false = ground (arith, eq_iff (c.param "id") "") in
    rw (start_challenge, id, bound, given) refl

-- Over any store, whatever its calls answer, the start of a challenge for a request with a
-- certificate id, a domain, a token and a key authorization ends with a status and a state exactly
-- as follows. The status is 201 if the certificate was found or a pending one was saved, and the
-- challenge was saved; it is 500 if the look for the certificate failed otherwise than by not
-- finding it, and nothing was written, or if the first save that was made and failed is the one of
-- the certificate or the one of the challenge, and the state is what that save left.
pub start_challenge-Started :
    (S : Store) (now : Time) (c : ApiRequest) (s : S.State) (req : StartChallengeRequest)
    → c.param "id" ≢ ""
    → c.json_start ≡ ok req
    → (req.domain == "" || req.token == "" || req.key_authorization == "") ≡ false
    → (k : ℕ) (u : S.State)
    → Started S (c.param "id") req now s k u
      ↔ (((start_challenge S now c s).0.status ≡ k) × ((start_challenge S now c s).1 ≡ u))
unfolding Ends
start_challenge-Started S now c s req named bound given k u =
    let same = start_challenge-ensure_certificate S now c s req named bound given in
    let ended = ensure_certificate-Started S (c.param "id") req now s in
    (
      λ h. rw same (Started-Ends S (c.param "id") req now h),
      λ (status, state). rw (← status, ← state, same) ended,
    )
