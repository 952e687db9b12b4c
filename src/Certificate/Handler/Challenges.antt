-- ===== src/Certificate/Handler/Challenges.antt =====
-- What the handlers do to challenges and certificates.
use go_oauth_client_credenti.Certificate.Store.{
  memory_certificates, MemoryStore, get_certificate, save_certificate, save_challenge,
}
use go_oauth_client_credenti.Common.{
  ◌≡◌, ◌≢◌, ◌⊎◌, inl, inr, String, Bool, none, some, arith, ◌==◌, eq_iff, ◌||◌, Bool-cases,
  Option-cases, if◌then◌else◌,
}
use go_oauth_client_credenti.Common.Dict.{lookup, insert, lookup-insert}
use go_oauth_client_credenti.Oauth2.Exec.{ok, Result-cases}
use go_oauth_client_credenti.Oauth2.Types.{Time}
use go_oauth_client_credenti.Certificate.Model.{Certificate, StartChallengeRequest}
use go_oauth_client_credenti.Certificate.Handler.{
  ApiRequest, pending_certificate, pending_challenge, provision, ensure_certificate,
  start_challenge,
}

-- The store after a challenge was started.
pub record IsStarted (cert_id : String) (req : StartChallengeRequest) (now : Time)
    (s s' : MemoryStore) : Type 0 where
  pub challenges :
      (j : String)
      → lookup j s'.challenges ≡ (
          if req.token == j
          then some (pending_challenge cert_id req now)
          else lookup j s.challenges)
  pub known :
      (cert : Certificate)
      → lookup cert_id s.certificates ≡ some cert
      → s'.certificates ≡ s.certificates
  pub unknown :
      lookup cert_id s.certificates ≡ none
      → s'.certificates ≡ insert cert_id (pending_certificate cert_id req now) s.certificates

ensure_certificate-IsStarted :
    (cert_id : String) (req : StartChallengeRequest) (now : Time) (s : MemoryStore)
    → ((ensure_certificate memory_certificates cert_id req now s).0.status ≡ 201)
      × IsStarted cert_id req now s (ensure_certificate memory_certificates cert_id req now s).1
unfolding ensure_certificate get_certificate save_certificate provision save_challenge
ensure_certificate-IsStarted cert_id req now s =
    elim (Option-cases (lookup cert_id s.certificates)) [
      | inl absent ↦ (
        ground arith,
        record {
          challenges = λ j. ground (
            arith,
            absent,
            lookup-insert req.token j (pending_challenge cert_id req now) s.challenges,
          );
          known = λ cert found. ground arith;
          unknown = λ _. ground arith;
        },
      )
      | inr (c, present) ↦ (
        ground arith,
        record {
          challenges = λ j. ground (
            arith,
            present,
            lookup-insert req.token j (pending_challenge cert_id req now) s.challenges,
          );
          known = λ cert found. ground arith;
          unknown = λ absent. ground arith;
        },
      )
    ]

-- Starting a challenge answers 201 exactly for a request with a certificate id and the three
-- fields; it then stores the challenge under its token, and a pending certificate if there was none
-- of that id. Otherwise it answers 400 and changes nothing.
pub start_challenge-outcome :
    (now : Time) (c : ApiRequest) (s : MemoryStore)
    → let out = start_challenge memory_certificates now c s in
      (((out.0.status ≡ 201)
          × ((req : StartChallengeRequest) × (c.param "id" ≢ "")
              × (c.json_start ≡ ok req)
              × (req.domain ≢ "")
              × (req.token ≢ "")
              × (req.key_authorization ≢ "")
              × IsStarted (c.param "id") req now s out.1))
        ⊎ ((out.0.status ≡ 400) × (out.1 ≡ s)))
unfolding start_challenge
start_challenge-outcome now c s = elim (Bool-cases (c.param "id" == "")) [
  | inl e ↦ inr (ground arith, ground arith)
  | inr named ↦ elim (Result-cases c.json_start) [
    | inr (e, malformed) ↦ inr (ground arith, ground arith)
    | inl (req, bound) ↦ elim (Bool-cases (missing req)) [
      | inl e ↦ inr (ground arith, ground arith)
      | inr e ↦
          let (created, stored) = ensure_certificate-IsStarted (c.param "id") req now s in
          inl (
            ground arith,
            (
              req,
              ground (arith, eq_iff (c.param "id") ""),
              bound,
              ground (arith, eq_iff req.domain ""),
              ground (arith, eq_iff req.token ""),
              ground (arith, eq_iff req.key_authorization ""),
              ground (arith, stored),
            ),
          )
    ]
  ]
]
  where
    missing : StartChallengeRequest → Bool
    missing req = req.domain == "" || req.token == "" || req.key_authorization == ""
