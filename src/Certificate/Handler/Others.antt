-- ===== src/Certificate/Handler/Others.antt =====
-- What a call for one certificate leaves of the others.
use go_oauth_client_credenti.Certificate.Store.{memory_certificates, MemoryStore}
use go_oauth_client_credenti.Common.{◌≡◌, refl, ap, String, false, ◌==◌, inl, inr, Option-cases}
use go_oauth_client_credenti.Common.Dict.{lookup, lookup-insert}
use go_oauth_client_credenti.Oauth2.Types.{Time}
use go_oauth_client_credenti.Certificate.Handler.{ApiRequest, start_challenge, complete_challenge}
use go_oauth_client_credenti.Certificate.Handler.Challenges.{start_challenge-outcome}
use go_oauth_client_credenti.Certificate.Handler.Completion.{complete_challenge-cases}
use go_oauth_client_credenti.Certificate.Handler.Invariant.{IsIndexed}

pub start_challenge-others :
    (now : Time) (c : ApiRequest) (s : MemoryStore) (k : String)
    → (c.param "id" == k) ≡ false
    → lookup k (start_challenge memory_certificates now c s).1.certificates
      ≡ lookup k s.certificates
start_challenge-others now c s k other = elim (start_challenge-outcome now c s) [
  | inr (_, same) ↦ ap (λ (m : MemoryStore). lookup k m.certificates) same
  | inl (_, (req, _, _, _, _, _, stored)) ↦
      elim (Option-cases (lookup (c.param "id") s.certificates)) [
        | inr (cert, known) ↦ ap (lookup k) (stored.known cert known)
        | inl unknown ↦ rw (stored.unknown unknown, lookup-insert, other) refl
      ]
]

pub complete_challenge-others :
    (now : Time) (c : ApiRequest) (s : MemoryStore) (k : String)
    → IsIndexed s
    → (c.param "id" == k) ≡ false
    → lookup k (complete_challenge memory_certificates now c s).1.certificates
      ≡ lookup k s.certificates
complete_challenge-others now c s k inv other = elim (complete_challenge-cases now c s) [
  | inl same ↦ ap (λ (m : MemoryStore). lookup k m.certificates) same
  | inr (req, done) ↦ elim (Option-cases (lookup req.token s.challenges)) [
    | inl absent ↦ ap (λ (m : MemoryStore). lookup k m.certificates) (done.unknown_token absent).1
    | inr (ch, found) ↦ elim (Option-cases (lookup (c.param "id") s.certificates)) [
      | inl absent ↦ ap (lookup k) (done.unknown_certificate ch found absent).2
      | inr (cert, present) ↦
          let key : cert.id ≡ c.param "id" = inv.certificate_key (c.param "id") cert present in
          rw ((done.granted ch cert found present).2, lookup-insert, key, other) refl
    ]
  ]
]
