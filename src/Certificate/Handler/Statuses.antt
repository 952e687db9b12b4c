-- ===== src/Certificate/Handler/Statuses.antt =====
-- How calls of the handlers change a certificate.

use go_oauth_client_credenti.Certificate.Store.{memory_certificates, MemoryStore}
use go_oauth_client_credenti.Common.{
  ◌≡◌, refl, ap, ◌∙◌, ◌⊎◌, inl, inr, String, some, true, ◌==◌, eq_iff, Bool-cases, Option-cases,
}
use go_oauth_client_credenti.Common.Dict.{lookup, lookup-insert}
use go_oauth_client_credenti.Oauth2.Types.{Time}
use go_oauth_client_credenti.Certificate.Model.{Certificate}
use go_oauth_client_credenti.Certificate.Handler.{
  ApiRequest, start_challenge, issued, complete_challenge,
}
use go_oauth_client_credenti.Certificate.Handler.Challenges.{start_challenge-outcome}
use go_oauth_client_credenti.Certificate.Handler.Completion.{complete_challenge-cases}
use go_oauth_client_credenti.Certificate.Handler.Invariant.{IsIndexed}
use go_oauth_client_credenti.Certificate.Handler.Others.{
  start_challenge-others, complete_challenge-others,
}

-- The same certificate, at the same status or issued.
pub record IsLater (c d : Certificate) : Type 0 where
  pub id : d.id ≡ c.id
  pub domain : d.domain ≡ c.domain
  pub created_at : d.created_at ≡ c.created_at
  pub status : (d.status ≡ c.status) ⊎ (d.status ≡ "issued")

pub IsLater-refl : (c : Certificate) → IsLater c c
IsLater-refl c = record { id = refl; domain = refl; created_at = refl; status = inl refl }

pub IsLater-trans : {b c d : Certificate} → IsLater b c → IsLater c d → IsLater b d
IsLater-trans first second = record {
  id = second.id ∙ first.id;
  domain = second.domain ∙ first.domain;
  created_at = second.created_at ∙ first.created_at;
  status = elim second.status [
    | inr done ↦ inr done
    | inl same ↦ elim first.status [ inl e ↦ inl (same ∙ e) | inr e ↦ inr (same ∙ e) ]
  ];
}

issued-IsLater : (c : Certificate) (now : Time) → IsLater c (issued c now)
issued-IsLater c now = record { id = refl; domain = refl; created_at = refl; status = inr refl }

-- The certificate under the key is still there.
abbrev pub Holds : String → Certificate → MemoryStore → Type 0
Holds k c s = (d : Certificate) × (lookup k s.certificates ≡ some d) × IsLater c d

Holds-same :
    (k : String) (c : Certificate) (s s' : MemoryStore)
    → lookup k s'.certificates ≡ lookup k s.certificates
    → lookup k s.certificates ≡ some c
    → Holds k c s'
Holds-same k c s s' same found = (c, same ∙ found, IsLater-refl c)

pub start_challenge-Holds :
    (now : Time) (r : ApiRequest) (s : MemoryStore) (k : String) (c : Certificate)
    → lookup k s.certificates ≡ some c
    → Holds k c (start_challenge memory_certificates now r s).1
start_challenge-Holds now r s k c found = elim (Bool-cases (r.param "id" == k)) [
  | inr other ↦
      Holds-same k c s (start_challenge memory_certificates now r s).1
        (start_challenge-others now r s k other) found
  | inl this ↦ elim (start_challenge-outcome now r s) [
    | inr (_, same) ↦
        Holds-same k c s (start_challenge memory_certificates now r s).1
          (ap (λ (m : MemoryStore). lookup k m.certificates) same) found
    | inl (_, (req, _, _, _, _, _, stored)) ↦
        let key : r.param "id" ≡ k = (eq_iff (r.param "id") k).0 this in
        let known : lookup (r.param "id") s.certificates ≡ some c = rw key found in
        Holds-same k c s (start_challenge memory_certificates now r s).1
          (ap (lookup k) (stored.known c known)) found
  ]
]

pub complete_challenge-Holds :
    (now : Time) (r : ApiRequest) (s : MemoryStore) (k : String) (c : Certificate)
    → IsIndexed s
    → lookup k s.certificates ≡ some c
    → Holds k c (complete_challenge memory_certificates now r s).1
complete_challenge-Holds now r s k c inv found =
    let s' = (complete_challenge memory_certificates now r s).1 in
    elim (Bool-cases (r.param "id" == k)) [
      | inr other ↦ Holds-same k c s s' (complete_challenge-others now r s k inv other) found
      | inl this ↦ elim (complete_challenge-cases now r s) [
        | inl same ↦
            Holds-same k c s s' (ap (λ (m : MemoryStore). lookup k m.certificates) same) found
        | inr (req, done) ↦ elim (Option-cases (lookup req.token s.challenges)) [
          | inl absent ↦
              Holds-same k c s s'
                (ap (λ (m : MemoryStore). lookup k m.certificates) (done.unknown_token absent).1)
                found
          | inr (ch, stored) ↦
              let id : r.param "id" ≡ k = (eq_iff (r.param "id") k).0 this in
              let present : lookup (r.param "id") s.certificates ≡ some c = rw id found in
              let key : (c.id == k) ≡ true = (eq_iff c.id k).1 (inv.certificate_key k c found) in
              (
                issued c now,
                rw ((done.granted ch c stored present).2, lookup-insert, key) refl,
                issued-IsLater c now,
              )
        ]
      ]
    ]
