-- ===== src/Certificate/Handler/Invariant.antt =====
-- What holds of the certificate store after any calls of the handlers.
use go_oauth_client_credenti.Certificate.Store.{memory_certificates, MemoryStore, new_memory_store}
use go_oauth_client_credenti.Common.{
  ◌≡◌, ◌⊎◌, inl, inr, String, some, arith, ◌==◌, eq_iff, eq_refl, Bool-cases, Option-cases,
}
use go_oauth_client_credenti.Common.Dict.{Dict, lookup, insert, erase, lookup-insert, lookup-erase}
use go_oauth_client_credenti.Oauth2.Types.{Time}
use go_oauth_client_credenti.Oauth2.Http.{Response}
use go_oauth_client_credenti.Certificate.Model.{Certificate, Http01Challenge, StartChallengeRequest}
use go_oauth_client_credenti.Certificate.Handler.{
  ApiRequest, Content, pending_certificate, pending_challenge, start_challenge, issued,
  complete_challenge,
}
use go_oauth_client_credenti.Certificate.Handler.Challenges.{IsStarted, start_challenge-outcome}
use go_oauth_client_credenti.Certificate.Handler.Completion.{complete_challenge-cases, IsCompleted}

-- Records stand under their own keys, and every challenge is one of a certificate that is stored.
pub record IsIndexed (s : MemoryStore) : Type 0 where
  pub certificate_key : (k : String) (c : Certificate) → lookup k s.certificates ≡ some c → c.id ≡ k
  pub challenge_key :
      (j : String) (ch : Http01Challenge) → lookup j s.challenges ≡ some ch → ch.token ≡ j
  pub owner :
      (j : String) (ch : Http01Challenge)
      → lookup j s.challenges ≡ some ch
      → (c : Certificate) × (lookup ch.certificate_id s.certificates ≡ some c)

-- A call that changes the store, at the time that it reads.
pub data Call : Type 0 where
  start complete : Time → ApiRequest → Call

unfoldable pub after : Call → MemoryStore → MemoryStore
after (start now c) s = (start_challenge memory_certificates now c s).1
after (complete now c) s = (complete_challenge memory_certificates now c s).1

-- The stores that calls reach from an empty one.
pub data Reachable : MemoryStore → Type 0 where
  here : Reachable new_memory_store
  next : {s : MemoryStore} → Reachable s → (c : Call) → Reachable (after c s)

-- Adding to the certificates under the id of the one that is added keeps them found.
still_there :
    (c : Certificate) (k : String) (m : Dict Certificate) (d : Certificate)
    → lookup k m ≡ some d
    → (e : Certificate) × (lookup k (insert c.id c m) ≡ some e)
still_there c k m d h = elim (Bool-cases (c.id == k)) [
  | inl e ↦ (c, rw (lookup-insert, e))
  | inr e ↦ (d, rw (lookup-insert, e) h)
]

IsKeyed : Dict Certificate → Type 0
IsKeyed m = (k : String) (c : Certificate) → lookup k m ≡ some c → c.id ≡ k

insert-IsKeyed : (c : Certificate) (m : Dict Certificate) → IsKeyed m → IsKeyed (insert c.id c m)
unfolding IsKeyed
insert-IsKeyed c m keyed k d h = ground (arith, lookup-insert c.id k c m, eq_iff c.id k, keyed k d)

-- A change that keeps the certificates that are found, and adds only challenges of certificates that
-- are found.
changed-IsIndexed :
    (s s' : MemoryStore)
    → IsIndexed s
    → IsKeyed s'.certificates
    → ((k : String) (d : Certificate)
        → lookup k s.certificates ≡ some d
        → (e : Certificate) × (lookup k s'.certificates ≡ some e))
    → ((j : String) (ch : Http01Challenge)
        → lookup j s'.challenges ≡ some ch
        → (lookup j s.challenges ≡ some ch)
          ⊎ ((ch.token ≡ j)
              × ((e : Certificate) × (lookup ch.certificate_id s'.certificates ≡ some e))))
    → IsIndexed s'
unfolding IsKeyed
changed-IsIndexed s s' inv keyed kept added = record {
  certificate_key = keyed;
  challenge_key =
      λ j ch h. elim (added j ch h) [ inl old ↦ inv.challenge_key j ch old | inr (key, _) ↦ key ];
  owner = λ j ch h. elim (added j ch h) [
    | inl old ↦ let (d, found) = inv.owner j ch old in kept ch.certificate_id d found
    | inr (_, owned) ↦ owned
  ];
}

started-IsIndexed :
    (cert_id : String) (req : StartChallengeRequest) (now : Time) (s s' : MemoryStore)
    → IsStarted cert_id req now s s'
    → IsIndexed s
    → IsIndexed s'
unfolding IsKeyed
started-IsIndexed cert_id req now s s' st inv =
    elim (Option-cases (lookup cert_id s.certificates)) [
      | inr (c, present) ↦
          let same : s'.certificates ≡ s.certificates = st.known c present in
          changed-IsIndexed s s' inv (rw same inv.certificate_key) (λ k d h. (d, rw same h))
            (added c (rw same present))
      | inl absent ↦
          let c = pending_certificate cert_id req now in
          let same = st.unknown absent in
          changed-IsIndexed s s' inv (rw same (insert-IsKeyed c s.certificates inv.certificate_key))
            (λ k d h. rw same (still_there c k s.certificates d h))
            (added c (rw (same, lookup-insert) (rw eq_refl)))
    ]
  where
    added :
        (c : Certificate)
        → lookup cert_id s'.certificates ≡ some c
        → (j : String) (ch : Http01Challenge) → lookup j s'.challenges ≡ some ch
        → (lookup j s.challenges ≡ some ch)
          ⊎ ((ch.token ≡ j)
              × ((e : Certificate) × (lookup ch.certificate_id s'.certificates ≡ some e)))
    added c found j ch h = elim (Bool-cases (req.token == j)) [
      | inl e ↦
          let this : pending_challenge cert_id req now ≡ ch = ground (arith, st.challenges j) in
          inr (ground (arith, this, eq_iff req.token j), (c, rw (← this) found))
      | inr e ↦ inl (ground (arith, st.challenges j))
    ]

erased :
    (token j : String) (m : Dict Http01Challenge) (ch : Http01Challenge)
    → lookup j (erase token m) ≡ some ch
    → lookup j m ≡ some ch
erased token j m ch h = ground (arith, lookup-erase token j m)

completed-IsIndexed :
    (id token : String) (now : Time) (s : MemoryStore) (out : Response Content × MemoryStore)
    → IsCompleted id token now s out
    → IsIndexed s
    → IsIndexed out.1
unfolding IsKeyed
completed-IsIndexed id token now s out done inv = elim (Option-cases (lookup token s.challenges)) [
  | inl absent ↦ rw ((done.unknown_token absent).1) inv
  | inr (ch, found) ↦ elim (Option-cases (lookup id s.certificates)) [
    | inl absent ↦
        let (_, challenges, certificates) = done.unknown_certificate ch found absent in
        changed-IsIndexed s out.1 inv (rw certificates inv.certificate_key)
          (λ k d h. (d, rw certificates h))
          (λ j c h. inl (erased token j s.challenges c (rw challenges at h)))
    | inr (cert, present) ↦
        let (_, challenges, certificates) = done.granted ch cert found present in
        changed-IsIndexed s out.1 inv
          (rw certificates (insert-IsKeyed (issued cert now) s.certificates inv.certificate_key))
          (λ k d h. rw certificates (still_there (issued cert now) k s.certificates d h))
          (λ j c h. inl (erased token j s.challenges c (rw challenges at h)))
  ]
]

pub complete_challenge-IsIndexed :
    (now : Time) (c : ApiRequest) (s : MemoryStore)
    → IsIndexed s
    → IsIndexed (complete_challenge memory_certificates now c s).1
complete_challenge-IsIndexed now c s inv = elim (complete_challenge-cases now c s) [
  | inl same ↦ rw same inv
  | inr (req, done) ↦
      completed-IsIndexed (c.param "id") req.token now s
        (complete_challenge memory_certificates now c s) done inv
]

pub start_challenge-IsIndexed :
    (now : Time) (c : ApiRequest) (s : MemoryStore)
    → IsIndexed s
    → IsIndexed (start_challenge memory_certificates now c s).1
start_challenge-IsIndexed now c s inv = elim (start_challenge-outcome now c s) [
  | inl (_, (req, _, _, _, _, _, stored)) ↦
      started-IsIndexed (c.param "id") req now s (start_challenge memory_certificates now c s).1
        stored inv
  | inr (_, same) ↦ rw same inv
]

-- Whatever calls are made, from an empty store on, every record stands under its own key, and every
-- challenge that is served belongs to a certificate that is stored.
pub Reachable-IsIndexed : {s : MemoryStore} → Reachable s → IsIndexed s
unfolding after lookup
Reachable-IsIndexed here = record {
  certificate_key = λ k c h. absurd (ground (arith, h));
  challenge_key = λ j ch h. absurd (ground (arith, h));
  owner = λ j ch h. absurd (ground (arith, h));
}
Reachable-IsIndexed (next {s} r (start now c)) =
    start_challenge-IsIndexed now c s (Reachable-IsIndexed r)
Reachable-IsIndexed (next {s} r (complete now c)) =
    complete_challenge-IsIndexed now c s (Reachable-IsIndexed r)
