-- ===== src/Certificate/Handler/Completion.antt =====
-- What completing a challenge does, and what the public endpoint serves before and after.
use go_oauth_client_credenti.Certificate.Store.{
  memory_certificates, MemoryStore, get_certificate, save_certificate, get_challenge,
  delete_challenge,
}
use go_oauth_client_credenti.Common.{
  refl, ◌==◌, Bool-cases, ◌⊎◌, inl, inr, ◌≡◌, sym, ap, ◌≢◌, ◌∙◌, String, none, some, ◌∷◌, [], arith,
  eq_iff, eq_refl,
}
use go_oauth_client_credenti.Common.Dict.{lookup, insert, erase, lookup-insert, lookup-erase}
use go_oauth_client_credenti.Oauth2.Exec.{Result-cases, ok}
use go_oauth_client_credenti.Oauth2.Types.{Time}
use go_oauth_client_credenti.Oauth2.Http.{value, Response}
use go_oauth_client_credenti.Certificate.Model.{
  Certificate, Http01Challenge, StartChallengeRequest, CompleteChallengeRequest,
}
use go_oauth_client_credenti.Certificate.Handler.{
  ApiRequest, Content, octets, text, reply, start_challenge, issued, finish, complete_challenge,
  serve_acme_challenge, pending_challenge,
}
use go_oauth_client_credenti.Certificate.Handler.Challenges.{start_challenge-outcome}

abbrev pub served : String → Response Content
served key_authorization = record {
  status = 200;
  headers = ("Content-Type", "application/octet-stream") ∷ [];
  body = value (octets key_authorization);
}

-- The public endpoint serves the key authorization of the challenge that is stored under its token,
-- and answers 404 if there is none.
pub serve_acme_challenge-lookup :
    (c : ApiRequest) (s : MemoryStore)
    → c.param "token" ≢ ""
    → ((ch : Http01Challenge)
        → lookup (c.param "token") s.challenges ≡ some ch
        → serve_acme_challenge memory_certificates c s ≡ served ch.key_authorization)
      × (lookup (c.param "token") s.challenges ≡ none
          → serve_acme_challenge memory_certificates c s
            ≡ reply 404 (value (text "Challenge not found")))
unfolding serve_acme_challenge get_challenge
serve_acme_challenge-lookup c s given = (
  λ ch found. ground (arith, eq_iff (c.param "token") ""),
  λ absent. ground (arith, eq_iff (c.param "token") ""),
)

-- A challenge that was started is served at once: the public endpoint answers its token with its
-- key authorization, whatever was stored before.
pub serve_acme_challenge-start_challenge :
    (now : Time) (c d : ApiRequest) (s : MemoryStore) (req : StartChallengeRequest)
    → (start_challenge memory_certificates now c s).0.status ≡ 201
    → c.json_start ≡ ok req
    → d.param "token" ≡ req.token
    → serve_acme_challenge memory_certificates d (start_challenge memory_certificates now c s).1
      ≡ served req.key_authorization
serve_acme_challenge-start_challenge now c d s req created bound asked =
    elim (start_challenge-outcome now c s) [
      | inr (refused, _) ↦ absurd (omega arith)
      | inl (_, (r, named, bound', domain, token, key, stored)) ↦
          let same : r ≡ req = ground (arith) in
          let given : d.param "token" ≢ "" =
            λ e. token (ap (λ (q : StartChallengeRequest). q.token) same ∙ sym asked ∙ e) in
          let found : lookup (d.param "token")
                (start_challenge memory_certificates now c s).1.challenges
              ≡ some (pending_challenge (c.param "id") r now) =
            stored.challenges (d.param "token")
            ∙ ground (arith, eq_iff r.token (d.param "token"), same, asked) in
          (serve_acme_challenge-lookup d (start_challenge memory_certificates now c s).1 given).0
            (pending_challenge (c.param "id") r now) found
          ∙ ap (λ (q : StartChallengeRequest). served q.key_authorization) same
    ]

-- What a completion with a well-formed request does, by what is stored.
pub record IsCompleted (id token : String) (now : Time) (s : MemoryStore)
    (out : Response Content × MemoryStore) : Type 0 where
  pub unknown_token : lookup token s.challenges ≡ none → (out.0.status ≡ 404) × (out.1 ≡ s)
  pub unknown_certificate :
      (ch : Http01Challenge)
      → lookup token s.challenges ≡ some ch
      → lookup id s.certificates ≡ none
      → (out.0.status ≡ 404)
        × (out.1.challenges ≡ erase token s.challenges)
        × (out.1.certificates ≡ s.certificates)
  pub granted :
      (ch : Http01Challenge) (cert : Certificate)
      → lookup token s.challenges ≡ some ch
      → lookup id s.certificates ≡ some cert
      → (out.0.status ≡ 200)
        × (out.1.challenges ≡ erase token s.challenges)
        × (out.1.certificates ≡ insert cert.id (issued cert now) s.certificates)

-- Completing a challenge: 404 and no change for a token that is not stored; else the challenge is
-- removed, and the answer is 404 if there is no certificate of the id in the path, and 200 if
-- there is, which is then issued for ninety days from now.
pub complete_challenge-IsCompleted :
    (now : Time) (c : ApiRequest) (s : MemoryStore) (req : CompleteChallengeRequest)
    → c.param "id" ≢ ""
    → c.json_complete ≡ ok req
    → req.token ≢ ""
    → IsCompleted (c.param "id") req.token now s (complete_challenge memory_certificates now c s)
unfolding complete_challenge delete_challenge finish get_certificate save_certificate
complete_challenge-IsCompleted now c s req named bound given = record {
  unknown_token = λ absent. (
    ground (arith, absent, eq_iff (c.param "id") "", eq_iff req.token ""),
    ground (arith, absent, eq_iff (c.param "id") "", eq_iff req.token ""),
  );
  unknown_certificate = λ ch found absent. (
    ground (arith, found, absent, eq_iff (c.param "id") "", eq_iff req.token ""),
    ground (arith, found, absent, eq_iff (c.param "id") "", eq_iff req.token ""),
    ground (arith, found, absent, eq_iff (c.param "id") "", eq_iff req.token ""),
  );
  granted = λ ch cert found present. (
    ground (arith, found, present, eq_iff (c.param "id") "", eq_iff req.token ""),
    ground (arith, found, present, eq_iff (c.param "id") "", eq_iff req.token ""),
    ground (arith, found, present, eq_iff (c.param "id") "", eq_iff req.token ""),
  );
}

pub complete_challenge-cases :
    (now : Time) (c : ApiRequest) (s : MemoryStore)
    → ((complete_challenge memory_certificates now c s).1 ≡ s)
      ⊎ ((req : CompleteChallengeRequest) × IsCompleted
            (c.param "id")
            req.token
            now
            s
            (complete_challenge memory_certificates now c s))
unfolding complete_challenge
complete_challenge-cases now c s = elim (Bool-cases (c.param "id" == "")) [
  | inl e ↦ inl (rw e refl)
  | inr named ↦ elim (Result-cases c.json_complete) [
    | inr (e, malformed) ↦ inl (rw (named, malformed) refl)
    | inl (req, bound) ↦ elim (Bool-cases (req.token == "")) [
      | inl e ↦ inl (rw (named, bound, e) refl)
      | inr given ↦ inr (
        req,
        complete_challenge-IsCompleted now c s req
            (λ e. absurd (ground (arith, eq_iff (c.param "id") ""))) bound
            (λ e. absurd (ground (arith, eq_iff req.token ""))),
      )
    ]
  ]
]

-- A challenge of one certificate is completed, removed from the public endpoint and counted for
-- another one, if the request names the token of the first and the id of the second: the
-- certificate of the challenge is not looked at.
pub complete_challenge-crosses :
    (now : Time) (c d : ApiRequest) (s : MemoryStore) (req : CompleteChallengeRequest)
    (ch : Http01Challenge) (cert : Certificate)
    → c.param "id" ≢ ""
    → c.json_complete ≡ ok req
    → req.token ≢ ""
    → lookup req.token s.challenges ≡ some ch
    → lookup (c.param "id") s.certificates ≡ some cert
    → ch.certificate_id ≢ c.param "id"
    → d.param "token" ≡ req.token
    → ((complete_challenge memory_certificates now c s).0.status ≡ 200)
      × (serve_acme_challenge memory_certificates d s ≡ served ch.key_authorization)
      × (serve_acme_challenge memory_certificates d
            (complete_challenge memory_certificates now c s).1
          ≡ reply 404 (value (text "Challenge not found")))
      × (lookup cert.id (complete_challenge memory_certificates now c s).1.certificates
          ≡ some (issued cert now))
complete_challenge-crosses now c d s req ch cert named bound given found present other asked =
    let done = complete_challenge-IsCompleted now c s req named bound given in
    let (status, challenges, certificates) = done.granted ch cert found present in
    let given' : d.param "token" ≢ "" = λ e. given (sym asked ∙ e) in
    (
      status,
      (serve_acme_challenge-lookup d s given').0 ch (rw asked found),
      (serve_acme_challenge-lookup d (complete_challenge memory_certificates now c s).1 given').1
          (rw (challenges, asked, lookup-erase) (rw eq_refl)),
      rw (certificates, lookup-insert) (rw eq_refl),
    )
