-- ===== src/Tests/Certificate.antt =====
-- The theorems on the sample server's certificates.
use go_oauth_client_credenti.Certificate.Store.{
  memory_certificates, MemoryStore, get_certificate, save_challenge,
}
use go_oauth_client_credenti.Common.{◌≡◌, refl, String, some, [], ◌∷◌}
use go_oauth_client_credenti.Common.Dict.{lookup}
use go_oauth_client_credenti.Oauth2.Exec.{ok}
use go_oauth_client_credenti.Oauth2.Http.{value}
use go_oauth_client_credenti.Certificate.Model.{StartChallengeRequest, CompleteChallengeRequest}
use go_oauth_client_credenti.Certificate.Handler.{
  ApiRequest, text, reply, pending_certificate, pending_challenge, provision, ensure_certificate,
  start_challenge, issued, complete_challenge, serve_acme_challenge,
}
use go_oauth_client_credenti.Certificate.Handler.Completion.{served, complete_challenge-crosses}
use go_oauth_client_credenti.Tests.Fixtures.{clock, differ}

abbrev pub start_request : StartChallengeRequest
start_request = record { domain = "example.com"; token = "abc"; key_authorization = "abc.key" }

abbrev complete_request : CompleteChallengeRequest
complete_request = record { token = "abc" }

-- A request with one path parameter.
abbrev pub request : String → ApiRequest
request parameter = record {
  param = λ _. parameter;
  json_start = ok start_request;
  json_complete = ok complete_request;
}

-- Certificate A has a challenge, certificate B has none.
abbrev pub store : MemoryStore
store = record {
  certificates =
      ("cert-a", pending_certificate "cert-a" start_request (clock 0))
      ∷ ("cert-b", pending_certificate "cert-b" start_request (clock 0))
      ∷ [];
  challenges = ("abc", pending_challenge "cert-a" start_request (clock 0)) ∷ [];
}

created : (start_challenge memory_certificates (clock 1) (request "cert-a") store).0.status ≡ 201
unfolding start_challenge ensure_certificate provision get_certificate save_challenge lookup
created = refl

challenge_stored :
    lookup "abc" store.challenges ≡ some (pending_challenge "cert-a" start_request (clock 0))
unfolding lookup
challenge_stored = refl

certificate_stored :
    lookup "cert-b" store.certificates ≡ some (pending_certificate "cert-b" start_request (clock 0))
unfolding lookup
certificate_stored = refl

complete_challenge-crosses_example :
    ((complete_challenge memory_certificates (clock 1) (request "cert-b") store).0.status ≡ 200)
    × (serve_acme_challenge memory_certificates (request "abc") store ≡ served "abc.key")
    × (serve_acme_challenge memory_certificates
          (request "abc")
          (complete_challenge memory_certificates (clock 1) (request "cert-b") store).1
        ≡ reply 404 (value (text "Challenge not found")))
    × (lookup "cert-b"
          (complete_challenge memory_certificates (clock 1) (request "cert-b") store).1.certificates
        ≡ some (issued (pending_certificate "cert-b" start_request (clock 0)) (clock 1)))
complete_challenge-crosses_example =
    complete_challenge-crosses (clock 1) (request "cert-b") (request "abc") store complete_request
      (pending_challenge "cert-a" start_request (clock 0))
      (pending_certificate "cert-b" start_request (clock 0)) (differ "cert-b" "" refl) refl
      (differ "abc" "" refl) challenge_stored certificate_stored (differ "cert-a" "cert-b" refl)
      refl
