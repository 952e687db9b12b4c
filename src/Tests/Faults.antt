-- ===== src/Tests/Faults.antt =====
-- The theorems on the certificate handlers over any store, at a store that cannot save certificates.
use go_oauth_client_credenti.Common.{◌≡◌, ◌∷◌, refl, ◌↔◌, []}
use go_oauth_client_credenti.Common.Dict.{lookup, insert, erase}
use go_oauth_client_credenti.Certificate.Model.{CompleteChallengeRequest, fault, done, failed}
use go_oauth_client_credenti.Certificate.Store.{
  Store, MemoryStore, new_memory_store, memory_certificates, get_certificate, save_challenge,
  delete_challenge,
}
use go_oauth_client_credenti.Certificate.Store.Contract.{IsLawful, memory_certificates-IsLawful}
use go_oauth_client_credenti.Certificate.Handler.{
  not_found, start_challenge, ensure_certificate, provision, complete_challenge,
  serve_acme_challenge,
}
use go_oauth_client_credenti.Certificate.Handler.{pending_challenge, finish}
use go_oauth_client_credenti.Certificate.Store.{get_challenge}
use go_oauth_client_credenti.Certificate.Handler.Completion.{served}
use go_oauth_client_credenti.Certificate.Handler.Faults.{Started, start_challenge-Started}
use go_oauth_client_credenti.Certificate.Handler.Removal.{
  Completed, complete_challenge-Completed, complete_challenge-once,
}
use go_oauth_client_credenti.Certificate.Handler.Acknowledged.{serve_acme_challenge-created}
use go_oauth_client_credenti.Tests.Fixtures.{clock, differ}
use go_oauth_client_credenti.Tests.Certificate.{start_request, request, store}

abbrev full : Store
full = record memory_certificates { save_certificate = λ _ s. (failed (fault "disk full"), s) }

full-IsLawful : IsLawful full
full-IsLawful = record {
  save_challenge = memory_certificates-IsLawful.save_challenge;
  delete_challenge = memory_certificates-IsLawful.delete_challenge;
  delete_missing = memory_certificates-IsLawful.delete_missing;
  save_certificate = λ cert token s. refl;
}

abbrev complete_request : CompleteChallengeRequest
complete_request = record { token = "abc" }

-- The store with no challenge left.
abbrev removed_store : MemoryStore
removed_store = record store { challenges = [] }

start_challenge-Started_example :
    Started full "cert-1" start_request (clock 0) new_memory_store 500 new_memory_store ↔ (
      ((start_challenge full (clock 0) (request "cert-1") new_memory_store).0.status ≡ 500)
      × ((start_challenge full (clock 0) (request "cert-1") new_memory_store).1 ≡ new_memory_store))
start_challenge-Started_example =
    start_challenge-Started full (clock 0) (request "cert-1") new_memory_store start_request
      (differ "cert-1" "" refl) refl refl 500 new_memory_store

complete_challenge-Completed_example :
    Completed full "cert-b" "abc" (clock 1) store 500 removed_store ↔ (
      ((complete_challenge full (clock 1) (request "cert-b") store).0.status ≡ 500)
      × ((complete_challenge full (clock 1) (request "cert-b") store).1 ≡ removed_store))
complete_challenge-Completed_example =
    complete_challenge-Completed full (clock 1) (request "cert-b") store complete_request
      (differ "cert-b" "" refl) refl (differ "abc" "" refl) 500 removed_store

deleted : full.delete_challenge "abc" store ≡ (done tt, removed_store)
unfolding delete_challenge lookup erase
deleted = refl

-- Another challenge was saved since.
abbrev later_store : MemoryStore
later_store = record removed_store {
  challenges = ("def", pending_challenge "cert-a" start_request (clock 2)) ∷ [];
}

left :
    full.get_challenge "abc" later_store
    ≡ full.get_challenge "abc" (complete_challenge full (clock 1) (request "cert-b") store).1
unfolding complete_challenge finish get_challenge get_certificate delete_challenge lookup erase
left = refl

complete_challenge-once_example :
    complete_challenge full (clock 3) (request "cert-a") later_store
    ≡ (not_found "Challenge token not found", later_store)
complete_challenge-once_example =
    complete_challenge-once full full-IsLawful (clock 1) (clock 3) (request "cert-b")
      (request "cert-a") store removed_store complete_request complete_request
      (differ "cert-b" "" refl) refl (differ "abc" "" refl) deleted (differ "cert-a" "" refl) refl
      refl later_store left

created : (start_challenge full (clock 0) (request "cert-a") store).0.status ≡ 201
unfolding start_challenge ensure_certificate provision get_certificate save_challenge lookup insert
created = refl

serve_acme_challenge-created_example :
    serve_acme_challenge full
      (request "abc")
      (start_challenge full (clock 0) (request "cert-a") store).1
    ≡ served "abc.key"
serve_acme_challenge-created_example =
    serve_acme_challenge-created full full-IsLawful (clock 0) (request "cert-a") (request "abc")
      store start_request refl created refl
