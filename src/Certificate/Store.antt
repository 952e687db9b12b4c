-- ===== src/Certificate/Store.antt =====
-- sample-server/internal/certificate/store.go: the interface, whose two reads leave the state, and the
-- memory store. A method of the memory store holds the lock throughout, so each is one step; records
-- are copied on the way in and out.
pub mod Contract
pub mod Locked
use go_oauth_client_credenti.Common.{String, Option, none, some, []}
use go_oauth_client_credenti.Common.Dict.{Dict, lookup, insert, erase}
use go_oauth_client_credenti.Certificate.Model.{
  Certificate, Http01Challenge, certificate_not_found, challenge_not_found, fault, Outcome, done,
  failed,
}

pub record Store : Type 1 where
  pub State : Type 0
  pub get_certificate : String → State → Outcome Certificate
  pub save_certificate : Option Certificate → State → Outcome (Unit {0}) × State
  pub get_challenge : String → State → Outcome Http01Challenge
  pub save_challenge : Option Http01Challenge → State → Outcome (Unit {0}) × State
  pub delete_challenge : String → State → Outcome (Unit {0}) × State

pub record MemoryStore : Type 0 where
  pub certificates : Dict Certificate
  pub challenges : Dict Http01Challenge

abbrev pub new_memory_store : MemoryStore
new_memory_store = record { certificates = []; challenges = [] }

unfoldable pub get_certificate : String → MemoryStore → Outcome Certificate
get_certificate id s = elim (lookup id s.certificates) [
  | none ↦ failed certificate_not_found
  | some cert ↦ done cert
]

unfoldable pub save_certificate :
    Option Certificate → MemoryStore → Outcome (Unit {0}) × MemoryStore
save_certificate none s = (failed (fault "certificate cannot be nil"), s)
save_certificate (some cert) s =
    (done tt, record s { certificates = insert cert.id cert s.certificates })

unfoldable pub get_challenge : String → MemoryStore → Outcome Http01Challenge
get_challenge token s = elim (lookup token s.challenges) [
  | none ↦ failed challenge_not_found
  | some ch ↦ done ch
]

unfoldable pub save_challenge :
    Option Http01Challenge → MemoryStore → Outcome (Unit {0}) × MemoryStore
save_challenge none s = (failed (fault "challenge cannot be nil"), s)
save_challenge (some ch) s = (done tt, record s { challenges = insert ch.token ch s.challenges })

unfoldable pub delete_challenge : String → MemoryStore → Outcome (Unit {0}) × MemoryStore
delete_challenge token s = elim (lookup token s.challenges) [
  | none ↦ (failed challenge_not_found, s)
  | some _ ↦ (done tt, record s { challenges = erase token s.challenges })
]

abbrev pub memory_certificates : Store
memory_certificates = record {
  State = MemoryStore;
  get_certificate = get_certificate;
  save_certificate = save_certificate;
  get_challenge = get_challenge;
  save_challenge = save_challenge;
  delete_challenge = delete_challenge;
}
