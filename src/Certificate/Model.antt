-- ===== src/Certificate/Model.antt =====
-- sample-server/internal/certificate/model.go, and the errors of store.go.
use go_oauth_client_credenti.Common.{String, Bool, true, false, ◌≡◌, refl, ◌⊎◌, inl, inr}
use go_oauth_client_credenti.Oauth2.Types.{Time}

pub record Certificate : Type 0 where
  pub id : String
  pub domain : String
  pub status : String
  pub created_at : Time
  pub expires_at : Time

pub record Http01Challenge : Type 0 where
  pub certificate_id : String
  pub domain : String
  pub token : String
  pub key_authorization : String
  pub status : String
  pub created_at : Time

pub record StartChallengeRequest : Type 0 where
  pub domain : String
  pub token : String
  pub key_authorization : String

pub record StartChallengeResponse : Type 0 where
  pub certificate_id : String
  pub status : String
  pub challenge_path : String
  pub message : String

pub record CompleteChallengeRequest : Type 0 where
  pub token : String

pub record CompleteChallengeResponse : Type 0 where
  pub certificate_id : String
  pub status : String
  pub message : String

-- An error of a store: one of the two sentinels, or another with its text.
pub data Fault : Type 0 where
  certificate_not_found challenge_not_found : Fault
  fault : String → Fault

abbrev pub fault_message : Fault → String
fault_message certificate_not_found = "certificate not found"
fault_message challenge_not_found = "challenge not found"
fault_message (fault text) = text

-- `errors.Is` at the two sentinels
abbrev pub is_certificate_not_found : Fault → Bool
is_certificate_not_found certificate_not_found = true
is_certificate_not_found _ = false

abbrev pub is_challenge_not_found : Fault → Bool
is_challenge_not_found challenge_not_found = true
is_challenge_not_found _ = false

pub data Outcome (A : Type 0) : Type 0 where
  done : A → Outcome A
  failed : Fault → Outcome A

pub Outcome-cases :
    {A : Type 0} (r : Outcome A) → ((a : A) × (r ≡ done a)) ⊎ ((e : Fault) × (r ≡ failed e))
Outcome-cases (done a) = inl (a, refl)
Outcome-cases (failed e) = inr (e, refl)
