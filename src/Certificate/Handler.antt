-- ===== src/Certificate/Handler.antt =====
-- sample-server/internal/certificate/handler.go, over any store. `now` is what the one call of `time.Now` of a handler returns.
pub mod Acknowledged
pub mod Challenges
pub mod Completion
pub mod Faults
pub mod Invariant
pub mod Others
pub mod Removal
pub mod Statuses
use go_oauth_client_credenti.Common.{
  ℕ, String, Bool, true, ◌||◌, Option, none, some, List, [], ◌∷◌, ◌==◌, if◌then◌else◌,
}
use go_oauth_client_credenti.Common.Int.{ℤ, pos, negsuc, ◌+ℤ◌}
use go_oauth_client_credenti.Common.Text.{◌<>◌}
use go_oauth_client_credenti.Oauth2.Error.{Error, message}
use go_oauth_client_credenti.Oauth2.Exec.{Result, ok, err}
use go_oauth_client_credenti.Oauth2.Types.{Time}
use go_oauth_client_credenti.Oauth2.Http.{Body, failure, value, Response}
use go_oauth_client_credenti.Certificate.Model.{
  Certificate, Http01Challenge, StartChallengeRequest, StartChallengeResponse,
  CompleteChallengeRequest, CompleteChallengeResponse, Fault, fault_message,
  is_certificate_not_found, is_challenge_not_found, Outcome, done, failed,
}
use go_oauth_client_credenti.Certificate.Store.{Store}

-- What gin makes of a request: the parameters of the path, "" where one is missing, and the JSON
-- body bound to the request types.
pub record ApiRequest : Type 0 where
  pub param : String → String
  pub json_start : Result StartChallengeRequest
  pub json_complete : Result CompleteChallengeRequest

pub data Content : Type 0 where
  started : StartChallengeResponse → Content
  completed : CompleteChallengeResponse → Content
  certificate : Certificate → Content
  text : String → Content
  octets : String → Content

abbrev pub reply : ℕ → Body Content → Response Content
reply status body = record { status = status; headers = []; body = body }

abbrev pub bad_request : String → Response Content
bad_request description = reply 400 (failure "invalid_request" description)

abbrev pub internal_error : String → Response Content
internal_error description = reply 500 (failure "internal_error" description)

abbrev pub not_found : String → Response Content
not_found description = reply 404 (failure "not_found" description)

-- The zero `time.Time`, the first second of the year 1.
abbrev pub zero_time : Time
zero_time = negsuc 62135596799999999999

-- `90 * 24 * time.Hour`
abbrev pub validity : ℤ
validity = pos 7776000000000000

abbrev pub pending_certificate : String → StartChallengeRequest → Time → Certificate
pending_certificate cert_id req now = record {
  id = cert_id;
  domain = req.domain;
  status = "pending";
  created_at = now;
  expires_at = zero_time;
}

abbrev pub pending_challenge : String → StartChallengeRequest → Time → Http01Challenge
pending_challenge cert_id req now = record {
  certificate_id = cert_id;
  domain = req.domain;
  token = req.token;
  key_authorization = req.key_authorization;
  status = "pending";
  created_at = now;
}

abbrev pub start_response : String → StartChallengeRequest → StartChallengeResponse
start_response cert_id req = record {
  certificate_id = cert_id;
  status = "pending";
  challenge_path = "/.well-known/acme-challenge/" <> req.token;
  message = "ACME HTTP-01 challenge provisioned successfully";
}

module _ (S : Store) where
  -- From the saving of the challenge to the end.
  unfoldable pub provision :
      String → StartChallengeRequest → Time → S.State → Response Content × S.State
  provision cert_id req now s =
      let (r, s') = S.save_challenge (some (pending_challenge cert_id req now)) s in
      elim r [
        | failed _ ↦ (internal_error "Failed to save challenge record", s')
        | done _ ↦ (reply 201 (value (started (start_response cert_id req))), s')
      ]

  -- From the look for the certificate to the end.
  unfoldable pub ensure_certificate :
      String → StartChallengeRequest → Time → S.State → Response Content × S.State
  ensure_certificate cert_id req now s = elim (S.get_certificate cert_id s) [
    | done _ ↦ provision cert_id req now s
    | failed e ↦
        let (r, s') = S.save_certificate (some (pending_certificate cert_id req now)) s in
        if is_certificate_not_found e
        then elim r [
          | failed _ ↦ (internal_error "Failed to save certificate record", s')
          | done _ ↦ provision cert_id req now s'
        ]
        else (internal_error (fault_message e), s)
  ]

  unfoldable pub start_challenge : Time → ApiRequest → S.State → Response Content × S.State
  start_challenge now c s =
      if c.param "id" == ""
      then (bad_request "Certificate ID is required", s)
      else elim c.json_start [
        | err e ↦ (bad_request ("Malformed JSON payload: " <> message e), s)
        | ok req ↦
            if req.domain == "" || req.token == "" || req.key_authorization == ""
            then (bad_request "domain, token, and key_authorization are all required", s)
            else ensure_certificate (c.param "id") req now s
      ]

abbrev pub issued : Certificate → Time → Certificate
issued cert now = record cert { status = "issued"; expires_at = now +ℤ validity }

abbrev pub complete_response : String → CompleteChallengeResponse
complete_response cert_id = record {
  certificate_id = cert_id;
  status = "issued";
  message = "ACME HTTP-01 challenge completed and cleaned up successfully";
}

abbrev pub lookup_failure : Fault → Response Content
lookup_failure e =
    if is_certificate_not_found e
    then not_found "Certificate not found"
    else internal_error (fault_message e)

module _ (S : Store) where
  -- From the look for the certificate to the end.
  unfoldable pub finish : String → Time → S.State → Response Content × S.State
  finish cert_id now s = elim (S.get_certificate cert_id s) [
    | failed e ↦ (lookup_failure e, s)
    | done cert ↦
        let (r, s') = S.save_certificate (some (issued cert now)) s in
        elim r [
          | failed _ ↦ (internal_error "Failed to update certificate status", s')
          | done _ ↦ (reply 200 (value (completed (complete_response cert_id))), s')
        ]
  ]

  unfoldable pub complete_challenge : Time → ApiRequest → S.State → Response Content × S.State
  complete_challenge now c s =
      if c.param "id" == ""
      then (bad_request "Certificate ID is required", s)
      else elim c.json_complete [
        | err e ↦ (bad_request ("Malformed JSON payload: " <> message e), s)
        | ok req ↦
            let (r, s') = S.delete_challenge req.token s in
            if req.token == "" then (bad_request "Token is required", s) else elim r [
              | failed e ↦ (
                if is_challenge_not_found e
                    then not_found "Challenge token not found"
                    else internal_error (fault_message e),
                s',
              )
              | done _ ↦ finish (c.param "id") now s'
            ]
      ]

  unfoldable pub get_certificate_handler : ApiRequest → S.State → Response Content
  get_certificate_handler c s =
      if c.param "id" == ""
      then bad_request "Certificate ID is required"
      else elim (S.get_certificate (c.param "id") s) [
        | failed e ↦ lookup_failure e
        | done cert ↦ reply 200 (value (certificate cert))
      ]

  unfoldable pub serve_acme_challenge : ApiRequest → S.State → Response Content
  serve_acme_challenge c s =
      if c.param "token" == ""
      then reply 400 (value (text "Invalid token"))
      else elim (S.get_challenge (c.param "token") s) [
        | failed e ↦
            if is_challenge_not_found e
            then reply 404 (value (text "Challenge not found"))
            else reply 500 (value (text "Internal error"))
        | done challenge ↦ record {
          status = 200;
          headers = ("Content-Type", "application/octet-stream") ∷ [];
          body = value (octets challenge.key_authorization);
        }
      ]
