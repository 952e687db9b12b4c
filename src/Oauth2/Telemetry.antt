-- ===== src/Oauth2/Telemetry.antt =====
-- pkg/oauth2/telemetry.go: the counters and the audit log. A counter is the list of the attribute
-- sets that it was increased with, or `none` where OpenTelemetry did not create it. Durations,
-- which are read from the clock for the histogram and the log alone, are left out.
pub mod Setup
use go_oauth_client_credenti.Common.{
  ℕ, suc, String, Bool, Option, none, some, List, [], ◌∷◌, ◌++◌, ◌==◌, if◌then◌else◌,
}
use go_oauth_client_credenti.Oauth2.Error.{Error, message}

abbrev pub Attributes : Type 0
Attributes = List (String × String)

pub data Level : Type 0 where
  info warn : Level

pub record LogRecord : Type 0 where
  pub level : Level
  pub text : String
  pub attributes : Attributes

-- What is written to the span of the request's context, if that span is recording.
pub record SpanRecord : Type 0 where
  pub attributes : Attributes
  pub error : Option Error
  pub description : String

pub record Telemetry : Type 0 where
  pub token_requests_total : Option (List Attributes)
  pub auth_checks_total : Option (List Attributes)
  pub token_durations : Option ℕ
  pub is_recording : Bool
  pub spans : List SpanRecord
  pub log : List LogRecord

-- `if c != nil { c.Add(ctx, 1, attrs) }`
abbrev add : Option (List Attributes) → Attributes → Option (List Attributes)
add none attrs = none
add (some adds) attrs = some (adds ++ attrs ∷ [])

abbrev record_duration : Option ℕ → Option ℕ
record_duration none = none
record_duration (some n) = some (suc n)

-- `span.RecordError` and `span.SetStatus`
abbrev span_record : Attributes → Option Error → String → SpanRecord
span_record attrs none done = record { attributes = attrs; error = none; description = done }
span_record attrs (some e) done = record {
  attributes = attrs;
  error = some e;
  description = message e;
}

abbrev error_text : Option Error → String
error_text none = ""
error_text (some e) = message e

abbrev audit : Level → String → String → Attributes → LogRecord
audit level text event attrs = record {
  level = level;
  text = text;
  attributes = ("log_type", "audit") ∷ ("event", event) ∷ attrs;
}

abbrev pub token_request_log : String → String → String → String → Option Error → LogRecord
token_request_log grant_type status client_id resource e =
    if status == "ok"
    then audit info "OAuth2 token issued successfully" "oauth2_token_issued"
        (("client_id", client_id) ∷ ("resource", resource) ∷ ("grant_type", grant_type) ∷ [])
    else audit warn "OAuth2 token issuance rejected" "oauth2_token_denied" (
        ("status", status)
        ∷ ("client_id", client_id)
        ∷ ("resource", resource)
        ∷ ("grant_type", grant_type)
        ∷ ("error", error_text e)
        ∷ [])

unfoldable pub record_token_request :
    String → String → String → String → Option Error → Telemetry → Telemetry
record_token_request grant_type status client_id resource e t =
    let attrs = ("grant_type", grant_type) ∷ ("status", status) ∷ [] in
    let span =
      span_record
        (("oauth2.status", status)
          ∷ ("oauth2.grant_type", grant_type)
          ∷ ("oauth2.client_id", client_id)
          ∷ ("oauth2.resource", resource)
          ∷ [])
        e "token issued" in
    record t {
      token_requests_total = add t.token_requests_total attrs;
      token_durations = record_duration t.token_durations;
      spans = if t.is_recording then t.spans ++ span ∷ [] else t.spans;
      log = t.log ++ token_request_log grant_type status client_id resource e ∷ [];
    }

abbrev pub auth_check_log :
    String → String → String → String → String → String → Option Error → LogRecord
auth_check_log status client_id target_resource req_resource path method e =
    if status == "ok"
    then audit info "OAuth2 authorization granted" "oauth2_auth_granted" (
        ("client_id", client_id)
        ∷ ("resource", target_resource)
        ∷ ("http_path", path)
        ∷ ("http_method", method)
        ∷ [])
    else audit warn "OAuth2 authorization denied" "oauth2_auth_denied" (
        ("status", status)
        ∷ ("client_id", client_id)
        ∷ ("token_resource", target_resource)
        ∷ ("request_resource", req_resource)
        ∷ ("http_path", path)
        ∷ ("http_method", method)
        ∷ ("error", error_text e)
        ∷ [])

unfoldable pub record_auth_check :
    String → String → String → String → String → String → Option Error → Telemetry → Telemetry
record_auth_check status client_id target_resource req_resource path method e t =
    let attrs = ("status", status) ∷ [] in
    let span =
      span_record
        (("oauth2.status", status)
          ∷ ("oauth2.client_id", client_id)
          ∷ ("oauth2.token_resource", target_resource)
          ∷ ("oauth2.request_resource", req_resource)
          ∷ [])
        e "authorized" in
    record t {
      auth_checks_total = add t.auth_checks_total attrs;
      spans = if t.is_recording then t.spans ++ span ∷ [] else t.spans;
      log =
          t.log ++ auth_check_log status client_id target_resource req_resource path method e ∷ [];
    }
