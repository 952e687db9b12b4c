-- ===== src/Oauth2/Middleware.antt =====
-- pkg/oauth2/middleware.go: what stands in front of a protected handler.
pub mod Guards
pub mod Bearer
use go_oauth_client_credenti.Common.{
  ℕ, String, Bool, true, false, not, ◌&&◌, ◌||◌, Option, none, some, List, [], ◌∷◌, ◌==◌,
  if◌then◌else◌,
}
use go_oauth_client_credenti.Common.Text.{◌<>◌, split_2, equal_fold, trim_space, fields}
use go_oauth_client_credenti.Oauth2.Error.{
  Error, sentinel, is, invalid_request, token_expired, token_revoked,
}
use go_oauth_client_credenti.Oauth2.Exec.{Result, ok, err}
use go_oauth_client_credenti.Oauth2.Types.{Token}
use go_oauth_client_credenti.Oauth2.Types.Platform.{Platform}
use go_oauth_client_credenti.Oauth2.Store.{Store}
use go_oauth_client_credenti.Oauth2.Telemetry.{record_auth_check}
use go_oauth_client_credenti.Oauth2.Service.{Service, World}
use go_oauth_client_credenti.Oauth2.Service.Issue.{contains_string}
use go_oauth_client_credenti.Oauth2.Service.Validate.{validate_token}
use go_oauth_client_credenti.Oauth2.Http.{Request, failure, Response}

-- A value under a key of the gin context: a `*Token`, which may be nil, or something else.
pub data ContextValue : Type 0 where
  token_value : Option Token → ContextValue
  other_value : ContextValue

-- The request and what stands under the key "oauth2_token".
pub record Context : Type 0 where
  pub request : Request
  pub oauth2_token : Option ContextValue

-- A middleware aborts with a response or goes on to the next handler.
pub data Flow : Type 0 where
  abort : Response (Unit {0}) → Flow
  next : Context → Flow

-- The token and whether there is one of its type.
unfoldable pub get_token_from_context : Context → Option Token × Bool
get_token_from_context c = elim c.oauth2_token [
  | none ↦ (none, false)
  | some v ↦ elim v [ token_value t ↦ (t, true) | other_value ↦ (none, false) ]
]

-- The token that the later middleware work with: `!ok || token == nil` is `none`.
unfoldable pub context_token : Context → Option Token
unfolding get_token_from_context
context_token c = let (t, is_ok) = get_token_from_context c in if is_ok then t else none

abbrev unauthorized : List (String × String) → String → Flow
unauthorized headers description =
    abort (record { status = 401; headers = headers; body = failure "unauthorized" description })

abbrev forbidden : String → Flow
forbidden description =
    abort (record { status = 403; headers = []; body = failure "insufficient_scope" description })

-- The text after the scheme, trimmed, if the header is a Bearer header with such a text.
unfoldable pub bearer_token : String → Option String
bearer_token header = elim (split_2 b' ' header) [
  | [] ↦ none
  | scheme ∷ rest ↦ elim rest [
    | [] ↦ none
    | text ∷ more ↦
        if not (equal_fold scheme "Bearer") || trim_space text == ""
        then none
        else some (trim_space text)
  ]
]

-- The tag of the metric and the message, by the error of `ValidateToken`.
abbrev pub status_tag : Error → String
status_tag e =
    if is e token_expired
    then "expired_token"
    else if is e token_revoked
    then "revoked_token"
    else "invalid_token"

abbrev pub error_message : Error → String
error_message e =
    if is e token_expired
    then "Token has expired"
    else if is e token_revoked
    then "Token has been revoked"
    else "Invalid token"

abbrev challenge : String → String → List (String × String)
challenge error description =
    (
      "WWW-Authenticate",
      "Bearer error=\"" <> error <> "\", error_description=\"" <> description <> "\"",
    )
    ∷ []

module _ (p : Platform) (S : Store) (svc : Service) where
  -- `svc.telemetry.RecordAuthCheck`
  abbrev pub check : Request → String → String → String → Option Error → World S → World S
  check r status client_id resource e w = record w {
    telemetry = record_auth_check status client_id resource "" r.path r.method e w.telemetry;
  }

  -- The outcome of the validation.
  abbrev pub admit : Context → Result Token → World S → Flow × World S
  admit c (err e) w = (
    unauthorized (challenge "invalid_token" (error_message e)) (error_message e),
    check c.request (status_tag e) "" "" (some e) w,
  )
  admit c (ok token) w = (
    next (record c { oauth2_token = some (token_value (some token)) }),
    check c.request "ok" token.client_id token.resource none w,
  )

  unfoldable pub token_auth_middleware : Context → World S → Flow × World S
  token_auth_middleware c w =
      if c.request.authorization == ""
      then (
        unauthorized (challenge "invalid_request" "Missing Authorization header")
            "Missing Authorization header",
        check c.request "missing_token" "" "" (some (sentinel invalid_request)) w,
      )
      else elim (bearer_token c.request.authorization) [
        | none ↦ (
          unauthorized (challenge "invalid_token" "Malformed Bearer token")
              "Malformed Authorization header format (expected Bearer <token>)",
          check c.request "invalid_token" "" "" (some (sentinel invalid_request)) w,
        )
        | some raw_token ↦ let (r, w') = validate_token p S svc raw_token w in admit c r w'
      ]

unfoldable pub require_resource : Platform → (Context → String) → Context → Flow
require_resource p resource_extractor c = elim (context_token c) [
  | none ↦ unauthorized [] "Token context missing"
  | some token ↦
      if not (token.resource == "") && not (resource_extractor c == token.resource)
      then forbidden (
          "Token resource "
          <> p.quote token.resource
          <> " does not match requested resource "
          <> p.quote (resource_extractor c))
      else next c
]

unfoldable pub require_scope : Platform → String → Context → Flow
require_scope p required_scope c = elim (context_token c) [
  | none ↦ unauthorized [] "Token context missing"
  | some token ↦
      if not (token.scope == "") && not (contains_string (fields token.scope) required_scope)
      then forbidden ("Required scope " <> p.quote required_scope <> " missing from token")
      else next c
]
