-- ===== src/Oauth2/Types.antt =====
-- pkg/oauth2/types.go. A `time.Time` is its distance from the Unix epoch in nanoseconds; a
-- `time.Duration` is a number of nanoseconds.
pub mod Platform
pub mod Uri
use go_oauth_client_credenti.Common.{String, Bool, false, true, Option, none, some, List}
use go_oauth_client_credenti.Common.Int.{ℤ, ltb_ℤ, floor_div}

abbrev pub Time : Type 0
Time = ℤ

-- `t.Unix()`
abbrev pub unix : Time → ℤ
unix t = floor_div t 1000000000

pub record Client : Type 0 where
  pub id : String
  pub secret_hash : String
  pub name : String
  pub allowed_resources : List String
  pub allowed_scopes : List String
  pub created_at : Time

pub record Token : Type 0 where
  pub token_hash : String
  pub client_id : String
  pub resource : String
  pub scope : String
  pub expires_at : Time
  pub created_at : Time
  pub revoked_at : Option Time

-- `now.After(t.ExpiresAt)`
abbrev pub is_expired : Token → Time → Bool
is_expired t now = ltb_ℤ t.expires_at now

abbrev pub is_revoked : Token → Bool
is_revoked t = elim t.revoked_at [ none ↦ false | some _ ↦ true ]

pub record RegisterClientRequest : Type 0 where
  pub name : String
  pub allowed_resources : List String
  pub allowed_scopes : List String

pub record RegisterClientResponse : Type 0 where
  pub client_id : String
  pub client_secret : String
  pub name : String
  pub allowed_resources : List String
  pub allowed_scopes : List String
  pub created_at : Time

pub record TokenRequest : Type 0 where
  pub grant_type : String
  pub client_id : String
  pub client_secret : String
  pub resource : String
  pub scope : String

pub record TokenResponse : Type 0 where
  pub access_token : String
  pub token_type : String
  -- an `int64` in the source: the seconds of a `time.Duration`, which are one
  pub expires_in : ℤ
  pub resource : String
  pub scope : String

pub record IntrospectResponse : Type 0 where
  pub active : Bool
  pub client_id : String
  pub resource : String
  pub scope : String
  -- an `int64` in the source: what `Unix` returns
  pub exp : ℤ
  pub token_type : String
