-- ===== src/Oauth2/Store.antt =====
-- The interface of pkg/oauth2/store.go. A pointer argument is an `Option`; the methods get the
-- time that a call of `time.Now` would read.
pub mod Errors
pub mod Memory
pub mod Locked
pub mod Contract
pub mod Refines
pub mod Abstract
use go_oauth_client_credenti.Common.{String, Option}
use go_oauth_client_credenti.Oauth2.Exec.{Result}
use go_oauth_client_credenti.Oauth2.Types.{Client, Token, Time}

pub record Store : Type 1 where
  pub State : Type 0
  pub create_client : Option Client → State → Result (Unit {0}) × State
  pub get_client : String → State → Result Client
  pub save_token : Option Token → State → Result (Unit {0}) × State
  pub get_token_by_hash : String → State → Result Token
  pub revoke_token : Time → String → State → Result (Unit {0}) × State
