-- ===== src/Client.antt =====
-- The package pkg/oauth2/client: a client of the authorization server with a cache of tokens, and
-- an HTTP transport that adds them to requests.
pub mod Network
pub mod Requests
pub mod Cache
pub mod Transport
use go_oauth_client_credenti.Common.{ℕ, suc, String, Option, none, some, [], if◌then◌else◌}
use go_oauth_client_credenti.Common.Int.{ℤ, pos, ltb_ℤ}
use go_oauth_client_credenti.Common.Dict.{Dict}
use go_oauth_client_credenti.Oauth2.Exec.{Result, ok, Exec}
use go_oauth_client_credenti.Oauth2.Types.{Time}

abbrev pub token_expiry_buffer : ℤ
token_expiry_buffer = pos 30000000000

-- `Config` but for the underlying HTTP client.
pub record Config : Type 0 where
  pub server_url : String
  pub client_id : String
  pub client_secret : String
  pub expiry_buffer : ℤ

pub record CachedToken : Type 0 where
  pub access_token : String
  pub expires_at : Time

-- The fields that no method writes; `now_func n` is the n-th time that the clock gives.
pub record Client : Type 0 where
  pub config : Config
  pub expiry_buffer : ℤ
  pub now_func : ℕ → Time

-- `New`; the cache that it makes is empty.
unfoldable pub new : (ℕ → Time) → Config → Client
new time_now cfg = record {
  config = cfg;
  expiry_buffer =
      if ltb_ℤ (pos 0) cfg.expiry_buffer then cfg.expiry_buffer else token_expiry_buffer;
  now_func = time_now;
}

-- `SetNowFunc`
unfoldable pub set_now_func : Option (ℕ → Time) → Client → Client
set_now_func none c = c
set_now_func (some fn) c = record c { now_func = fn }

-- What the methods change: the cache, the other side of the network and how often the clock was
-- read.
pub record World (N : Type 0) : Type 0 where
  pub tokens : Dict CachedToken
  pub net : N
  pub ticks : ℕ

module _ (N : Type 0) where
  abbrev pub read_clock : Client → Exec (World N) Time
  read_clock c w = (ok (c.now_func w.ticks), record w { ticks = suc w.ticks })
