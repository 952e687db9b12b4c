-- ===== src/Client/Cache.antt =====
-- `GetToken` of pkg/oauth2/client/client.go, in the two parts between which other calls may run:
-- the look at the cache under the read lock, and all that is done under the write lock.
pub mod Fresh
pub mod Fetches
pub mod Callers
use go_oauth_client_credenti.Common.{ℕ, String, Bool, Option, none, some, if◌then◌else◌}
use go_oauth_client_credenti.Common.Int.{ℤ, ◌+ℤ◌, ◌-ℤ◌, ltb_ℤ, clamp64, wrap64, scale}
use go_oauth_client_credenti.Common.Dict.{Dict, lookup, insert}
use go_oauth_client_credenti.Oauth2.Exec.{Result, ok, err, Exec, pure, try, ◌>>=◌}
use go_oauth_client_credenti.Oauth2.Types.{Time, TokenResponse}
use go_oauth_client_credenti.Client.{Client, CachedToken, World, read_clock}
use go_oauth_client_credenti.Client.Network.{Network}
use go_oauth_client_credenti.Client.Requests.{fetch_token}

-- `cached.expiresAt.Sub(now) > c.expiryBuffer`; `Sub` cuts its result off at the `int64` range.
unfoldable pub is_fresh : Client → Time → CachedToken → Bool
is_fresh c now cached = ltb_ℤ c.expiry_buffer (clamp64 (cached.expires_at -ℤ now))

-- The token of a fresh entry of the cache.
unfoldable pub cached_token : Client → Time → String → Dict CachedToken → Option String
cached_token c now resource_uri tokens = elim (lookup resource_uri tokens) [
  | none ↦ none
  | some cached ↦ if is_fresh c now cached then some cached.access_token else none
]

-- `now.Add(time.Duration(tokenResp.ExpiresIn) * time.Second)`; the product wraps around.
unfoldable pub local_expiry : Time → ℤ → Time
local_expiry now expires_in = now +ℤ wrap64 (scale 1000000000 expires_in)

abbrev pub cache_entry : Time → TokenResponse → CachedToken
cache_entry now resp = record {
  access_token = resp.access_token;
  expires_at = local_expiry now resp.expires_in;
}

module _ (N : Network) (c : Client) where
  -- Under the write lock, with the time that was read before the read lock.
  unfoldable pub refresh : Time → String → Exec (World N.State) String
  refresh now resource_uri w = elim (cached_token c now resource_uri w.tokens) [
    | some token ↦ (ok token, w)
    | none ↦
        let (r, w') = fetch_token N c resource_uri w in
        elim r [
          | err e ↦ (err e, w')
          | ok resp ↦ (
            ok resp.access_token,
            record w' { tokens = insert resource_uri (cache_entry now resp) w'.tokens },
          )
        ]
  ]

  -- A call that nothing interrupts.
  unfoldable pub get_token : String → Exec (World N.State) String
  get_token resource_uri = do
    now ← read_clock N.State c
    λ w. elim (cached_token c now resource_uri w.tokens) [
      | some token ↦ (ok token, w)
      | none ↦ refresh now resource_uri w
    ]
