-- ===== src/Client/Cache/Fresh.antt =====
-- When an entry of the cache is used, in exact arithmetic.
use go_oauth_client_credenti.Common.{
  ◌≡◌, sym, ◌∙◌, ap, ◌↔◌, ℕ, ◌-◌, ◌*◌, ◌≤◌, ◌<◌, ◌^◌, String, true, false, some, arith, Bool-cases,
  Option-cases, inl, inr,
}
use go_oauth_client_credenti.Common.Int.{
  ℤ, pos, negsuc, ◌+ℤ◌, ◌-ℤ◌, ◌≤ℤ◌, ◌<ℤ◌, ltb_ℤ, max_int64, clamp64, wrap64, scale, ltb_ℤ-clamp64,
  wrap64_self, wrap64_above, ltb_ℤ→lt, lt→ltb_ℤ, +ℤ_parts, -ℤ_parts,
}
use go_oauth_client_credenti.Common.Dict.{Dict, lookup}
use go_oauth_client_credenti.Oauth2.Types.{Time}
use go_oauth_client_credenti.Client.{Client, Config, CachedToken, new}
use go_oauth_client_credenti.Client.Cache.{is_fresh, cached_token, local_expiry}

-- The buffer is an `int64` above zero and below the greatest.
pub record IsSensible (c : Client) : Type 0 where
  pub above : pos 0 <ℤ c.expiry_buffer
  pub below : c.expiry_buffer <ℤ max_int64

is_fresh_iff :
    (c : Client) (now : Time) (e : CachedToken)
    → IsSensible c
    → (is_fresh c now e ≡ true) ↔ (now +ℤ c.expiry_buffer <ℤ e.expires_at)
unfolding is_fresh
is_fresh_iff c now e s =
    let exact : ltb_ℤ c.expiry_buffer (clamp64 (e.expires_at -ℤ now))
        ≡ ltb_ℤ c.expiry_buffer (e.expires_at -ℤ now) =
      ltb_ℤ-clamp64 c.expiry_buffer (e.expires_at -ℤ now) (omega (arith, s.above)) s.below in
    (
      λ h.
          let lt = ltb_ℤ→lt c.expiry_buffer (e.expires_at -ℤ now) (sym exact ∙ h) in
          omega (arith, -ℤ_parts e.expires_at now, +ℤ_parts now c.expiry_buffer),
      λ h.
          exact
          ∙ lt→ltb_ℤ c.expiry_buffer (e.expires_at -ℤ now)
              (omega (arith, -ℤ_parts e.expires_at now, +ℤ_parts now c.expiry_buffer)),
    )

-- The cache gives a token for a resource exactly when it holds an entry for that resource which
-- outlasts the buffer; cutting the difference off at the `int64` range changes nothing.
pub cached_token_iff :
    (c : Client) (now : Time) (resource_uri token : String) (tokens : Dict CachedToken)
    → IsSensible c
    → (cached_token c now resource_uri tokens ≡ some token) ↔ (
        (e : CachedToken) × (lookup resource_uri tokens ≡ some e)
        × (e.access_token ≡ token)
        × (now +ℤ c.expiry_buffer <ℤ e.expires_at))
unfolding cached_token
cached_token_iff c now resource_uri token tokens s = (sound, complete)
  where
    sound :
        cached_token c now resource_uri tokens ≡ some token
        → (e : CachedToken) × (lookup resource_uri tokens ≡ some e)
          × (e.access_token ≡ token)
          × (now +ℤ c.expiry_buffer <ℤ e.expires_at)
    sound h = elim (Option-cases (lookup resource_uri tokens)) [
      | inl absent ↦ absurd (ground arith)
      | inr (e, found) ↦ (e, found, ground arith, (is_fresh_iff c now e s).0 (ground arith))
    ]

    complete :
        ((e : CachedToken) × (lookup resource_uri tokens ≡ some e)
          × (e.access_token ≡ token)
          × (now +ℤ c.expiry_buffer <ℤ e.expires_at))
        → cached_token c now resource_uri tokens ≡ some token
    complete (e, found, same, outlasts) =
        ground (arith, found, same, (is_fresh_iff c now e s).1 outlasts)

-- The greatest lifetime in seconds whose nanoseconds are an `int64`.
abbrev pub max_seconds : ℕ
max_seconds = 9223372036

-- Up to that lifetime the expiry is exact.
pub local_expiry-exact :
    (now : Time) (n : ℕ) → n ≤ max_seconds → local_expiry now (pos n) ≡ now +ℤ pos (1000000000 * n)
unfolding local_expiry scale
local_expiry-exact now n h =
    ap (λ (d : ℤ). now +ℤ d) (wrap64_self (pos (1000000000 * n)) (omega arith) (omega arith))

-- The cache entry of a token with a lifetime above 9223372036 seconds and up to twice that is not
-- used from the time at which it was made on: its expiry wraps around to an earlier time.
pub local_expiry-wraps :
    (c : Client) (now : Time) (n : ℕ) (later : Time) (token : String)
    → IsSensible c
    → max_seconds < n
    → n ≤ 18446744073
    → now ≤ℤ later
    → is_fresh c later (record { access_token = token; expires_at = local_expiry now (pos n) })
      ≡ false
unfolding local_expiry scale
local_expiry-wraps c now n later token s long short after =
    let e : CachedToken = record { access_token = token; expires_at = local_expiry now (pos n) } in
    let back = 2 ^ 64 - 1 - 1000000000 * n in
    let wrapped : wrap64 (pos (1000000000 * n)) ≡ negsuc back =
      wrap64_above (1000000000 * n) (omega arith) (omega arith) in
    elim (Bool-cases (is_fresh c later e)) [
      | inr stale ↦ stale
      | inl fresh ↦
          let lt : later +ℤ c.expiry_buffer <ℤ now +ℤ negsuc back =
            rw wrapped at ((is_fresh_iff c later e s).0 fresh) in
          absurd
            (omega (arith, s.above, +ℤ_parts later c.expiry_buffer, +ℤ_parts now (negsuc back)))
    ]

-- `New` makes a client whose buffer is above zero, whatever the configuration says, and below the
-- greatest `int64` if that of the configuration is.
pub new-IsSensible :
    (time_now : ℕ → Time) (cfg : Config)
    → cfg.expiry_buffer <ℤ max_int64
    → IsSensible (new time_now cfg)
unfolding new
new-IsSensible time_now cfg below = elim (Bool-cases (ltb_ℤ (pos 0) cfg.expiry_buffer)) [
  | inl e ↦ record { above = rw e (ltb_ℤ→lt (pos 0) cfg.expiry_buffer e); below = rw e below }
  | inr e ↦ record { above = rw e (omega arith); below = rw e (omega arith) }
]
