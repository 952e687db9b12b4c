-- ===== src/Client/Cache/Fetches.antt =====
-- When a token is fetched, and what the cache holds after that.
use go_oauth_client_credenti.Common.{
  ◌≡◌, refl, ◌≢◌, ◌∙◌, suc, String, none, some, List, [], ◌∷◌, arith, ◌==◌, eq_iff, eq_refl, All,
  map, if◌then◌else◌,
}
use go_oauth_client_credenti.Common.Int.{◌+ℤ◌, ◌<ℤ◌}
use go_oauth_client_credenti.Common.Dict.{Dict, lookup, lookup-insert}
use go_oauth_client_credenti.Oauth2.Error.{Error}
use go_oauth_client_credenti.Oauth2.Exec.{Result, ok, err}
use go_oauth_client_credenti.Oauth2.Types.{Time, TokenResponse}
use go_oauth_client_credenti.Client.{Client, CachedToken, World}
use go_oauth_client_credenti.Client.Network.{Network}
use go_oauth_client_credenti.Client.Requests.{post_form, fetch_token, forget, revoke}
use go_oauth_client_credenti.Client.Cache.{
  cached_token, local_expiry, cache_entry, refresh, get_token,
}
use go_oauth_client_credenti.Client.Cache.Fresh.{IsSensible, cached_token_iff}

module _ (N : Network) (c : Client) where
  post_form-tokens :
      (path : String) (values : List (String × String)) (created called : String)
      (w : World N.State)
      → (post_form N c path values created called w).1.tokens ≡ w.tokens
  unfolding post_form
  post_form-tokens path values created called w = ground arith

  -- A fetch writes nothing to the cache.
  fetch_token-tokens :
      (resource_uri : String) (w : World N.State)
      → (fetch_token N c resource_uri w).1.tokens ≡ w.tokens
  unfolding fetch_token
  fetch_token-tokens resource_uri w =
      let called =
        post_form-tokens "/oauth/token"
          (("grant_type", "client_credentials")
            ∷ (if resource_uri == "" then [] else ("resource", resource_uri) ∷ []))
          "failed to create token request" "failed to request token" w in
      ground (arith, called)

  -- Under the write lock: a fresh entry is returned with no request and no change; otherwise one
  -- request is sent, whose token is returned and replaces the entry of the resource alone, and
  -- whose failure is returned and leaves the cache alone.
  pub refresh-outcome :
      (now : Time) (resource_uri : String) (w : World N.State)
      → ((token : String)
          → cached_token c now resource_uri w.tokens ≡ some token
          → refresh N c now resource_uri w ≡ (ok token, w))
        × (cached_token c now resource_uri w.tokens ≡ none
            → let out = refresh N c now resource_uri w in
              let fetched = fetch_token N c resource_uri w in
              (out.1.net ≡ fetched.1.net)
              × ((resp : TokenResponse)
                  → fetched.0 ≡ ok resp
                  → (out.0 ≡ ok resp.access_token)
                    × ((j : String)
                        → lookup j out.1.tokens ≡ (
                            if resource_uri == j
                            then some (cache_entry now resp)
                            else lookup j w.tokens)))
              × ((e : Error) → fetched.0 ≡ err e → (out.0 ≡ err e) × (out.1.tokens ≡ w.tokens)))
  unfolding refresh
  refresh-outcome now resource_uri w = (
    λ token hit. ground (arith, hit),
    λ miss. (
      ground (arith, miss),
      λ resp got. (
        ground (arith, miss, got),
        λ j. ground (
          arith,
          miss,
          got,
          lookup-insert resource_uri j (cache_entry now resp)
              (fetch_token N c resource_uri w).1.tokens,
          fetch_token-tokens resource_uri w,
        ),
      ),
      λ e failed. (
        ground (arith, miss, failed),
        ground (arith, miss, failed, fetch_token-tokens resource_uri w),
      ),
    ),
  )

  -- Without an interruption, a fresh entry is returned with no request; only the clock was read.
  pub get_token-served :
      (resource_uri : String) (w : World N.State) (e : CachedToken)
      → IsSensible c
      → lookup resource_uri w.tokens ≡ some e
      → c.now_func w.ticks +ℤ c.expiry_buffer <ℤ e.expires_at
      → get_token N c resource_uri w ≡ (ok e.access_token, record w { ticks = suc w.ticks })
  unfolding get_token
  get_token-served resource_uri w e s found outlasts = ground (
    arith,
    (cached_token_iff c (c.now_func w.ticks) resource_uri e.access_token w.tokens s).1
        (e, found, refl, outlasts),
  )

  -- Callers that have all missed the cache for one resource, each with the time that it read, in
  -- the order in which they get the write lock.
  pub refresh_all : String → List Time → World N.State → List (Result String) × World N.State
  refresh_all resource_uri [] w = ([], w)
  refresh_all resource_uri (now ∷ nows) w =
      let (r, w') = refresh N c now resource_uri w in
      let (rs, w'') = refresh_all resource_uri nows w' in (r ∷ rs, w'')

  refresh_all-served :
      (resource_uri token : String) (nows : List Time) (w : World N.State)
      → All (λ now. cached_token c now resource_uri w.tokens ≡ some token) nows
      → refresh_all resource_uri nows w ≡ (map (λ _. ok token) nows, w)
  unfolding refresh_all
  refresh_all-served resource_uri token [] w h = refl
  refresh_all-served resource_uri token (now ∷ nows) w (hit, h) =
      rw ((refresh-outcome now resource_uri w).0 token hit)
        (ground (arith, refresh_all-served resource_uri token nows w h))

  All-outlasts :
      (resource_uri : String) (e : CachedToken) (tokens : Dict CachedToken) (nows : List Time)
      → IsSensible c
      → lookup resource_uri tokens ≡ some e
      → All (λ now. now +ℤ c.expiry_buffer <ℤ e.expires_at) nows
      → All (λ now. cached_token c now resource_uri tokens ≡ some e.access_token) nows
  All-outlasts resource_uri e tokens [] s found h = tt
  All-outlasts resource_uri e tokens (now ∷ nows) s found (outlasts, h) = (
    (cached_token_iff c now resource_uri e.access_token tokens s).1 (e, found, refl, outlasts),
    All-outlasts resource_uri e tokens nows s found h,
  )

  -- However many callers wait for a token of one resource, only the first to get the write lock
  -- sends a request, if that succeeds with a token that outlasts the buffer of all of them; every
  -- caller gets the token of that request, and nothing changes after it.
  pub refresh_all-once :
      (resource_uri : String) (now : Time) (nows : List Time) (w : World N.State)
      (resp : TokenResponse)
      → IsSensible c
      → cached_token c now resource_uri w.tokens ≡ none
      → (fetch_token N c resource_uri w).0 ≡ ok resp
      → All (λ n. n +ℤ c.expiry_buffer <ℤ local_expiry now resp.expires_in) nows
      → refresh_all resource_uri (now ∷ nows) w
        ≡ (map (λ _. ok resp.access_token) (now ∷ nows), (refresh N c now resource_uri w).1)
  unfolding refresh_all
  refresh_all-once resource_uri now nows w resp s miss got h =
      let w' = (refresh N c now resource_uri w).1 in
      let (_, granted, _) = (refresh-outcome now resource_uri w).1 miss in
      let (returned, looks) = granted resp got in
      let found : lookup resource_uri w'.tokens ≡ some (cache_entry now resp) =
        looks resource_uri ∙ rw eq_refl in
      let rest =
        refresh_all-served resource_uri resp.access_token nows w'
          (All-outlasts resource_uri (cache_entry now resp) w'.tokens nows s found h) in
      ground (arith, returned, rest)

forget-lookup :
    (token j : String) (tokens : Dict CachedToken) (e : CachedToken)
    → lookup j (forget token tokens) ≡ some e
    → e.access_token ≢ token
unfolding forget lookup
forget-lookup token j [] e h = cc
forget-lookup token j ((res, cached) ∷ tokens) e h =
    ground (arith, eq_iff cached.access_token token, forget-lookup token j tokens e)

forget-keeps :
    (token j : String) (tokens : Dict CachedToken) (e : CachedToken)
    → lookup j tokens ≡ some e
    → e.access_token ≢ token
    → lookup j (forget token tokens) ≡ some e
unfolding forget lookup
forget-keeps token j [] e h ne = cc
forget-keeps token j ((res, cached) ∷ tokens) e h ne =
    ground (arith, eq_iff cached.access_token token, eq_iff res j, forget-keeps token j tokens e)

module _ (N : Network) (c : Client) where
  -- After a revocation that succeeded the cache gives the token for no resource, and still holds
  -- every entry of another token; one that failed leaves the cache alone.
  pub revoke-tokens :
      (token : String) (w : World N.State)
      → let out = revoke N c token w in
        (out.0 ≡ ok tt
          → ((j : String) (e : CachedToken)
              → lookup j out.1.tokens ≡ some e
              → e.access_token ≢ token)
            × ((j : String) (e : CachedToken)
                → lookup j w.tokens ≡ some e
                → e.access_token ≢ token
                → lookup j out.1.tokens ≡ some e))
        × ((e : Error) → out.0 ≡ err e → out.1.tokens ≡ w.tokens)
  unfolding revoke
  revoke-tokens token w =
      let kept =
        post_form-tokens N c "/oauth/revoke" (("token", token) ∷ [])
          "failed to create revoke request" "failed to call revoke endpoint" w in
      (
        λ done. (
          λ j e found. forget-lookup token j w.tokens e (ground (arith, kept)),
          λ j e found other. ground (arith, kept, forget-keeps token j w.tokens e),
        ),
        λ e failed. ground (arith, kept),
      )
