-- ===== src/Client/Cache/Callers/Once.antt =====
-- How many requests the callers send between them, and what they get.
use mathlib.Core.Path.{subst}
use go_oauth_client_credenti.Common.{
  ◌≡◌, refl, ◌∙◌, ◌⊎◌, inl, inr, ℕ, String, none, some, eqb, eq_refl, arith, Bool-cases,
  if◌then◌else◌,
}
use go_oauth_client_credenti.Common.Int.{◌+ℤ◌, ◌<ℤ◌}
use go_oauth_client_credenti.Common.Dict.{lookup}
use go_oauth_client_credenti.Oauth2.Exec.{Result, ok}
use go_oauth_client_credenti.Oauth2.Types.{Time, TokenResponse}
use go_oauth_client_credenti.Client.{Client, World}
use go_oauth_client_credenti.Client.Network.{Network}
use go_oauth_client_credenti.Client.Requests.{post_form, fetch_token}
use go_oauth_client_credenti.Client.Cache.{cached_token, local_expiry, cache_entry, refresh}
use go_oauth_client_credenti.Client.Cache.Fresh.{IsSensible, cached_token_iff}
use go_oauth_client_credenti.Client.Cache.Fetches.{refresh-outcome}
use go_oauth_client_credenti.Client.Cache.Callers.{
  Phase, called, timed, missed, returned, Callers, looked, advance, Interleaved, begun, more,
}

module _ (N : Network) (c : Client) where
  -- A fetch depends on nothing but the other side of the network.
  fetch_token-net :
      (resource_uri : String) (v w : World N.State)
      → v.net ≡ w.net
      → ((fetch_token N c resource_uri v).0 ≡ (fetch_token N c resource_uri w).0)
        × ((fetch_token N c resource_uri v).1.net ≡ (fetch_token N c resource_uri w).1.net)
  unfolding fetch_token post_form
  fetch_token-net resource_uri v w same = (ground arith, ground arith)

module _ (N : Network) (c : Client) (resource_uri : String) (w : World N.State)
    (resp : TokenResponse) where
  -- Every reading of the clock is so early that a token which was asked for at any of them has not
  -- yet come within the buffer of its expiry.
  abbrev pub IsCalm : Type 0
  IsCalm =
      (m n : ℕ) → c.now_func n +ℤ c.expiry_buffer <ℤ local_expiry (c.now_func m) resp.expires_in

  -- A time that was read from the clock.
  abbrev IsRead : Time → Type 0
  IsRead now = (n : ℕ) × (now ≡ c.now_func n)

  abbrev IsPhase : Phase → Type 0
  IsPhase called = Unit
  IsPhase (timed now) = IsRead now
  IsPhase (missed now) = IsRead now
  IsPhase (returned r) = r ≡ ok resp.access_token

  -- Before the request and after it.
  abbrev IsBefore : World N.State → Type 0
  IsBefore v = (lookup resource_uri v.tokens ≡ none) × (v.net ≡ w.net)

  abbrev IsAfter : World N.State → Type 0
  IsAfter v =
      ((now : Time) × IsRead now × (lookup resource_uri v.tokens ≡ some (cache_entry now resp)))
      × (v.net ≡ (fetch_token N c resource_uri w).1.net)

  record IsOnce (s : Callers N) : Type 0 where
    phase : (i : ℕ) → IsPhase (s.phases i)
    world : IsBefore s.world ⊎ IsAfter s.world

  put-IsPhase :
      (s : Callers N) (i : ℕ) (phase : Phase)
      → ((j : ℕ) → IsPhase (s.phases j))
      → IsPhase phase
      → (j : ℕ) → IsPhase (if eqb i j then phase else s.phases j)
  put-IsPhase s i phase all this j = elim (Bool-cases (eqb i j)) [
    | inl e ↦ rw e this
    | inr e ↦ rw e (all j)
  ]

  module _ (sensible : IsSensible c) (asked : (fetch_token N c resource_uri w).0 ≡ ok resp)
      (calm : IsCalm) where
    cached_before :
        (v : World N.State) (now : Time)
        → IsBefore v
        → cached_token c now resource_uri v.tokens ≡ none
    unfolding cached_token
    cached_before v now (absent, _) = rw (absent, cached_token) refl

    cached_after :
        (v : World N.State) (now : Time)
        → IsRead now
        → IsAfter v
        → cached_token c now resource_uri v.tokens ≡ some resp.access_token
    cached_after v now (n, read) ((asked_at, (m, read'), found), _) =
        (cached_token_iff c now resource_uri resp.access_token v.tokens sensible).1
          (cache_entry asked_at resp, found, refl, rw (read, read') (calm m n))

    timed-IsOnce :
        (s : Callers N) (i : ℕ) (now : Time)
        → IsOnce s
        → IsRead now
        → IsPhase (looked now (cached_token c now resource_uri s.world.tokens))
    timed-IsOnce s i now inv read = elim inv.world [
      | inl before ↦ rw (cached_before s.world now before) read
      | inr after ↦ rw (cached_after s.world now read after) refl
    ]

    missed-IsOnce :
        (v : World N.State) (now : Time)
        → IsRead now
        → IsBefore v ⊎ IsAfter v
        → let out = refresh N c now resource_uri v in (out.0 ≡ ok resp.access_token) × IsAfter out.1
    missed-IsOnce v now read (inl before) =
        let (same, same_net) = fetch_token-net N c resource_uri v w before.1 in
        let (net, done, _) =
          (refresh-outcome N c now resource_uri v).1 (cached_before v now before) in
        let (token, tokens) = done resp (same ∙ asked) in
        (token, ((now, read, tokens resource_uri ∙ rw eq_refl refl), net ∙ same_net))
    missed-IsOnce v now read (inr after) =
        let hit =
          (refresh-outcome N c now resource_uri v).0 resp.access_token
            (cached_after v now read after) in
        rw hit (refl, after)

    advance-phase :
        (i : ℕ) (s : Callers N) (phase : Phase)
        → s.phases i ≡ phase
        → IsPhase phase
        → IsOnce s
        → IsOnce (advance N c resource_uri i s)
    unfolding advance
    advance-phase i s called e _ inv =
        rw (e, advance)
          (record {
            phase =
                put-IsPhase s i (timed (c.now_func s.world.ticks)) inv.phase (s.world.ticks, refl);
            world = inv.world;
          })
    advance-phase i s (timed now) e read inv =
        rw (e, advance)
          (record {
            phase =
                put-IsPhase s i (looked now (cached_token c now resource_uri s.world.tokens))
                  inv.phase (timed-IsOnce s i now inv read);
            world = inv.world;
          })
    advance-phase i s (missed now) e read inv =
        let (token, after) = missed-IsOnce s.world now read inv.world in
        rw (e, advance)
          (record {
            phase =
                put-IsPhase s i (returned (refresh N c now resource_uri s.world).0) inv.phase token;
            world = inr after;
          })
    advance-phase i s (returned r) e _ inv = rw (e, advance) inv

    Interleaved-IsOnce :
        {s s'' : Callers N} → IsOnce s → Interleaved N c resource_uri s s'' → IsOnce s''
    Interleaved-IsOnce inv begun = inv
    Interleaved-IsOnce inv (more {s'} steps i) =
        let before = Interleaved-IsOnce inv steps in
        advance-phase i s' (s'.phases i) refl (before.phase i) before

  -- Any number of callers ask for a token of one resource that the cache does not hold, with a
  -- buffer that is positive and below the largest int64. Whatever the order of their steps, at most
  -- one request is sent, and every caller that has returned has the token of that request, if the
  -- request succeeds and the token outlasts the buffer at all times that are read.
  pub Interleaved-once :
      (s : Callers N)
      → IsSensible c
      → (fetch_token N c resource_uri w).0 ≡ ok resp
      → IsCalm
      → lookup resource_uri w.tokens ≡ none
      → Interleaved N c resource_uri (record { phases = λ _. called; world = w }) s
      → ((i : ℕ) (r : Result String) → s.phases i ≡ returned r → r ≡ ok resp.access_token)
        × ((s.world.net ≡ w.net) ⊎ (s.world.net ≡ (fetch_token N c resource_uri w).1.net))
  Interleaved-once s sensible asked calm absent steps =
      let inv =
        Interleaved-IsOnce sensible asked calm
          (record { phase = λ _. tt; world = inl (absent, refl) }) steps in
      (
        λ i r e. subst IsPhase e (inv.phase i),
        elim inv.world [ inl before ↦ inl before.1 | inr after ↦ inr after.1 ],
      )
