-- ===== src/Client/Cache/Callers.antt =====
-- Any number of callers of `GetToken` for one resource, whose steps interleave in any order: each
-- reads the clock, looks at the cache under the read lock, and, if that gave no token, goes on under
-- the write lock.
pub mod Once
pub mod Alone
use go_oauth_client_credenti.Common.{ℕ, String, Option, none, some, ◌≡◌, eqb, if◌then◌else◌}
use go_oauth_client_credenti.Oauth2.Exec.{Result, ok}
use go_oauth_client_credenti.Oauth2.Types.{Time}
use go_oauth_client_credenti.Client.{Client, World, read_clock}
use go_oauth_client_credenti.Client.Network.{Network}
use go_oauth_client_credenti.Client.Cache.{cached_token, refresh}

-- Where a caller is.
pub data Phase : Type 0 where
  called : Phase
  timed : Time → Phase
  missed : Time → Phase
  returned : Result String → Phase

pub record Callers (N : Network) : Type 0 where
  pub phases : ℕ → Phase
  pub world : World N.State

abbrev pub at : {N : Network} → Callers N → ℕ → Phase → World N.State → Callers N
at s i phase w = record { phases = λ j. if eqb i j then phase else s.phases j; world = w }

-- After the look at the cache.
abbrev pub looked : Time → Option String → Phase
looked now none = missed now
looked now (some token) = returned (ok token)

module _ (N : Network) (c : Client) (resource_uri : String) where
  -- The step of one caller. Each is atomic: the clock is read at once, and the other two run under
  -- the lock.
  unfoldable pub advance : ℕ → Callers N → Callers N
  advance i s = elim (s.phases i) [
    | called ↦ at s i (timed (c.now_func s.world.ticks)) (read_clock N.State c s.world).1
    | timed now ↦ at s i (looked now (cached_token c now resource_uri s.world.tokens)) s.world
    | missed now ↦ let (r, w) = refresh N c now resource_uri s.world in at s i (returned r) w
    | returned r ↦ s
  ]

  -- The states that steps reach, in any order of the callers.
  pub data Interleaved (s : Callers N) : Callers N → Type 0 where
    begun : Interleaved s s
    more : {s' : Callers N} → Interleaved s s' → (i : ℕ) → Interleaved s (advance i s')
