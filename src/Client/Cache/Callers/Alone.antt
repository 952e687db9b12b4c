-- ===== src/Client/Cache/Callers/Alone.antt =====
-- A caller of `GetToken` that no other caller interrupts.
use go_oauth_client_credenti.Common.{◌≡◌, ℕ, String, inl, inr, eqb, arith, Option-cases, true}
use go_oauth_client_credenti.Client.{Client}
use go_oauth_client_credenti.Client.Network.{Network}
use go_oauth_client_credenti.Client.Cache.{cached_token, get_token}
use go_oauth_client_credenti.Client.Cache.Callers.{Callers, called, returned, advance}

module _ (N : Network) (c : Client) (resource_uri : String) where
  abbrev pub thrice : ℕ → Callers N → Callers N
  thrice i s =
      advance N c resource_uri i (advance N c resource_uri i (advance N c resource_uri i s))

  same_index : (i : ℕ) → eqb i i ≡ true
  same_index i = ground arith

  -- Three steps of one caller in a row do what the whole of `GetToken` does: the caller has returned
  -- its result, and the world is the one that it leaves.
  pub thrice-get_token :
      (i : ℕ) (s : Callers N)
      → s.phases i ≡ called
      → ((thrice i s).phases i ≡ returned (get_token N c resource_uri s.world).0)
        × ((thrice i s).world ≡ (get_token N c resource_uri s.world).1)
  unfolding advance get_token
  thrice-get_token i s e =
      let same = same_index i in
      elim (Option-cases (cached_token c (c.now_func s.world.ticks) resource_uri s.world.tokens)) [
        | inl absent ↦ (ground arith, ground arith)
        | inr (token, found) ↦ (ground arith, ground arith)
      ]
