-- ===== src/Tests/Locked.antt =====
-- The theorems on the lock of the two memory stores: one goroutine has its reply while another one
-- waits for the lock.
use go_oauth_client_credenti.Common.{
  ◌≡◌, ◌≢◌, refl, ℕ, false, none, [], ◌∷◌, eqb, Bool-cases, inl, inr,
}
use go_oauth_client_credenti.Locked.{
  Methods, called, inside, looked, unlocking, Config, at, holds, keeps_out, invoke, lock, look,
  commit, Reachable, begun, more, initial,
}
use go_oauth_client_credenti.Locked.Replay.{IsOrdered}
use go_oauth_client_credenti.Oauth2.Store.Locked
use go_oauth_client_credenti.Oauth2.Store.Locked.{memory_store-IsOrdered}
use go_oauth_client_credenti.Certificate.Store.Locked.{memory_certificates-IsOrdered}
use go_oauth_client_credenti.Certificate.Store
use go_oauth_client_credenti.Tests.Fixtures
use go_oauth_client_credenti.Tests.Certificate

module _ (M : Methods) (a b : M.Call) (m : M.State) (passed : M.refused a ≡ none) where
  abbrev both_called : Config M
  both_called = record (initial M m) {
    phases = at M 2 (called b) (at M 1 (called a) (initial M m).phases);
  }

  abbrev locked : Config M
  locked = record both_called { phases = at M 1 (inside a) both_called.phases }

  abbrev seen : Config M
  seen = record locked { phases = at M 1 (looked a (M.look a m)) locked.phases }

  abbrev replied : Config M
  replied =
      let (r, n) = M.commit a (M.look a m) m in
      record { phases = at M 1 (unlocking a r) seen.phases; state = n; log = (a, r) ∷ [] }

  free : (j : ℕ) → 1 ≢ j → keeps_out M a (holds M (both_called.phases j)) ≡ false
  unfolding holds
  free j other = elim (Bool-cases (eqb 2 j)) [
    | inl e ↦ rw e refl
    | inr e ↦ elim (Bool-cases (eqb 1 j)) [ inl f ↦ rw (e, f) refl | inr f ↦ rw (e, f) refl ]
  ]

  replied-Reachable : Reachable M m replied
  replied-Reachable =
      more
        (more
          (more (more (more begun 1 (invoke a refl)) 2 (invoke b refl)) 1 (lock a refl passed free))
          1 (look a refl))
        1
        (commit a (M.look a m) (M.commit a (M.look a m) m).0 (M.commit a (M.look a m) m).1 refl
          refl)

abbrev reading : Locked.Call
reading = Locked.get_client "client-1"

abbrev revoking : Locked.Call
revoking = Locked.revoke_token (Fixtures.clock 1) "hash"

reading_passed : Locked.refused reading ≡ none
unfolding Locked.refused
reading_passed = refl

memory_store-IsOrdered_example :
    IsOrdered Locked.methods Locked.atomic Fixtures.store
      (replied Locked.methods reading revoking Fixtures.store reading_passed)
memory_store-IsOrdered_example =
    memory_store-IsOrdered Fixtures.store
      (replied Locked.methods reading revoking Fixtures.store reading_passed)
      (replied-Reachable Locked.methods reading revoking Fixtures.store reading_passed)

abbrev deleting : Store.Locked.Call
deleting = Store.Locked.delete_challenge "abc"

abbrev serving : Store.Locked.Call
serving = Store.Locked.get_challenge "abc"

deleting_passed : Store.Locked.refused deleting ≡ none
unfolding Store.Locked.refused
deleting_passed = refl

memory_certificates-IsOrdered_example :
    IsOrdered Store.Locked.methods Store.Locked.atomic Certificate.store
      (replied Store.Locked.methods deleting serving Certificate.store deleting_passed)
memory_certificates-IsOrdered_example =
    memory_certificates-IsOrdered Certificate.store
      (replied Store.Locked.methods deleting serving Certificate.store deleting_passed)
      (replied-Reachable Store.Locked.methods deleting serving Certificate.store deleting_passed)
