-- ===== src/Locked/Replay.antt =====
-- Calls of goroutines that overlap take effect one after another.
use mathlib.Core.List.{Memᴰ}
use mathlib.Core.Path.{subst}
use go_oauth_client_credenti.Common.{
  ◌≡◌, refl, sym, ap, ◌∙◌, ◌⊎◌, inl, inr, some, ℕ, List, [], ◌∷◌, map,
}
use go_oauth_client_credenti.Locked.{
  Methods, run, unlocking, calling, Config, Step, invoke, refuse, lock, look, commit, unlock,
  Reachable,
}
use go_oauth_client_credenti.Locked.Sound.{
  IsShared, Replayed, none_yet, next_call, Says, says, Reachable-IsSound,
}

module _ (M : Methods) where
  -- The calls of a list, the last one first, each as one step.
  unfoldable pub played :
      (M.Call → M.State → M.Reply × M.State) → List M.Call → M.State → List M.Reply × M.State
  played step [] m = ([], m)
  played step (c ∷ cs) m = let (rs, n) = played step cs m in let (r, n') = step c n in (r ∷ rs, n')

  Replayed-played :
      (step : M.Call → M.State → M.Reply × M.State)
      → ((c : M.Call) (m : M.State) → run M c m ≡ step c m)
      → {start m : M.State} {log : List (M.Call × M.Reply)} → Replayed M start log m
      → played step (map (λ e. e.0) log) start ≡ (map (λ e. e.1) log, m)
  unfolding played
  Replayed-played step same none_yet = refl
  Replayed-played step same (next_call {log} {n} c r n' before ran) =
      rw (played, Replayed-played step same before, sym (same c n) ∙ ran) refl

  -- A step adds at most one entry to the log, in front, for a call that the goroutine is in.
  Step-log :
      {s : Config M} {i : ℕ} {t : Config M}
      → Step M s i t
      → (t.log ≡ s.log)
        ⊎ ((c : M.Call) × (r : M.Reply) × (calling M (s.phases i) ≡ some c)
            × (t.log ≡ (c, r) ∷ s.log))
  unfolding calling
  Step-log (invoke c h) = inl refl
  Step-log (refuse c r h refused) = inr (c, r, ap (calling M) h, refl)
  Step-log (lock c h passed free) = inl refl
  Step-log (look c h) = inl refl
  Step-log (commit c x r m h e) = inr (c, r, ap (calling M) h, refl)
  Step-log (unlock c r h) = inl refl

  -- What the log says of a configuration, if `step` is a method as one step.
  pub record IsOrdered (step : M.Call → M.State → M.Reply × M.State) (start : M.State)
      (s : Config M) : Type 0 where
    pub played : played step (map (λ e. e.0) s.log) start ≡ (map (λ e. e.1) s.log, s.state)
    pub answered :
        (i : ℕ) (c : M.Call) (r : M.Reply) → s.phases i ≡ unlocking c r → Memᴰ (c, r) s.log
    pub grows :
        (i : ℕ) (t : Config M)
        → Step M s i t
        → (t.log ≡ s.log)
          ⊎ ((c : M.Call) × (r : M.Reply) × (calling M (s.phases i) ≡ some c)
              × (t.log ≡ (c, r) ∷ s.log))

  -- However the steps of goroutines interleave, the log is one of calls made one after another, each
  -- in one step: the replies are the ones of these calls, and the state is what the last one left. A
  -- call that is about to return has its reply in the log, and a call enters the log after it was
  -- made, behind those that are there.
  pub Reachable-IsOrdered :
      IsShared M
      → (step : M.Call → M.State → M.Reply × M.State)
      → ((c : M.Call) (m : M.State) → run M c m ≡ step c m)
      → (start : M.State) (s : Config M) → Reachable M start s
      → IsOrdered step start s
  Reachable-IsOrdered shared step same start s r =
      let inv = Reachable-IsSound M shared r in
      record {
        played = Replayed-played step same inv.replayed;
        answered = λ i c reply h. subst (Says M s.state s.log) h (says M (inv.fit i));
        grows = λ i t. Step-log;
      }
