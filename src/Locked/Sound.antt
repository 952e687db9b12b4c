-- ===== src/Locked/Sound.antt =====
-- An invariant of the goroutines that call the methods of a state behind a lock.
use mathlib.Core.Path.{subst}
use mathlib.Core.List.{Memᴰ}
use go_oauth_client_credenti.Common.{
  ◌≡◌, refl, sym, ap, ◌∙◌, ◌≢◌, inl, inr, ℕ, Bool, true, false, Option, none, some, List, [], ◌∷◌,
  eqb, arith, Bool-cases,
}
use go_oauth_client_credenti.Locked.{
  Methods, run, Phase, away, called, inside, looked, unlocking, holds, keeps_out, Config, at, Step,
  invoke, refuse, lock, look, commit, unlock, initial, Reachable, begun, more,
}

eqb-IsEqual : (i j : ℕ) → eqb i j ≡ true → i ≡ j
eqb-IsEqual i j h = ground (arith, h)

eqb-same : (i : ℕ) → eqb i i ≡ true
eqb-same i = ground arith

-- The methods that share the lock leave the state.
abbrev pub IsShared : Methods → Type 0
IsShared M =
    (c : M.Call) (x : M.Seen) (m : M.State) → M.exclusive c ≡ false → (M.commit c x m).1 ≡ m

module _ (M : Methods) where
  -- The replies are those of the calls, each run in one step, on the state that the earlier ones
  -- left, and the state is what the last one left.
  pub data Replayed (m : M.State) : List (M.Call × M.Reply) → M.State → Type 0 where
    none_yet : Replayed m [] m
    next_call :
        {log : List (M.Call × M.Reply)} {n : M.State} (c : M.Call) (r : M.Reply) (n' : M.State)
        → Replayed m log n
        → run M c n ≡ (r, n')
        → Replayed m ((c, r) ∷ log) n'

  -- What a phase says of the state and the log.
  pub data IsFit (m : M.State) (log : List (M.Call × M.Reply)) : Phase M → Type 0 where
    fit_away : IsFit m log away
    fit_called : (c : M.Call) → IsFit m log (called c)
    fit_inside : (c : M.Call) → M.refused c ≡ none → IsFit m log (inside c)
    fit_looked :
        (c : M.Call) (x : M.Seen) → M.refused c ≡ none → x ≡ M.look c m → IsFit m log (looked c x)
    fit_unlocking : (c : M.Call) (r : M.Reply) → Memᴰ (c, r) log → IsFit m log (unlocking c r)

  abbrev pub excludes : Option M.Call → Option M.Call → Bool
  excludes none b = false
  excludes (some c) b = keeps_out M c b

  pub record IsSound (start : M.State) (s : Config M) : Type 0 where
    pub replayed : Replayed start s.log s.state
    pub fit : (i : ℕ) → IsFit s.state s.log (s.phases i)
    pub apart : (i j : ℕ) → i ≢ j → excludes (holds M (s.phases i)) (holds M (s.phases j)) ≡ false

  IsFit-kept :
      {m m' : M.State} {log log' : List (M.Call × M.Reply)} {ph : Phase M}
      → ((e : M.Call × M.Reply) → Memᴰ e log → Memᴰ e log')
      → m' ≡ m
      → IsFit m log ph
      → IsFit m' log' ph
  IsFit-kept grow same fit_away = fit_away
  IsFit-kept grow same (fit_called c) = fit_called c
  IsFit-kept grow same (fit_inside c h) = fit_inside c h
  IsFit-kept grow same (fit_looked c x h e) = fit_looked c x h (e ∙ ap (M.look c) (sym same))
  IsFit-kept grow same (fit_unlocking c r h) = fit_unlocking c r (grow (c, r) h)

  -- A goroutine that holds no lock does not mind what happens to the state.
  IsFit-idle :
      {m m' : M.State} {log log' : List (M.Call × M.Reply)} {ph : Phase M}
      → holds M ph ≡ none
      → IsFit m log ph
      → IsFit m' log' ph
  unfolding holds
  IsFit-idle idle fit_away = fit_away
  IsFit-idle idle (fit_called c) = fit_called c
  IsFit-idle idle (fit_inside c h) = absurd (ground (arith, idle))
  IsFit-idle idle (fit_looked c x h e) = absurd (ground (arith, idle))
  IsFit-idle idle (fit_unlocking c r h) = absurd (ground (arith, idle))

  excludes-sym : (a b : Option M.Call) → excludes a b ≡ excludes b a
  excludes-sym none none = refl
  excludes-sym none (some d) = refl
  excludes-sym (some c) none = refl
  excludes-sym (some c) (some d) = ground arith

  -- A change of one goroutine's phase, of the state and of the log.
  stepped :
      {start : M.State} {s : Config M} (i : ℕ) (ph : Phase M) (m : M.State)
      (log : List (M.Call × M.Reply))
      → IsSound start s
      → Replayed start log m
      → IsFit m log ph
      → ((j : ℕ) → i ≢ j → IsFit m log (s.phases j))
      → ((j : ℕ) → i ≢ j → excludes (holds M ph) (holds M (s.phases j)) ≡ false)
      → IsSound start (record { phases = at M i ph s.phases; state = m; log = log })
  stepped {s = s} i ph m log inv replayed fit others free = record {
    replayed = replayed;
    fit = λ j. elim (Bool-cases (eqb i j)) [
      | inl e ↦ rw e fit
      | inr e ↦ rw e (others j (different i j e))
    ];
    apart = λ j k other. elim (Bool-cases (eqb i j)) [
      | inl e ↦ elim (Bool-cases (eqb i k)) [
        | inl f ↦ absurd (other (sym (eqb-IsEqual i j e) ∙ eqb-IsEqual i k f))
        | inr f ↦ rw (e, f) (free k (different i k f))
      ]
      | inr e ↦ elim (Bool-cases (eqb i k)) [
        | inl f ↦
            rw (e, f) (excludes-sym (holds M (s.phases j)) (holds M ph) ∙ free j (different i j e))
        | inr f ↦ rw (e, f) (inv.apart j k other)
      ]
    ];
  }
    where
      different : (j k : ℕ) → eqb j k ≡ false → j ≢ k
      different j k e = λ h. ground (arith, e)

  -- What a fit phase says, by cases of the phase.
  abbrev pub Says : M.State → List (M.Call × M.Reply) → Phase M → Type 0
  Says m log (inside c) = M.refused c ≡ none
  Says m log (looked c x) = (M.refused c ≡ none) × (x ≡ M.look c m)
  Says m log (unlocking c r) = Memᴰ (c, r) log
  Says m log _ = Unit

  pub says :
      {m : M.State} {log : List (M.Call × M.Reply)} {ph : Phase M} → IsFit m log ph → Says m log ph
  says fit_away = tt
  says (fit_called c) = tt
  says (fit_inside c h) = h
  says (fit_looked c x h e) = (h, e)
  says (fit_unlocking c r h) = h

  alone :
      (c : M.Call) (o : Option M.Call) → M.exclusive c ≡ true → keeps_out M c o ≡ false → o ≡ none
  alone c none h e = refl
  alone c (some d) h e = absurd (ground (arith, h, e))

  run-commit :
      (c : M.Call) (m : M.State) → M.refused c ≡ none → run M c m ≡ M.commit c (M.look c m) m
  unfolding run
  run-commit c m h = rw (run, h) refl

  run-refused : (c : M.Call) (r : M.Reply) (m : M.State) → M.refused c ≡ some r → run M c m ≡ (r, m)
  unfolding run
  run-refused c r m h = rw (run, h) refl

  module _ (shared : IsShared M) {start : M.State} {s : Config M} (inv : IsSound start s)
      (i : ℕ) where
    -- A goroutine that goes on under its lock keeps out whom it kept out.
    still_out :
        (c : M.Call) (ph : Phase M)
        → s.phases i ≡ ph
        → holds M ph ≡ some c
        → (j : ℕ) → i ≢ j
        → keeps_out M c (holds M (s.phases j)) ≡ false
    still_out c ph at_ph held j other =
        ap (λ (o : Option M.Call). excludes o (holds M (s.phases j))) (sym held)
        ∙ ap (λ (q : Phase M). excludes (holds M q) (holds M (s.phases j))) (sym at_ph)
        ∙ inv.apart i j other

    commit-others :
        (c : M.Call) (x : M.Seen) (r : M.Reply) (m : M.State)
        → s.phases i ≡ looked c x
        → M.commit c x s.state ≡ (r, m)
        → (j : ℕ) → i ≢ j
        → IsFit m ((c, r) ∷ s.log) (s.phases j)
    unfolding holds
    commit-others c x r m at_ph e j other = elim (Bool-cases (M.exclusive c)) [
      | inl h ↦
          IsFit-idle
            (alone c (holds M (s.phases j)) h (still_out c (looked c x) at_ph refl j other))
            (inv.fit j)
      | inr h ↦
          IsFit-kept (λ q. Memᴰ.tail)
            (ap (λ (o : M.Reply × M.State). o.1) (sym e) ∙ shared c x s.state h) (inv.fit j)
    ]

    Step-IsSound : {t : Config M} → Step M s i t → IsSound start t
    unfolding holds
    Step-IsSound (invoke c h) =
        stepped i (called c) s.state s.log inv inv.replayed (fit_called c) (λ j _. inv.fit j)
          (λ j _. refl)
    Step-IsSound (refuse c r h refused) =
        stepped i away s.state ((c, r) ∷ s.log) inv
          (next_call c r s.state inv.replayed (run-refused c r s.state refused)) fit_away
          (λ j _. IsFit-kept (λ q. Memᴰ.tail) refl (inv.fit j)) (λ j _. refl)
    Step-IsSound (lock c h passed free) =
        stepped i (inside c) s.state s.log inv inv.replayed (fit_inside c passed) (λ j _. inv.fit j)
          free
    Step-IsSound (look c h) =
        stepped i (looked c (M.look c s.state)) s.state s.log inv inv.replayed
          (fit_looked c (M.look c s.state) (subst (Says s.state s.log) h (says (inv.fit i))) refl)
          (λ j _. inv.fit j) (still_out c (inside c) h refl)
    Step-IsSound (commit c x r m h e) =
        let (passed, seen) = subst (Says s.state s.log) h (says (inv.fit i)) in
        let ran : run M c s.state ≡ (r, m) =
          run-commit c s.state passed ∙ ap (λ (y : M.Seen). M.commit c y s.state) (sym seen) ∙ e in
        stepped i (unlocking c r) m ((c, r) ∷ s.log) inv (next_call c r m inv.replayed ran)
          (fit_unlocking c r (Memᴰ.head refl)) (commit-others c x r m h e)
          (still_out c (looked c x) h refl)
    Step-IsSound (unlock c r h) =
        stepped i away s.state s.log inv inv.replayed fit_away (λ j _. inv.fit j) (λ j _. refl)

  initial-IsSound : (m : M.State) → IsSound m (initial M m)
  unfolding holds
  initial-IsSound m = record { replayed = none_yet; fit = λ i. fit_away; apart = λ i j other. refl }

  pub Reachable-IsSound :
      IsShared M → {start : M.State} {s : Config M} → Reachable M start s → IsSound start s
  Reachable-IsSound shared {start} begun = initial-IsSound start
  Reachable-IsSound shared (more before i step) =
      Step-IsSound shared (Reachable-IsSound shared before) i step
