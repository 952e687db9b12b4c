-- ===== src/Oauth2/Service/Overlap/Sound.antt =====
-- What holds however the calls overlap.
use mathlib.Core.Path.{subst}
use go_oauth_client_credenti.Common.{
  ◌≡◌, refl, sym, ap, ◌∙◌, ℕ, some, eqb, arith, Bool-cases, inl, inr, if◌then◌else◌,
}
use go_oauth_client_credenti.Oauth2.Types.{Time, Client, TokenRequest}
use go_oauth_client_credenti.Oauth2.Types.Platform.{Platform}
use go_oauth_client_credenti.Oauth2.Store.{Store}
use go_oauth_client_credenti.Oauth2.Store.Contract.{Maps, IsLawful}
use go_oauth_client_credenti.Oauth2.Service.{Service, World}
use go_oauth_client_credenti.Oauth2.Service.Issue.{authorize}
use go_oauth_client_credenti.Oauth2.Service.Lifecycle.Consistent.{IsConsistent}
use go_oauth_client_credenti.Oauth2.Service.Lifecycle.Reachable.{
  after, here, next, Reachable-IsConsistent,
}
use go_oauth_client_credenti.Oauth2.Service.Overlap.{
  Looked, refused, found, Phase, outside, holding, returned, Callers, phase_of, look, rest_of, Move,
  look_up, finish, whole, advance, Overlapped, begun, more,
}
use go_oauth_client_credenti.Oauth2.Service.Overlap.Keeps.{
  Keeps, after-Keeps, authorize-Keeps, authorize-IsConsistent,
}

module _ (p : Platform) (S : Store) (L : IsLawful S) (svc : Service) (wall : ℕ → Time) where
  look-store : (req : TokenRequest) (w : World S) → (look p S svc req w).1.store ≡ w.store
  unfolding look
  look-store req w = ground arith

  look-found :
      (req : TokenRequest) (w : World S) (client : Client)
      → (look p S svc req w).0 ≡ found client
      → (L.maps w.store).client_at req.client_id ≡ some client
  unfolding look
  look-found req w client h = ground (arith, L.get_client-maps req.client_id w.store)

  -- A caller that holds a client holds the one that is registered.
  abbrev IsHeld : World S → Phase → Type 0
  IsHeld w outside = Unit
  IsHeld w (holding req client) = (L.maps w.store).client_at req.client_id ≡ some client
  IsHeld w (returned r) = Unit

  record IsSound (s : Callers S) : Type 0 where
    consistent : IsConsistent (L.maps s.world.store)
    held : (i : ℕ) → IsHeld s.world (s.phases i)

  IsHeld-Keeps :
      (w w' : World S) (phase : Phase)
      → Keeps p S L svc wall w w'
      → IsHeld w phase
      → IsHeld w' phase
  IsHeld-Keeps w w' outside keeps held = tt
  IsHeld-Keeps w w' (holding req client) keeps held = keeps req.client_id client held
  IsHeld-Keeps w w' (returned r) keeps held = tt

  put-IsHeld :
      (s : Callers S) (i : ℕ) (phase : Phase) (w : World S)
      → IsSound s
      → Keeps p S L svc wall s.world w
      → IsHeld w phase
      → (j : ℕ) → IsHeld w (if eqb i j then phase else s.phases j)
  put-IsHeld s i phase w inv keeps this j = elim (Bool-cases (eqb i j)) [
    | inl e ↦ rw e this
    | inr e ↦ rw e (IsHeld-Keeps s.world w (s.phases j) keeps (inv.held j))
  ]

  looked-IsHeld :
      (req : TokenRequest) (w : World S) (l : Looked)
      → (look p S svc req w).0 ≡ l
      → IsHeld (look p S svc req w).1 (phase_of req l)
  looked-IsHeld req w (refused r) h = tt
  looked-IsHeld req w (found client) h =
      ap (λ (s : S.State). (L.maps s).client_at req.client_id) (look-store req w)
      ∙ look-found req w client h

  look_up-IsSound :
      (i : ℕ) (req : TokenRequest) (s : Callers S) (phase : Phase)
      → s.phases i ≡ phase
      → IsSound s
      → IsSound (advance p S svc wall (look_up i req) s)
  unfolding advance
  look_up-IsSound i req s (holding _ _) e inv = rw (e, advance) inv
  look_up-IsSound i req s (returned _) e inv = rw (e, advance) inv
  look_up-IsSound i req s outside e inv =
      let w = (look p S svc req s.world).1 in
      let same : L.maps w.store ≡ L.maps s.world.store = ap L.maps (look-store req s.world) in
      rw (e, advance)
        (record {
          consistent = subst IsConsistent (sym same) inv.consistent;
          held =
              put-IsHeld s i (phase_of req (look p S svc req s.world).0) w inv
                (λ k c h. ap (λ (m : Maps). m.client_at k) same ∙ h)
                (looked-IsHeld req s.world (look p S svc req s.world).0 refl);
        })

  finish-IsSound :
      (i : ℕ) (s : Callers S) (phase : Phase)
      → s.phases i ≡ phase
      → IsHeld s.world phase
      → IsSound s
      → IsSound (advance p S svc wall (finish i) s)
  unfolding advance rest_of
  finish-IsSound i s outside e _ inv = rw (e, advance) inv
  finish-IsSound i s (returned _) e _ inv = rw (e, advance) inv
  finish-IsSound i s (holding req client) e held inv =
      let out = authorize p S svc client req s.world in
      rw (e, advance)
        (record {
          consistent = authorize-IsConsistent p S L svc wall client req s.world inv.consistent held;
          held =
              put-IsHeld s i (returned out.0) out.1 inv
                (authorize-Keeps p S L svc wall client req s.world) tt;
        })

  advance-IsSound :
      (m : Move p S svc wall) (s : Callers S) → IsSound s → IsSound (advance p S svc wall m s)
  unfolding advance
  advance-IsSound (whole c) s inv = record {
    consistent = Reachable-IsConsistent p S L svc wall inv.consistent (next here c);
    held = λ i.
        IsHeld-Keeps s.world (after p S svc wall c s.world) (s.phases i)
          (after-Keeps p S L svc wall c s.world) (inv.held i);
  }
  advance-IsSound (look_up i req) s inv = look_up-IsSound i req s (s.phases i) refl inv
  advance-IsSound (finish i) s inv = finish-IsSound i s (s.phases i) refl (inv.held i) inv

  Overlapped-IsSound : {s s'' : Callers S} → IsSound s → Overlapped p S svc wall s s'' → IsSound s''
  Overlapped-IsSound inv begun = inv
  Overlapped-IsSound inv (more {s'} moves m) = advance-IsSound m s' (Overlapped-IsSound inv moves)

  -- However calls of the service overlap, with any of them between the two steps of an `IssueToken`,
  -- from a store that is consistent only consistent ones are reached: every stored token belongs to
  -- a registered client and lies within its resources and scopes, though the client was read before.
  pub Overlapped-IsConsistent :
      (w : World S) (s : Callers S)
      → IsConsistent (L.maps w.store)
      → Overlapped p S svc wall (record { phases = λ _. outside; world = w }) s
      → IsConsistent (L.maps s.world.store)
  Overlapped-IsConsistent w s inv moves =
      (Overlapped-IsSound (record { consistent = inv; held = λ _. tt }) moves).consistent
