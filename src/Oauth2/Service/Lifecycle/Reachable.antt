-- ===== src/Oauth2/Service/Lifecycle/Reachable.antt =====
-- The calls that clients may make, in any order, and what holds of every state that they reach.
use mathlib.Core.Path.{subst}
use go_oauth_client_credenti.Common.{
  ◌≡◌, sym, ap, ℕ, suc, String, none, some, Option, arith, ◌==◌, Bool-cases, Option-cases, inl, inr,
}
use go_oauth_client_credenti.Common.Text.{◌<>◌}
use go_oauth_client_credenti.Oauth2.Error.{Error}
use go_oauth_client_credenti.Oauth2.Exec.{Result, err, Result-cases}
use go_oauth_client_credenti.Oauth2.Types.{
  Time, Token, TokenRequest, TokenResponse, RegisterClientRequest, RegisterClientResponse,
}
use go_oauth_client_credenti.Oauth2.Encoding.{base64_encode}
use go_oauth_client_credenti.Oauth2.Types.Platform.{Platform}
use go_oauth_client_credenti.Oauth2.Store.{Store}
use go_oauth_client_credenti.Oauth2.Store.Contract.{IsLawful}
use go_oauth_client_credenti.Oauth2.Service.{Service, World}
use go_oauth_client_credenti.Oauth2.Service.Random.{compute_token_hash}
use go_oauth_client_credenti.Oauth2.Service.Issue.{make_token, issue_token}
use go_oauth_client_credenti.Oauth2.Service.Issue.Sound.{issue_token_sound}
use go_oauth_client_credenti.Oauth2.Service.Issue.Audit.{issue_token-IsAudited}
use go_oauth_client_credenti.Oauth2.Service.Register.{make_client, register_client}
use go_oauth_client_credenti.Oauth2.Service.Register.Sound.{
  register_client_sound, register_client-failed,
}
use go_oauth_client_credenti.Oauth2.Service.Validate.{
  validate_token, introspect_token, revoke_token,
}
use go_oauth_client_credenti.Oauth2.Service.Validate.Live.{validate_token-world}
use go_oauth_client_credenti.Oauth2.Service.Lifecycle.Consistent.{
  IsConsistent, IsConsistent-client, IsConsistent-token,
}

module _ (p : Platform) (S : Store) (svc : Service) (wall : ℕ → Time) where
  -- A call of one of the service's methods.
  pub data Call : Type 0 where
    register : Option RegisterClientRequest → Call
    issue : Option TokenRequest → Call
    validate : String → Call
    introspect : String → Call
    revoke : String → Call

  unfoldable pub after : Call → World S → World S
  after (register req) w = (register_client p S svc req w).1
  after (issue req) w = (issue_token p S svc req w).1
  after (validate raw) w = (validate_token p S svc raw w).1
  after (introspect raw) w = (introspect_token p S svc raw w).1
  after (revoke raw) w = (revoke_token p S svc wall raw w).1

  -- The states that calls reach, one after another.
  pub data Reachable (w : World S) : World S → Type 0 where
    here : Reachable w w
    next : {u : World S} → Reachable w u → (c : Call) → Reachable w (after c u)

module _ (p : Platform) (S : Store) (L : IsLawful S) (svc : Service) (wall : ℕ → Time) where
  pub introspect_token-store :
      (raw : String) (w : World S) → (introspect_token p S svc raw w).1.store ≡ w.store
  unfolding introspect_token
  introspect_token-store raw w = ground (arith, validate_token-world p S L svc raw w)

  pub issue_token-failed :
      (req : Option TokenRequest) (w : World S) (e : Error)
      → (issue_token p S svc req w).0 ≡ err e
      → L.maps (issue_token p S svc req w).1.store ≡ L.maps w.store
  issue_token-failed req w e h = rw h at ((issue_token-IsAudited p S L svc req w).kept)

  pub issue_token-IsConsistent :
      (req : Option TokenRequest) (w : World S)
      → IsConsistent (L.maps w.store)
      → IsConsistent (L.maps (issue_token p S svc req w).1.store)
  issue_token-IsConsistent none w inv = unfold issue_token in inv
  issue_token-IsConsistent (some req) w inv =
      let w' = (issue_token p S svc (some req) w).1 in
      elim (Result-cases (issue_token p S svc (some req) w).0) [
        | inr (e, failed) ↦ subst IsConsistent (sym (issue_token-failed (some req) w e failed)) inv
        | inl (resp, issued) ↦
            let (client, may, (bytes, drawn, stored, e)) =
              issue_token_sound p S L svc req w w' resp
                (ap (λ (r : Result TokenResponse). (r, w')) issued) in
            let t : Token =
              make_token p S svc client req ("opq_" <> base64_encode bytes)
                (svc.now_func (suc w.ticks)) in
            IsConsistent-token inv client t
              (rw (inv.client_key req.client_id client may.registered) may.registered) may.resource
              may.scope stored.clients stored.tokens
      ]

  pub register_client-IsConsistent :
      (req : Option RegisterClientRequest) (w : World S)
      → IsConsistent (L.maps w.store)
      → IsConsistent (L.maps (register_client p S svc req w).1.store)
  register_client-IsConsistent none w inv = unfold register_client in inv
  register_client-IsConsistent (some req) w inv =
      elim (Result-cases (register_client p S svc (some req) w).0) [
        | inr (e, failed) ↦
            subst IsConsistent (sym (register_client-failed p S L svc (some req) w e failed)) inv
        | inl (resp, added) ↦
            let a =
              (register_client_sound p S L svc req w (register_client p S svc (some req) w).1 resp (
                ap
                  (λ (r : Result RegisterClientResponse).
                    (r, (register_client p S svc (some req) w).1))
                  added)).2 in
            IsConsistent-client inv (make_client p S svc req resp.client_id a.hash a.now) a.fresh
              a.clients a.tokens
      ]

  pub revoke_token-IsConsistent :
      (raw : String) (w : World S)
      → IsConsistent (L.maps w.store)
      → IsConsistent (L.maps (revoke_token p S svc wall raw w).1.store)
  unfolding revoke_token
  revoke_token-IsConsistent raw w inv = elim (Bool-cases (raw == "")) [
    | inl e ↦ rw e inv
    | inr e ↦
        let h = compute_token_hash p raw in
        let law = L.revoke_token-maps (wall w.ticks) h w.store in
        rw e (elim (Option-cases ((L.maps w.store).token_at h)) [
          | inl absent ↦ subst IsConsistent (ground (arith, law)) inv
          | inr (t, found) ↦
              let (c, registered, target, scope) = inv.owner h t found in
              let key : t.token_hash ≡ h = inv.token_key h t found in
              IsConsistent-token inv c (record t { revoked_at = some (wall w.ticks) }) registered
                target scope (ground (arith, law)) (rw key (ground (arith, law)))
        ])
  ]

  -- Whatever calls are made, from two maps that are consistent only consistent ones are reached:
  -- every stored token belongs to a registered client and lies within its resources and scopes.
  pub Reachable-IsConsistent :
      {w u : World S}
      → IsConsistent (L.maps w.store)
      → Reachable p S svc wall w u
      → IsConsistent (L.maps u.store)
  unfolding after
  Reachable-IsConsistent inv here = inv
  Reachable-IsConsistent inv (next {u} r (register req)) =
      register_client-IsConsistent req u (Reachable-IsConsistent inv r)
  Reachable-IsConsistent inv (next {u} r (issue req)) =
      issue_token-IsConsistent req u (Reachable-IsConsistent inv r)
  Reachable-IsConsistent inv (next {u} r (validate raw)) =
      rw ((validate_token-world p S L svc raw u).0) (Reachable-IsConsistent inv r)
  Reachable-IsConsistent inv (next {u} r (introspect raw)) =
      rw (introspect_token-store raw u) (Reachable-IsConsistent inv r)
  Reachable-IsConsistent inv (next {u} r (revoke raw)) =
      revoke_token-IsConsistent raw u (Reachable-IsConsistent inv r)
