-- ===== src/Oauth2/Service/Lifecycle/Revocation.antt =====
-- What later calls leave of a token that was issued, and of one that was revoked.
use go_oauth_client_credenti.Common.{
  ◌≡◌, refl, sym, ap, ◌≢◌, ◌∙◌, ℕ, String, false, Option, none, some, List, arith, ◌==◌, eq_iff,
  Bool-cases, inl, inr, suc,
}
use go_oauth_client_credenti.Common.Int.{◌+ℤ◌, ◌≤ℤ◌}
use go_oauth_client_credenti.Oauth2.Service.Lifecycle.Consistent.{IsConsistent}
use go_oauth_client_credenti.Oauth2.Service.Lifecycle.RoundTrip.{validate_token-issue_token}
use go_oauth_client_credenti.Oauth2.Service.Validate.Live.{
  IsLive, validate_token_iff, validate_token-world,
}
use go_oauth_client_credenti.Common.Text.{◌<>◌}
use go_oauth_client_credenti.Oauth2.Error.{sentinel, token_revoked}
use go_oauth_client_credenti.Oauth2.Exec.{Result, ok, err, Result-cases}
use go_oauth_client_credenti.Oauth2.Encoding.{base64_encode}
use go_oauth_client_credenti.Oauth2.Types.{
  Time, Token, TokenRequest, TokenResponse, RegisterClientRequest, RegisterClientResponse,
}
use go_oauth_client_credenti.Oauth2.Types.Platform.{Platform}
use go_oauth_client_credenti.Oauth2.Store.{Store}
use go_oauth_client_credenti.Oauth2.Store.Contract.{Maps, IsLawful}
use go_oauth_client_credenti.Oauth2.Service.{Service, World, token_entropy_len}
use go_oauth_client_credenti.Oauth2.Service.Random.{read_bytes, compute_token_hash}
use go_oauth_client_credenti.Oauth2.Service.Issue.{issue_token}
use go_oauth_client_credenti.Oauth2.Service.Issue.Sound.{issue_token_sound}
use go_oauth_client_credenti.Oauth2.Service.Register.{register_client}
use go_oauth_client_credenti.Oauth2.Service.Register.Sound.{
  register_client_sound, register_client-failed,
}
use go_oauth_client_credenti.Oauth2.Service.Validate.{judge, validate_token, revoke_token}
use go_oauth_client_credenti.Oauth2.Service.Validate.Revoked.{revoke_token-maps}
use go_oauth_client_credenti.Oauth2.Service.Lifecycle.Reachable.{
  Call, register, issue, validate, introspect, revoke, after, introspect_token-store,
  issue_token-failed,
}

module _ (p : Platform) (S : Store) (svc : Service) (wall : ℕ → Time) where
  -- The bytes that an issue would draw do not make a token with the hash.
  abbrev pub NoClash : String → Call p S svc wall → World S → Type 0
  NoClash h (issue req) w =
      (bytes : List ℕ)
      → (read_bytes token_entropy_len w.rand_reader).0 ≡ some bytes
      → compute_token_hash p ("opq_" <> base64_encode bytes) ≢ h
  NoClash h _ w = Unit

  -- Nor is the token with the hash revoked.
  abbrev pub Spares : String → Call p S svc wall → World S → Type 0
  Spares h (revoke raw) w = compute_token_hash p raw ≢ h
  Spares h c w = NoClash h c w

  -- The states that calls of a kind reach, one after another.
  pub data Onward (Q : Call p S svc wall → World S → Type 0) (w : World S) : World S → Type 0 where
    stay : Onward Q w w
    step :
        {u : World S}
        → Onward Q w u
        → (c : Call p S svc wall) → Q c u
        → Onward Q w (after p S svc wall c u)

module _ (p : Platform) (S : Store) (L : IsLawful S) (svc : Service) (wall : ℕ → Time)
    (h : String) where
  -- What a state holds under the hash.
  abbrev token_of : World S → Option Token
  token_of w = (L.maps w.store).token_at h

  issue_token-token_of :
      (req : Option TokenRequest) (w : World S)
      → NoClash p S svc wall h (issue req) w
      → token_of (issue_token p S svc req w).1 ≡ token_of w
  issue_token-token_of none w fresh = unfold issue_token in refl
  issue_token-token_of (some req) w fresh =
      let w' = (issue_token p S svc (some req) w).1 in
      elim (Result-cases (issue_token p S svc (some req) w).0) [
        | inr (e, failed) ↦
            ap (λ (m : Maps). m.token_at h)
              (issue_token-failed p S L svc wall (some req) w e failed)
        | inl (resp, issued) ↦
            let (client, may, (bytes, drawn, stored, e)) =
              issue_token_sound p S L svc req w w' resp
                (ap (λ (r : Result TokenResponse). (r, w')) issued) in
            let k = compute_token_hash p ("opq_" <> base64_encode bytes) in
            let other : (k == h) ≡ false = ground (arith, eq_iff k h, fresh bytes drawn) in
            ap (λ (f : String → Option Token). f h) stored.tokens ∙ rw other refl
      ]

  register_client-token_of :
      (req : Option RegisterClientRequest) (w : World S)
      → token_of (register_client p S svc req w).1 ≡ token_of w
  register_client-token_of none w = unfold register_client in refl
  register_client-token_of (some req) w =
      let w' = (register_client p S svc (some req) w).1 in
      elim (Result-cases (register_client p S svc (some req) w).0) [
        | inr (e, failed) ↦
            ap (λ (m : Maps). m.token_at h) (register_client-failed p S L svc (some req) w e failed)
        | inl (resp, added) ↦
            let a =
              (register_client_sound p S L svc req w w' resp
                (ap (λ (r : Result RegisterClientResponse). (r, w')) added)).2 in
            ap (λ (f : String → Option Token). f h) a.tokens
      ]

  revoke_token-token_of :
      (raw : String) (w : World S)
      → compute_token_hash p raw ≢ h
      → token_of (revoke_token p S svc wall raw w).1 ≡ token_of w
  revoke_token-token_of raw w other =
      (revoke_token-maps p S L svc wall raw w).2 h (λ same. other (sym same))

  after-token_of :
      (c : Call p S svc wall) (w : World S)
      → Spares p S svc wall h c w
      → token_of (after p S svc wall c w) ≡ token_of w
  unfolding after
  after-token_of (register req) w _ = register_client-token_of req w
  after-token_of (issue req) w fresh = issue_token-token_of req w fresh
  after-token_of (validate raw) w _ =
      ap (λ (s : S.State). (L.maps s).token_at h) (validate_token-world p S L svc raw w).0
  after-token_of (introspect raw) w _ =
      ap (λ (s : S.State). (L.maps s).token_at h) (introspect_token-store p S L svc wall raw w)
  after-token_of (revoke raw) w other = revoke_token-token_of raw w other

  pub Onward-token_of :
      {w u : World S} → Onward p S svc wall (Spares p S svc wall h) w u → token_of u ≡ token_of w
  Onward-token_of stay = refl
  Onward-token_of (step {u} on c spares) = after-token_of c u spares ∙ Onward-token_of on

  -- A token is there, and marked.
  abbrev IsRevoked : Option Token → Type 0
  IsRevoked found = (t : Token) × (at : Time) × (found ≡ some t) × (t.revoked_at ≡ some at)

  -- A second revocation marks the token again.
  revoke_token-IsRevoked :
      (raw : String) (w : World S)
      → IsRevoked (token_of w)
      → IsRevoked (token_of (revoke_token p S svc wall raw w).1)
  unfolding revoke_token
  revoke_token-IsRevoked raw w (t, at, found, marked) =
      let k = compute_token_hash p raw in
      let law = L.revoke_token-maps (wall w.ticks) k w.store in
      elim (Bool-cases (raw == "")) [
        | inl e ↦ rw e (t, at, found, marked)
        | inr given ↦ elim (Bool-cases (k == h)) [
          | inr e ↦ (t, at, ground (arith, law, eq_iff k h), marked)
          | inl e ↦ (
            record t { revoked_at = some (wall w.ticks) },
            wall w.ticks,
            ground (arith, law, eq_iff k h),
            refl,
          )
        ]
      ]

  after-IsRevoked :
      (c : Call p S svc wall) (w : World S)
      → NoClash p S svc wall h c w
      → IsRevoked (token_of w)
      → IsRevoked (token_of (after p S svc wall c w))
  after-IsRevoked (register req) w q dead = rw (after-token_of (register req) w q) dead
  after-IsRevoked (issue req) w q dead = rw (after-token_of (issue req) w q) dead
  after-IsRevoked (validate raw) w q dead = rw (after-token_of (validate raw) w q) dead
  after-IsRevoked (introspect raw) w q dead = rw (after-token_of (introspect raw) w q) dead
  after-IsRevoked (revoke raw) w q dead = unfold after in (revoke_token-IsRevoked raw w dead)

  pub Onward-IsRevoked :
      {w u : World S}
      → IsRevoked (token_of w)
      → Onward p S svc wall (NoClash p S svc wall h) w u
      → IsRevoked (token_of u)
  Onward-IsRevoked dead stay = dead
  Onward-IsRevoked dead (step {u} on c q) = after-IsRevoked c u q (Onward-IsRevoked dead on)

module _ (p : Platform) (S : Store) (L : IsLawful S) (svc : Service) (wall : ℕ → Time) where
  -- Once a stored token was revoked, it is refused as revoked in every state that calls reach,
  -- however many, as long as no issue draws bytes that make a token with the same hash.
  pub validate_token-Onward :
      (w u : World S) (raw : String) (t : Token)
      → raw ≢ ""
      → (L.maps w.store).token_at (compute_token_hash p raw) ≡ some t
      → Onward p S svc wall
          (NoClash p S svc wall (compute_token_hash p raw))
          (revoke_token p S svc wall raw w).1
          u
      → (validate_token p S svc raw u).0 ≡ err (sentinel token_revoked)
  unfolding validate_token judge
  validate_token-Onward w u raw t given found on =
      let h = compute_token_hash p raw in
      let (t', at, found', marked) =
        Onward-IsRevoked p S L svc wall h
          (
            record t { revoked_at = some (wall w.ticks) },
            wall w.ticks,
            (revoke_token-maps p S L svc wall raw w).3 t given found,
            refl,
          )
          on in
      ground (arith, found', marked, L.get_token-maps h u.store, eq_iff raw "")

  -- A token that was issued while the maps were consistent is accepted, with the client, the resource and the scope of its request,
  -- in every state that calls reach before its time to live has passed, as long as none of them
  -- revokes it and no issue draws bytes that make a token with the same hash.
  pub issue_token-Onward :
      (req : TokenRequest) (w w' u : World S) (resp : TokenResponse)
      → IsConsistent (L.maps w.store)
      → issue_token p S svc (some req) w ≡ (ok resp, w')
      → Onward p S svc wall (Spares p S svc wall (compute_token_hash p resp.access_token)) w' u
      → svc.now_func u.ticks ≤ℤ svc.now_func (suc w.ticks) +ℤ svc.token_ttl
      → (t : Token) × ((validate_token p S svc resp.access_token u).0 ≡ ok t)
        × (t.client_id ≡ req.client_id)
        × (t.resource ≡ req.resource)
        × (t.scope ≡ req.scope)
  issue_token-Onward req w w' u resp inv issued on young =
      let v : World S = record w' { ticks = u.ticks } in
      let (t, valid, client, resource, scope, _) =
        (validate_token-issue_token p S L svc req w w' v resp inv issued refl).0 young in
      let live = (validate_token_iff p S L svc resp.access_token v t).0 valid in
      let kept = Onward-token_of p S L svc wall (compute_token_hash p resp.access_token) on in
      let still : IsLive p (L.maps u.store) resp.access_token (svc.now_func u.ticks) t = record {
        given = live.given;
        stored = kept ∙ live.stored;
        unrevoked = live.unrevoked;
        unexpired = live.unexpired;
      } in
      (t, (validate_token_iff p S L svc resp.access_token u t).1 still, client, resource, scope)
