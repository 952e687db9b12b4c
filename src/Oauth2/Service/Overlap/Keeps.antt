-- ===== src/Oauth2/Service/Overlap/Keeps.antt =====
-- What a step leaves of the clients, and of the consistency of the two maps.
use mathlib.Core.Path.{subst}
use go_oauth_client_credenti.Common.{
  ◌≡◌, sym, ap, ◌∙◌, ℕ, String, false, Option, none, some, ◌==◌, arith, eq_iff, inl, inr,
}
use go_oauth_client_credenti.Common.Text.{◌<>◌}
use go_oauth_client_credenti.Oauth2.Encoding.{base64_encode}
use go_oauth_client_credenti.Oauth2.Exec.{Result, Result-cases}
use go_oauth_client_credenti.Oauth2.Types.{
  Time, Client, Token, TokenRequest, TokenResponse, RegisterClientRequest, RegisterClientResponse,
}
use go_oauth_client_credenti.Oauth2.Types.Platform.{Platform}
use go_oauth_client_credenti.Oauth2.Store.{Store}
use go_oauth_client_credenti.Oauth2.Store.Contract.{Maps, IsLawful}
use go_oauth_client_credenti.Oauth2.Service.{Service, World}
use go_oauth_client_credenti.Oauth2.Service.Issue.{make_token, authorize, issue_token}
use go_oauth_client_credenti.Oauth2.Service.Issue.Sound.{issue_token_sound, authorize-IsIssued}
use go_oauth_client_credenti.Oauth2.Service.Issue.Audit.{authorize-IsAudited}
use go_oauth_client_credenti.Oauth2.Service.Register.{register_client}
use go_oauth_client_credenti.Oauth2.Service.Register.Sound.{
  register_client_sound, register_client-failed,
}
use go_oauth_client_credenti.Oauth2.Service.Validate.Live.{validate_token-world}
use go_oauth_client_credenti.Oauth2.Service.Validate.Revoked.{revoke_token-maps}
use go_oauth_client_credenti.Oauth2.Service.Lifecycle.Consistent.{IsConsistent, IsConsistent-token}
use go_oauth_client_credenti.Oauth2.Service.Lifecycle.Reachable.{
  Call, register, issue, validate, introspect, revoke, after, introspect_token-store,
  issue_token-failed,
}

module _ (p : Platform) (S : Store) (L : IsLawful S) (svc : Service) (wall : ℕ → Time) where
  -- A client that is registered stays as it is.
  abbrev pub Keeps : World S → World S → Type 0
  Keeps w w' =
      (k : String) (c : Client)
      → (L.maps w.store).client_at k ≡ some c
      → (L.maps w'.store).client_at k ≡ some c

  register_client-Keeps :
      (req : Option RegisterClientRequest) (w : World S) → Keeps w (register_client p S svc req w).1
  register_client-Keeps none w k c h = unfold register_client in h
  register_client-Keeps (some req) w k c h =
      let w' = (register_client p S svc (some req) w).1 in
      elim (Result-cases (register_client p S svc (some req) w).0) [
        | inr (e, failed) ↦
            ap (λ (m : Maps). m.client_at k)
              (register_client-failed p S L svc (some req) w e failed)
            ∙ h
        | inl (resp, added) ↦
            let a =
              (register_client_sound p S L svc req w w' resp
                (ap (λ (r : Result RegisterClientResponse). (r, w')) added)).2 in
            let other : (resp.client_id == k) ≡ false =
              ground (arith, eq_iff resp.client_id k, ap (L.maps w.store).client_at, a.fresh) in
            ap (λ (f : String → Option Client). f k) a.clients ∙ rw other h
      ]

  issue_token-Keeps :
      (req : Option TokenRequest) (w : World S) → Keeps w (issue_token p S svc req w).1
  issue_token-Keeps none w k c h = unfold issue_token in h
  issue_token-Keeps (some req) w k c h =
      let w' = (issue_token p S svc (some req) w).1 in
      elim (Result-cases (issue_token p S svc (some req) w).0) [
        | inr (e, failed) ↦
            ap (λ (m : Maps). m.client_at k)
              (issue_token-failed p S L svc wall (some req) w e failed)
            ∙ h
        | inl (resp, issued) ↦
            let (client, may, (bytes, drawn, stored, e)) =
              issue_token_sound p S L svc req w w' resp
                (ap (λ (r : Result TokenResponse). (r, w')) issued) in
            ap (λ (f : String → Option Client). f k) stored.clients ∙ h
      ]

  pub after-Keeps : (c : Call p S svc wall) (w : World S) → Keeps w (after p S svc wall c w)
  unfolding after
  after-Keeps (register req) w k c h = register_client-Keeps req w k c h
  after-Keeps (issue req) w k c h = issue_token-Keeps req w k c h
  after-Keeps (validate raw) w k c h =
      ap (λ (s : S.State). (L.maps s).client_at k) (validate_token-world p S L svc raw w).0 ∙ h
  after-Keeps (introspect raw) w k c h =
      ap (λ (s : S.State). (L.maps s).client_at k) (introspect_token-store p S L svc wall raw w) ∙ h
  after-Keeps (revoke raw) w k c h =
      ap (λ (f : String → Option Client). f k) (revoke_token-maps p S L svc wall raw w).1 ∙ h

  pub authorize-Keeps :
      (client : Client) (req : TokenRequest) (w : World S)
      → Keeps w (authorize p S svc client req w).1
  authorize-Keeps client req w k c h =
      let w' = (authorize p S svc client req w).1 in
      elim (Result-cases (authorize p S svc client req w).0) [
        | inr (e, failed) ↦
            let kept : L.maps w'.store ≡ L.maps w.store =
              rw failed at ((authorize-IsAudited p S L svc client req w).kept) in
            ap (λ (m : Maps). m.client_at k) kept ∙ h
        | inl (resp, issued) ↦
            let (secret, target, scope, (bytes, drawn, stored, e)) =
              authorize-IsIssued p S L svc req client w w' resp
                (ap (λ (r : Result TokenResponse). (r, w')) issued) in
            ap (λ (f : String → Option Client). f k) stored.clients ∙ h
      ]

  -- A token for a client that was read earlier, if that client is still registered.
  pub authorize-IsConsistent :
      (client : Client) (req : TokenRequest) (w : World S)
      → IsConsistent (L.maps w.store)
      → (L.maps w.store).client_at req.client_id ≡ some client
      → IsConsistent (L.maps (authorize p S svc client req w).1.store)
  authorize-IsConsistent client req w inv registered =
      let w' = (authorize p S svc client req w).1 in
      elim (Result-cases (authorize p S svc client req w).0) [
        | inr (e, failed) ↦
            let kept : L.maps w'.store ≡ L.maps w.store =
              rw failed at ((authorize-IsAudited p S L svc client req w).kept) in
            subst IsConsistent (sym kept) inv
        | inl (resp, issued) ↦
            let (secret, target, scope, (bytes, drawn, stored, e)) =
              authorize-IsIssued p S L svc req client w w' resp
                (ap (λ (r : Result TokenResponse). (r, w')) issued) in
            let t : Token =
              make_token p S svc client req ("opq_" <> base64_encode bytes)
                (svc.now_func w.ticks) in
            IsConsistent-token inv client t
              (ap (L.maps w.store).client_at (inv.client_key req.client_id client registered)
                ∙ registered)
              target scope stored.clients stored.tokens
      ]
