-- ===== src/Oauth2/Service/Validate/Revoked.antt =====
-- What revocation does.
use go_oauth_client_credenti.Common.{◌≡◌, ap, ◌≢◌, ℕ, String, some, arith, eq_iff, eq_refl}
use go_oauth_client_credenti.Oauth2.Error.{sentinel, token_revoked}
use go_oauth_client_credenti.Oauth2.Exec.{ok, err}
use go_oauth_client_credenti.Oauth2.Types.{Time, Token}
use go_oauth_client_credenti.Oauth2.Types.Platform.{Platform}
use go_oauth_client_credenti.Oauth2.Store.{Store}
use go_oauth_client_credenti.Oauth2.Store.Contract.{Maps, IsLawful}
use go_oauth_client_credenti.Oauth2.Service.{Service, World}
use go_oauth_client_credenti.Oauth2.Service.Random.{compute_token_hash}
use go_oauth_client_credenti.Oauth2.Service.Validate.{judge, validate_token, revoke_token}

module _ (p : Platform) (S : Store) (L : IsLawful S) (svc : Service) (wall : ℕ → Time) where
  -- Revocation succeeds on every text. It changes no client and no token but the one with the hash
  -- of the text, which it marks with the time that it reads.
  pub revoke_token-maps :
      (raw : String) (w : World S)
      → let m = L.maps w.store in
        let m' = L.maps (revoke_token p S svc wall raw w).1.store in
        ((revoke_token p S svc wall raw w).0 ≡ ok tt)
        × (m'.client_at ≡ m.client_at)
        × ((h : String) → h ≢ compute_token_hash p raw → m'.token_at h ≡ m.token_at h)
        × ((t : Token)
            → raw ≢ ""
            → m.token_at (compute_token_hash p raw) ≡ some t
            → m'.token_at (compute_token_hash p raw)
              ≡ some (record t { revoked_at = some (wall w.ticks) }))
  unfolding revoke_token
  revoke_token-maps raw w =
      let law = L.revoke_token-maps (wall w.ticks) (compute_token_hash p raw) w.store in
      (
        ground (arith, law),
        ground (arith, law),
        λ h ne. ground (arith, law, eq_iff (compute_token_hash p raw) h),
        λ t given stored. ground (arith, law, eq_iff raw "", eq_refl (compute_token_hash p raw)),
      )

  -- A token that was stored is refused as revoked by every later validation in which the store
  -- still holds what the revocation left, whatever the clock shows.
  pub validate_token-revoke_token :
      (raw : String) (t : Token) (w u : World S)
      → raw ≢ ""
      → (L.maps w.store).token_at (compute_token_hash p raw) ≡ some t
      → L.maps u.store ≡ L.maps (revoke_token p S svc wall raw w).1.store
      → (validate_token p S svc raw u).0 ≡ err (sentinel token_revoked)
  unfolding validate_token judge
  validate_token-revoke_token raw t w u given stored same =
      let left = (revoke_token-maps raw w).3 t given stored in
      ground (
        arith,
        left,
        ap (λ (m : Maps). m.token_at (compute_token_hash p raw)) same,
        L.get_token-maps (compute_token_hash p raw) u.store,
        eq_iff raw "",
      )
