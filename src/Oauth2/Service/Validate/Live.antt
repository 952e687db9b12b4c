-- ===== src/Oauth2/Service/Validate/Live.antt =====
-- Which tokens `ValidateToken` accepts, and what introspection tells of them.
use go_oauth_client_credenti.Common.{
  ◌≡◌, ◌≢◌, ◌↔◌, String, true, none, some, arith, eq_iff, inl, inr,
}
use go_oauth_client_credenti.Common.Int.{◌≤ℤ◌}
use go_oauth_client_credenti.Oauth2.Error.{Error}
use go_oauth_client_credenti.Oauth2.Exec.{ok, err, Result-cases}
use go_oauth_client_credenti.Oauth2.Types.{Time, Token}
use go_oauth_client_credenti.Oauth2.Types.Platform.{Platform}
use go_oauth_client_credenti.Oauth2.Store.{Store}
use go_oauth_client_credenti.Oauth2.Store.Contract.{Maps, found_token, IsLawful}
use go_oauth_client_credenti.Oauth2.Service.{Service, World}
use go_oauth_client_credenti.Oauth2.Service.Random.{compute_token_hash}
use go_oauth_client_credenti.Oauth2.Service.Validate.{
  is_inactive, inactive, active_response, judge, validate_token, introspect_token,
}

-- A raw token is live at a time if it is stored by its hash, not revoked and not past its expiry.
pub record IsLive (p : Platform) (m : Maps) (raw : String) (now : Time) (t : Token) : Type 0 where
  pub given : raw ≢ ""
  pub stored : m.token_at (compute_token_hash p raw) ≡ some t
  pub unrevoked : t.revoked_at ≡ none
  pub unexpired : now ≤ℤ t.expires_at

module _ (p : Platform) (S : Store) (L : IsLawful S) (svc : Service) where
  -- `ValidateToken` returns a token exactly when the raw token is live, at the time that it reads,
  -- and stored with that record.
  pub validate_token_iff :
      (raw : String) (w : World S) (t : Token)
      → ((validate_token p S svc raw w).0 ≡ ok t)
        ↔ IsLive p (L.maps w.store) raw (svc.now_func w.ticks) t
  unfolding validate_token judge
  validate_token_iff raw w t = (sound, complete)
    where
      law :
          S.get_token_by_hash (compute_token_hash p raw) w.store
          ≡ found_token ((L.maps w.store).token_at (compute_token_hash p raw))
      law = L.get_token-maps (compute_token_hash p raw) w.store

      sound :
          (validate_token p S svc raw w).0 ≡ ok t
          → IsLive p (L.maps w.store) raw (svc.now_func w.ticks) t
      sound h = record {
        given = ground (arith, eq_iff raw "");
        stored = ground (arith, law);
        unrevoked = ground (arith, law);
        unexpired = ground (arith, law);
      }

      complete :
          IsLive p (L.maps w.store) raw (svc.now_func w.ticks) t
          → (validate_token p S svc raw w).0 ≡ ok t
      complete live = ground (arith, law, eq_iff raw "")

  validate_token-inactive :
      (raw : String) (w : World S) (e : Error)
      → (validate_token p S svc raw w).0 ≡ err e
      → is_inactive e ≡ true
  unfolding validate_token judge is_inactive
  validate_token-inactive raw w e h =
      ground (arith, L.get_token-maps (compute_token_hash p raw) w.store)

  -- Introspection never fails. It describes the token that is live, with its client, its resource,
  -- its scope and its expiry in Unix seconds, and for every other text it answers with `active`
  -- false and nothing else.
  pub introspect_token-IsLive :
      (raw : String) (w : World S)
      → ((t : Token)
          → IsLive p (L.maps w.store) raw (svc.now_func w.ticks) t
          → (introspect_token p S svc raw w).0 ≡ ok (active_response t))
        × (((t : Token) → ¬ IsLive p (L.maps w.store) raw (svc.now_func w.ticks) t)
            → (introspect_token p S svc raw w).0 ≡ ok inactive)
  unfolding introspect_token
  introspect_token-IsLive raw w = (
    λ t live. ground (arith, (validate_token_iff raw w t).1 live),
    λ dead. elim (Result-cases (validate_token p S svc raw w).0) [
      | inl (t, valid) ↦ absurd (dead t ((validate_token_iff raw w t).0 valid))
      | inr (e, invalid) ↦ ground (arith, validate_token-inactive raw w e invalid)
    ],
  )

  -- A validation writes nothing but the clock's count.
  pub validate_token-world :
      (raw : String) (w : World S)
      → ((validate_token p S svc raw w).1.store ≡ w.store)
        × ((validate_token p S svc raw w).1.telemetry ≡ w.telemetry)
  unfolding validate_token judge
  validate_token-world raw w = (ground arith, ground arith)
