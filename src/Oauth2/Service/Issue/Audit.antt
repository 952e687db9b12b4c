-- ===== src/Oauth2/Service/Issue/Audit.antt =====
-- What `IssueToken` adds to the audit log, and what it leaves of the maps where it fails.
use go_oauth_client_credenti.Common.{
  ◌≡◌, refl, suc, String, false, none, some, Option, [], ◌∷◌, ◌++◌, arith, ◌==◌, Bool-cases,
  Option-cases, inl, inr,
}
use go_oauth_client_credenti.Common.Text.{◌<>◌}
use go_oauth_client_credenti.Oauth2.Error.{
  Error, sentinel, invalid_request, invalid_client, invalid_target, scope_mismatch, invalid_grant,
}
use go_oauth_client_credenti.Oauth2.Exec.{Result, ok, err, Result-cases}
use go_oauth_client_credenti.Oauth2.Types.{Client, Token, TokenRequest, TokenResponse}
use go_oauth_client_credenti.Oauth2.Types.Platform.{Platform}
use go_oauth_client_credenti.Oauth2.Encoding.{base64_encode}
use go_oauth_client_credenti.Oauth2.Store.{Store}
use go_oauth_client_credenti.Oauth2.Store.Contract.{Maps, IsLawful}
use go_oauth_client_credenti.Oauth2.Telemetry.{
  Level, info, warn, LogRecord, token_request_log, record_token_request,
}
use go_oauth_client_credenti.Oauth2.Service.{Service, World, token_entropy_len}
use go_oauth_client_credenti.Oauth2.Service.Random.{
  read_bytes, read_error, read_full, generate_random_base64,
}
use go_oauth_client_credenti.Oauth2.Service.Issue.{
  check_resource, resource_allowed, scope_allowed, make_token, reject, no_request, store_token,
  mint, authorize, issue_checked, issue_token,
}

abbrev pub level_of : Result TokenResponse → Level
level_of (ok _) = info
level_of (err _) = warn

module _ (p : Platform) (S : Store) (L : IsLawful S) (svc : Service) where
  abbrev MapsKept : Maps → Result TokenResponse → Maps → Type 0
  MapsKept m (ok _) m' = Unit
  MapsKept m (err _) m' = m' ≡ m

  -- One record is added to the log, at level info if a token is returned and at level warn if not;
  -- where none is returned the maps are as before.
  pub record IsAudited (w : World S) (out : Result TokenResponse × World S) : Type 0 where
    pub entry : LogRecord
    pub logged : out.1.telemetry.log ≡ w.telemetry.log ++ entry ∷ []
    pub level : entry.level ≡ level_of out.0
    pub kept : MapsKept (L.maps w.store) out.0 (L.maps out.1.store)

  store_token-IsAudited :
      (client : Client) (req : TokenRequest) (raw : String) (w : World S)
      → IsAudited w (store_token p S svc client req raw w)
  unfolding store_token record_token_request
  store_token-IsAudited client req raw w =
      let t : Token = make_token p S svc client req ("opq_" <> raw) (svc.now_func w.ticks) in
      elim (Result-cases (S.save_token (some t) w.store).0) [
        | inl (tt, saved) ↦ record {
          entry = token_request_log req.grant_type "ok" req.client_id req.resource none;
          logged = ground arith;
          level = ground arith;
          kept = ground arith;
        }
        | inr (e, failed) ↦ record {
          entry =
              token_request_log req.grant_type "internal_error" req.client_id req.resource (some e);
          logged = ground arith;
          level = ground arith;
          kept = ground (arith, L.save_token-maps t w.store);
        }
      ]

  mint-IsAudited :
      (client : Client) (req : TokenRequest) (w : World S) → IsAudited w (mint p S svc client req w)
  unfolding mint generate_random_base64 read_full record_token_request
  mint-IsAudited client req w = elim (Option-cases (read_bytes token_entropy_len w.rand_reader).0) [
    | inl short ↦ record {
      entry =
          token_request_log req.grant_type "internal_error" req.client_id req.resource
            (some (read_error w.rand_reader));
      logged = ground arith;
      level = ground arith;
      kept = ground arith;
    }
    | inr (bytes, drawn) ↦
        let left = record w { rand_reader = (read_bytes token_entropy_len w.rand_reader).1 } in
        let a = store_token-IsAudited client req (base64_encode bytes) left in
        record {
          entry = a.entry;
          logged = ground (arith, a.logged);
          level = ground (arith, a.level);
          kept = ground (arith, a.kept);
        }
  ]

  reject-IsAudited :
      (req : TokenRequest) (status : String) (recorded returned : Error) (w : World S)
      → (status == "ok") ≡ false
      → IsAudited w (reject p S svc req status recorded returned w)
  unfolding record_token_request
  reject-IsAudited req status recorded returned w h = record {
    entry = token_request_log req.grant_type status req.client_id req.resource (some recorded);
    logged = ground arith;
    level = ground arith;
    kept = refl;
  }

  pub authorize-IsAudited :
      (client : Client) (req : TokenRequest) (w : World S)
      → IsAudited w (authorize p S svc client req w)
  unfolding authorize
  authorize-IsAudited client req w =
      elim (Bool-cases (p.bcrypt_matches client.secret_hash req.client_secret)) [
        | inr e ↦ rw e (
            reject-IsAudited req "invalid_client" (sentinel invalid_client)
              (sentinel invalid_client) w refl)
        | inl e ↦ rw e (elim (Bool-cases (resource_allowed client.allowed_resources req.resource)) [
          | inr e ↦ rw e (
              reject-IsAudited req "unauthorized_resource" (sentinel invalid_target)
                (sentinel invalid_target) w refl)
          | inl e ↦ rw e (elim (Bool-cases (scope_allowed client.allowed_scopes req.scope)) [
            | inr e ↦ rw e (
                reject-IsAudited req "unauthorized_scope" (sentinel scope_mismatch)
                  (sentinel scope_mismatch) w refl)
            | inl e ↦ rw e (mint-IsAudited client req w)
          ])
        ])
      ]

  issue_checked-IsAudited :
      (req : TokenRequest) (w : World S) → IsAudited w (issue_checked p S svc req w)
  unfolding issue_checked
  issue_checked-IsAudited req w = elim (Bool-cases (req.grant_type == "client_credentials")) [
    | inr e ↦ rw e (
        reject-IsAudited req "invalid_grant" (sentinel invalid_grant) (sentinel invalid_grant) w
          refl)
    | inl e ↦ rw e (elim (Result-cases (check_resource p req.resource)) [
      | inr (e, bad) ↦ rw (bad, issue_checked) (reject-IsAudited req "invalid_resource" e e w refl)
      | inl (tt, fine) ↦
          rw (fine, issue_checked)
            (elim (Result-cases (S.get_client req.client_id w.store)) [
              | inr (e, absent) ↦ rw absent (
                  reject-IsAudited req "invalid_client" (sentinel invalid_client)
                    (sentinel invalid_client) w refl)
              | inl (client, found) ↦ rw found (authorize-IsAudited client req w)
            ])
    ])
  ]

  -- Every call, whatever the request, adds one record to the audit log, at level info if a token is
  -- returned and at level warn if not; where none is returned no client and no token has changed.
  pub issue_token-IsAudited :
      (req : Option TokenRequest) (w : World S) → IsAudited w (issue_token p S svc req w)
  unfolding issue_token
  issue_token-IsAudited none w =
      let a =
        reject-IsAudited (no_request p S svc) "invalid_request" (sentinel invalid_request)
          (sentinel invalid_request) (record w { ticks = suc w.ticks }) refl in
      record { entry = a.entry; logged = a.logged; level = a.level; kept = a.kept }
  issue_token-IsAudited (some req) w =
      let a = issue_checked-IsAudited req (record w { ticks = suc w.ticks }) in
      record { entry = a.entry; logged = a.logged; level = a.level; kept = a.kept }
