-- ===== src/Oauth2/Middleware/Guards.antt =====
-- What the middleware let through.
use mathlib.Core.List.{Memᴰ}
use go_oauth_client_credenti.Common.{
  ◌≡◌, refl, ap, ◌↔◌, ◌⊎◌, inl, inr, ◌∙◌, String, false, none, some, [], ◌∷◌, ◌++◌, arith, ◌==◌,
  eq_iff, Bool-cases, Option-cases,
}
use go_oauth_client_credenti.Common.Text.{split_2, fields}
use go_oauth_client_credenti.Oauth2.Error.{
  Error, is, sentinel, invalid_request, token_expired, token_revoked,
}
use go_oauth_client_credenti.Oauth2.Exec.{Result, ok, err, Result-cases}
use go_oauth_client_credenti.Oauth2.Types.{Token}
use go_oauth_client_credenti.Oauth2.Types.Platform.{Platform}
use go_oauth_client_credenti.Oauth2.Store.{Store}
use go_oauth_client_credenti.Oauth2.Store.Contract.{IsLawful}
use go_oauth_client_credenti.Oauth2.Telemetry.{
  Level, info, warn, LogRecord, auth_check_log, record_auth_check,
}
use go_oauth_client_credenti.Oauth2.Service.{Service, World}
use go_oauth_client_credenti.Oauth2.Service.Issue.{contains_string}
use go_oauth_client_credenti.Oauth2.Service.Issue.Checks.{
  contains_string_sound, contains_string_complete,
}
use go_oauth_client_credenti.Oauth2.Service.Validate.{validate_token}
use go_oauth_client_credenti.Oauth2.Service.Validate.Live.{
  IsLive, validate_token_iff, validate_token-world,
}
use go_oauth_client_credenti.Oauth2.Middleware.{
  Context, Flow, abort, next, token_value, context_token, bearer_token, status_tag, check, admit,
  token_auth_middleware, require_resource, require_scope,
}

abbrev pub with_token : Context → Token → Context
with_token c t = record c { oauth2_token = some (token_value (some t)) }

bearer_token-nil : bearer_token "" ≡ none
unfolding bearer_token split_2
bearer_token-nil = refl

status_tag-ne-ok : (e : Error) → (status_tag e == "ok") ≡ false
status_tag-ne-ok e = elim (Bool-cases (is e token_expired)) [
  | inl h ↦ rw h
  | inr h ↦ rw h (elim (Bool-cases (is e token_revoked)) [ inl k ↦ rw k | inr k ↦ rw k ])
]

module _ (p : Platform) (S : Store) (L : IsLawful S) (svc : Service) where
  pub token_auth_middleware_iff :
      (c c' : Context) (w : World S)
      → ((token_auth_middleware p S svc c w).0 ≡ next c') ↔ (
          (raw : String) × (t : Token) × (bearer_token c.request.authorization ≡ some raw)
          × IsLive p (L.maps w.store) raw (svc.now_func w.ticks) t
          × (c' ≡ with_token c t))
  unfolding token_auth_middleware
  token_auth_middleware_iff c c' w = (sound, complete)
    where
      sound :
          (token_auth_middleware p S svc c w).0 ≡ next c'
          → (raw : String) × (t : Token) × (bearer_token c.request.authorization ≡ some raw)
            × IsLive p (L.maps w.store) raw (svc.now_func w.ticks) t
            × (c' ≡ with_token c t)
      sound h = elim (Option-cases (bearer_token c.request.authorization)) [
        | inl malformed ↦ absurd (ground arith)
        | inr (raw, parsed) ↦ elim (Result-cases (validate_token p S svc raw w).0) [
          | inr (e, invalid) ↦ absurd (ground arith)
          | inl (t, valid) ↦
              (raw, t, parsed, (validate_token_iff p S L svc raw w t).0 valid, ground arith)
        ]
      ]

      complete :
          ((raw : String) × (t : Token) × (bearer_token c.request.authorization ≡ some raw)
            × IsLive p (L.maps w.store) raw (svc.now_func w.ticks) t
            × (c' ≡ with_token c t))
          → (token_auth_middleware p S svc c w).0 ≡ next c'
      complete (raw, t, parsed, live, same) = ground (
        arith,
        same,
        parsed,
        (validate_token_iff p S L svc raw w t).1 live,
        eq_iff c.request.authorization "",
        ap bearer_token,
        bearer_token-nil,
      )

  abbrev pub flow_level : Flow → Level
  flow_level (next _) = info
  flow_level (abort _) = warn

  -- One record is added to the log, at level info or warn, and the store is as before.
  pub record IsChecked (w : World S) (out : Flow × World S) : Type 0 where
    pub entry : LogRecord
    pub logged : out.1.telemetry.log ≡ w.telemetry.log ++ entry ∷ []
    pub level : entry.level ≡ flow_level out.0
    pub kept : out.1.store ≡ w.store

  refused-IsChecked :
      (c : Context) (w : World S) (status : String) (e : Error) (flow : Flow)
      → (status == "ok") ≡ false
      → flow_level flow ≡ warn
      → IsChecked w (flow, check p S svc c.request status "" "" (some e) w)
  unfolding record_auth_check
  refused-IsChecked c w status e flow refused level = record {
    entry = auth_check_log status "" "" "" c.request.path c.request.method (some e);
    logged = ground arith;
    level = ground arith;
    kept = refl;
  }

  admit-IsChecked :
      (c : Context) (r : Result Token) (w : World S) → IsChecked w (admit p S svc c r w)
  unfolding record_auth_check
  admit-IsChecked c (err e) w = refused-IsChecked c w (status_tag e) e _ (status_tag-ne-ok e) refl
  admit-IsChecked c (ok t) w = record {
    entry = auth_check_log "ok" t.client_id t.resource "" c.request.path c.request.method none;
    logged = ground arith;
    level = refl;
    kept = refl;
  }

  -- Every check is audited by one record, at level info if the request is let through and at level
  -- warn if it is not, and leaves the store alone.
  pub token_auth_middleware-IsChecked :
      (c : Context) (w : World S) → IsChecked w (token_auth_middleware p S svc c w)
  unfolding token_auth_middleware
  token_auth_middleware-IsChecked c w = elim (Bool-cases (c.request.authorization == "")) [
    | inl absent ↦
        rw absent (refused-IsChecked c w "missing_token" (sentinel invalid_request) _ refl refl)
    | inr given ↦ rw given (elim (Option-cases (bearer_token c.request.authorization)) [
      | inl malformed ↦
          rw malformed
            (refused-IsChecked c w "invalid_token" (sentinel invalid_request) _ refl refl)
      | inr (raw, parsed) ↦
          let out = validate_token p S svc raw w in
          let world = validate_token-world p S L svc raw w in
          let a = admit-IsChecked c out.0 out.1 in
          rw parsed (record {
            entry = a.entry;
            logged = rw (world.1) at a.logged;
            level = a.level;
            kept = a.kept ∙ world.0;
          })
    ])
  ]

-- The middleware lets a request through exactly when its token is bound to no resource or to the
-- resource of the request, and leaves the context alone.
pub require_resource_iff :
    (p : Platform) (extractor : Context → String) (c c' : Context)
    → (require_resource p extractor c ≡ next c') ↔ (
        (t : Token) × (context_token c ≡ some t)
        × ((t.resource ≡ "") ⊎ (t.resource ≡ extractor c))
        × (c' ≡ c))
unfolding require_resource
require_resource_iff p extractor c c' = (sound, complete)
  where
    sound :
        require_resource p extractor c ≡ next c'
        → (t : Token) × (context_token c ≡ some t)
          × ((t.resource ≡ "") ⊎ (t.resource ≡ extractor c))
          × (c' ≡ c)
    sound h = elim (Option-cases (context_token c)) [
      | inl missing ↦ absurd (ground arith)
      | inr (t, found) ↦ (
        t,
        found,
        ground (arith, eq_iff t.resource "", eq_iff (extractor c) t.resource),
        ground arith,
      )
    ]

    complete :
        ((t : Token) × (context_token c ≡ some t)
          × ((t.resource ≡ "") ⊎ (t.resource ≡ extractor c))
          × (c' ≡ c))
        → require_resource p extractor c ≡ next c'
    complete (t, found, bound, same) =
        ground (arith, found, same, eq_iff t.resource "", eq_iff (extractor c) t.resource)

-- The middleware lets a request through exactly when its token has the scope, or has an empty scope.
pub require_scope_iff :
    (p : Platform) (required : String) (c c' : Context)
    → (require_scope p required c ≡ next c') ↔ (
        (t : Token) × (context_token c ≡ some t)
        × ((t.scope ≡ "") ⊎ Memᴰ required (fields t.scope))
        × (c' ≡ c))
unfolding require_scope
require_scope_iff p required c c' = (sound, complete)
  where
    sound :
        require_scope p required c ≡ next c'
        → (t : Token) × (context_token c ≡ some t)
          × ((t.scope ≡ "") ⊎ Memᴰ required (fields t.scope))
          × (c' ≡ c)
    sound h = elim (Option-cases (context_token c)) [
      | inl missing ↦ absurd (ground arith)
      | inr (t, found) ↦ (
        t,
        found,
        elim (Bool-cases (contains_string (fields t.scope) required)) [
          | inl has ↦ inr (contains_string_sound (fields t.scope) required has)
          | inr lacks ↦ inl (ground (arith, eq_iff t.scope ""))
        ],
        ground arith,
      )
    ]

    complete :
        ((t : Token) × (context_token c ≡ some t)
          × ((t.scope ≡ "") ⊎ Memᴰ required (fields t.scope))
          × (c' ≡ c))
        → require_scope p required c ≡ next c'
    complete (t, found, inl empty, same) = ground (arith, found, same, eq_iff t.scope "")
    complete (t, found, inr has, same) = ground (arith, found, same, contains_string_complete has)
