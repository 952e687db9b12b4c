-- ===== src/Server/Guarded.antt =====
-- Who may use the certificate API.
use go_oauth_client_credenti.Common.{
  ◌≡◌, refl, ap, ◌∙◌, ◌↔◌, ◌⊎◌, inl, inr, String, some, [], arith,
}
use go_oauth_client_credenti.Common.Text.{◌<>◌, trim_right_slash}
use go_oauth_client_credenti.Oauth2.Types.{Time, Client, Token}
use go_oauth_client_credenti.Oauth2.Service.Random.{compute_token_hash}
use go_oauth_client_credenti.Oauth2.Service.Issue.Checks.{MayTarget}
use go_oauth_client_credenti.Oauth2.Service.Lifecycle.Consistent.{IsConsistent}
use go_oauth_client_credenti.Certificate.Handler.{Content}
use mathlib.Core.List.{Memᴰ}
use go_oauth_client_credenti.Oauth2.Types.Platform.{Platform}
use go_oauth_client_credenti.Oauth2.Store.{Store}
use go_oauth_client_credenti.Oauth2.Store.Contract.{IsLawful}
use go_oauth_client_credenti.Oauth2.Service.{Service, World}
use go_oauth_client_credenti.Oauth2.Service.Validate.Live.{IsLive}
use go_oauth_client_credenti.Oauth2.Http.{Response}
use go_oauth_client_credenti.Oauth2.Middleware.{
  Context, Flow, abort, next, context_token, get_token_from_context, bearer_token,
  token_auth_middleware, require_resource,
}
use go_oauth_client_credenti.Oauth2.Middleware.Guards.{
  with_token, token_auth_middleware_iff, token_auth_middleware-IsChecked, require_resource_iff,
}
use go_oauth_client_credenti.Certificate.Store.{MemoryStore}
use go_oauth_client_credenti.Server.{
  resource_extractor, Api, ApiCall, api_request, handle, refused, handled, guard, protected,
}

Flow-cases : (f : Flow) → ((r : Response Unit) × (f ≡ abort r)) ⊎ ((c : Context) × (f ≡ next c))
Flow-cases (abort r) = inl (r, refl)
Flow-cases (next c) = inr (c, refl)

context_token-with_token : (c : Context) (t : Token) → context_token (with_token c t) ≡ some t
unfolding context_token get_token_from_context
context_token-with_token c t = refl

-- The URI of the certificate that the path names.
abbrev pub target_uri : String → Context → String
target_uri base c = trim_right_slash base <> "/v1/certificates/" <> c.request.param "id"

module _ (p : Platform) (S : Store) (L : IsLawful S) (svc : Service) (base : String) where
  -- The request carries a live token that is bound to no resource or to the URI of the certificate.
  abbrev pub IsAuthorized : Context → World S → Token → Type 0
  IsAuthorized c w t =
      ((raw : String) × (bearer_token c.request.authorization ≡ some raw)
        × IsLive p (L.maps w.store) raw (svc.now_func w.ticks) t)
      × ((t.resource ≡ "") ⊎ (t.resource ≡ target_uri base c))

  guard_iff :
      (c c' : Context) (w : World S)
      → ((guard p S svc base c w).0 ≡ next c')
        ↔ ((t : Token) × IsAuthorized c w t × (c' ≡ with_token c t))
  unfolding guard resource_extractor
  guard_iff c c' w = (sound, complete)
    where
      sound :
          (guard p S svc base c w).0 ≡ next c'
          → (t : Token) × IsAuthorized c w t × (c' ≡ with_token c t)
      sound h = elim (Flow-cases (token_auth_middleware p S svc c w).0) [
        | inl (r, stopped) ↦ absurd (ground arith)
        | inr (d, passed) ↦
            let (raw, t, header, live, same) =
              (token_auth_middleware_iff p S L svc c d w).0 passed in
            let checked : require_resource p (resource_extractor base) (with_token c t) ≡ next c' =
              ground (arith, passed, same) in
            let (t', found, bound, kept) =
              (require_resource_iff p (resource_extractor base) (with_token c t) c').0 checked in
            let e : t ≡ t' = ground (arith, found, context_token-with_token c t) in
            (t, ((raw, header, live), rw e bound), kept)
      ]

      complete :
          ((t : Token) × IsAuthorized c w t × (c' ≡ with_token c t))
          → (guard p S svc base c w).0 ≡ next c'
      complete (t, ((raw, header, live), bound), same) =
          let passed =
            (token_auth_middleware_iff p S L svc c (with_token c t) w).1
              (raw, t, header, live, refl) in
          let checked =
            (require_resource_iff p (resource_extractor base) (with_token c t) c').1
              (t, context_token-with_token c t, bound, same) in
          ground (arith, passed, checked)

  guard-store : (c : Context) (w : World S) → (guard p S svc base c w).1.store ≡ w.store
  unfolding guard
  guard-store c w =
      let kept = (token_auth_middleware-IsChecked p S L svc c w).kept in
      elim (Flow-cases (token_auth_middleware p S svc c w).0) [
        | inl (r, stopped) ↦ ground (arith, kept)
        | inr (d, passed) ↦ ground (arith, kept)
      ]

  -- An API call is handled exactly when it carries a live token that is bound to no resource or to
  -- the URI of the certificate that the path names. A call that is handled answers and changes the
  -- certificates as its handler does; a call that is refused changes no certificate and no
  -- challenge. Neither changes the store of clients and tokens.
  pub protected-outcome :
      (api : Api) (now : Time) (call : ApiCall) (w : World S) (s : MemoryStore)
      → let out = protected p S svc base api now call w s in
        let run = handle api now (api_request call) s in
        (((t : Token) × IsAuthorized call.context w t × (out.0 ≡ handled run.0) × (out.2 ≡ run.1))
          ⊎ (((t : Token) → ¬ IsAuthorized call.context w t)
              × ((r : Response Unit) × (out.0 ≡ refused r))
              × (out.2 ≡ s)))
        × (out.1.store ≡ w.store)
  unfolding protected
  protected-outcome api now call w s =
      let kept = guard-store call.context w in
      elim (Flow-cases (guard p S svc base call.context w).0) [
        | inl (r, stopped) ↦ (
          inr (
            λ t may. absurd (
                ground
                  (arith, (guard_iff call.context (with_token call.context t) w).1 (t, may, refl))),
            (r, ground arith),
            ground arith,
          ),
          ground (arith, kept),
        )
        | inr (d, passed) ↦
            let (t, may, same) = (guard_iff call.context d w).0 passed in
            let through : (guard p S svc base call.context w).0 ≡ next (with_token call.context t) =
              passed ∙ ap next same in
            (inl (t, may, ground (arith, through), ground (arith, through)), ground (arith, kept))
      ]

  -- Where the maps are consistent, an API call that is handled is made with a token of a registered
  -- client that has no restriction of its resources or that has the URI of the certificate among
  -- them.
  pub protected-IsOwned :
      (api : Api) (now : Time) (call : ApiCall) (w : World S) (s : MemoryStore)
      (r : Response Content)
      → IsConsistent (L.maps w.store)
      → (protected p S svc base api now call w s).0 ≡ handled r
      → (t : Token) × (client : Client) × IsAuthorized call.context w t
        × ((L.maps w.store).client_at t.client_id ≡ some client)
        × ((client.allowed_resources ≡ [])
            ⊎ Memᴰ (target_uri base call.context) client.allowed_resources)
  protected-IsOwned api now call w s r inv h = elim (protected-outcome api now call w s).0 [
    | inr (_, (q, stopped), _) ↦ absurd (ground arith)
    | inl (t, ((raw, header, live), bound), _, _) ↦
        let (client, registered, target, scope) =
          inv.owner (compute_token_hash p raw) t live.stored in
        (t, client, ((raw, header, live), bound), registered, reach client t bound target)
  ]
    where
      reach :
          (client : Client) (t : Token)
          → (t.resource ≡ "") ⊎ (t.resource ≡ target_uri base call.context)
          → MayTarget client.allowed_resources t.resource
          → (client.allowed_resources ≡ [])
            ⊎ Memᴰ (target_uri base call.context) client.allowed_resources
      reach client t bound (inl free) = inl free
      reach client t (inl unbound) (inr (given, listed)) = absurd (given unbound)
      reach client t (inr same) (inr (given, listed)) = inr (rw same at listed)
