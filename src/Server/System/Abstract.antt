-- ===== src/Server/System/Abstract.antt =====
-- The server over a store, and over the two maps of that store.
use go_oauth_client_credenti.Common.{
  ◌≡◌, refl, ap, ◌∙◌, ℕ, String, some, ◌==◌, Bool-cases, Option-cases, inl, inr,
}
use go_oauth_client_credenti.Oauth2.Exec.{Result, ok, err, Exec, Result-cases}
use go_oauth_client_credenti.Oauth2.Types.{
  Time, Token, RegisterClientResponse, TokenResponse, IntrospectResponse,
}
use go_oauth_client_credenti.Oauth2.Types.Platform.{Platform}
use go_oauth_client_credenti.Oauth2.Store.{Store}
use go_oauth_client_credenti.Oauth2.Store.Contract.{IsLawful}
use go_oauth_client_credenti.Oauth2.Store.Abstract.{maps_store}
use go_oauth_client_credenti.Oauth2.Service.{Service, World}
use go_oauth_client_credenti.Oauth2.Service.Abstract.{view, seen, Agrees}
use go_oauth_client_credenti.Oauth2.Service.Abstract.Register.{register_client-Agrees}
use go_oauth_client_credenti.Oauth2.Service.Abstract.Issue.{issue_token-Agrees}
use go_oauth_client_credenti.Oauth2.Service.Abstract.Validate.{
  validate_token-Agrees, introspect_token-Agrees, revoke_token-Agrees,
}
use go_oauth_client_credenti.Oauth2.Service.Validate.{validate_token}
use go_oauth_client_credenti.Oauth2.Http.{Request, Response}
use go_oauth_client_credenti.Oauth2.Handlers.{
  with_basic_auth, bound_token_request, token_answer, registration_answer, introspect_answer,
  revoke_answer, extract_token_param, register_client_handler, token_handler, introspect_handler,
  revoke_handler,
}
use go_oauth_client_credenti.Oauth2.Middleware.{
  require_resource, Context, Flow, abort, next, admit, bearer_token, token_auth_middleware,
}
use go_oauth_client_credenti.Certificate.Store.{MemoryStore}
use go_oauth_client_credenti.Server.{
  Api, ApiCall, Answer, guard, protected, resource_extractor, handle, api_request, refused, handled,
}
use go_oauth_client_credenti.Server.System.{
  Incoming, to_health, to_clients, to_tokens, to_introspection, to_revocation, to_acme, to_guarded,
  Reply, registration, issue, description, revoked, certificate_api, System, serve,
}

module _ (S : Store) (L : IsLawful S) (p : Platform) (svc : Service) where
  -- An answer made of the result of a method.
  answered :
      {A B : Type 0} {m : Exec (World S) A} {n : Exec (World maps_store) A} (answer : Result A → B)
      → Agrees S L m n
      → (w : World S)
      → seen S L (answer (m w).0, (m w).1) ≡ (answer (n (view S L w)).0, (n (view S L w)).1)
  answered {A} {B} answer agree w =
      ap (λ (o : Result A × World maps_store). (answer o.0, o.1)) (agree.same w)

  register_client_handler-seen :
      (c : Request) (w : World S)
      → seen S L (register_client_handler p S svc c w)
        ≡ register_client_handler p maps_store svc c (view S L w)
  unfolding register_client_handler
  register_client_handler-seen c w = elim (Result-cases c.json_register) [
    | inr (e, bad) ↦ rw bad refl
    | inl (req, bound) ↦
        rw (bound, register_client_handler)
          (answered (registration_answer p S svc) (register_client-Agrees S L p svc (some req)) w)
  ]

  token_handler-seen :
      (c : Request) (w : World S)
      → seen S L (token_handler p S svc c w) ≡ token_handler p maps_store svc c (view S L w)
  unfolding token_handler
  token_handler-seen c w = elim (Result-cases (bound_token_request c)) [
    | inr (e, bad) ↦ rw (bad, token_handler) refl
    | inl (req, bound) ↦
        rw (bound, token_handler)
          (answered token_answer
            (issue_token-Agrees S L p svc (some (with_basic_auth c.basic_auth req))) w)
  ]

  introspect_handler-seen :
      (c : Request) (w : World S)
      → seen S L (introspect_handler p S svc c w)
        ≡ introspect_handler p maps_store svc c (view S L w)
  unfolding introspect_handler
  introspect_handler-seen c w = elim (Bool-cases (extract_token_param c == "")) [
    | inl e ↦ rw e refl
    | inr e ↦ rw e (
        answered (introspect_answer p S svc)
          (introspect_token-Agrees S L p svc (extract_token_param c)) w)
  ]

  revoke_handler-seen :
      (wall : ℕ → Time) (c : Request) (w : World S)
      → seen S L (revoke_handler p S svc wall c w)
        ≡ revoke_handler p maps_store svc wall c (view S L w)
  unfolding revoke_handler
  revoke_handler-seen wall c w = elim (Bool-cases (extract_token_param c == "")) [
    | inl e ↦ rw e refl
    | inr e ↦ rw e (
        answered (revoke_answer p S svc)
          (revoke_token-Agrees S L p svc wall (extract_token_param c)) w)
  ]

  admit-seen :
      (c : Context) (out : Result Token × World S)
      → seen S L (admit p S svc c out.0 out.1) ≡ admit p maps_store svc c out.0 (view S L out.1)
  admit-seen c (ok t, w) = refl
  admit-seen c (err e, w) = refl

  token_auth_middleware-seen :
      (c : Context) (w : World S)
      → seen S L (token_auth_middleware p S svc c w)
        ≡ token_auth_middleware p maps_store svc c (view S L w)
  unfolding token_auth_middleware
  token_auth_middleware-seen c w = elim (Bool-cases (c.request.authorization == "")) [
    | inl e ↦ rw e refl
    | inr e ↦ rw e (elim (Option-cases (bearer_token c.request.authorization)) [
      | inl malformed ↦ rw (malformed, token_auth_middleware) refl
      | inr (raw, read) ↦
          rw (read, token_auth_middleware)
            (admit-seen c (validate_token p S svc raw w)
              ∙ ap (λ (o : Result Token × World maps_store). admit p maps_store svc c o.0 o.1)
                  ((validate_token-Agrees S L p svc raw).same w))
    ])
  ]

  module _ (base : String) where
    -- After the first middleware, and after both.
    abbrev bounded : {T : Store} → Flow × World T → Flow × World T
    bounded o = elim o.0 [
      | abort r ↦ (abort r, o.1)
      | next c ↦ (require_resource p (resource_extractor base) c, o.1)
    ]

    abbrev finished :
        {T : Store}
        → Api
        → Time
        → ApiCall
        → MemoryStore
        → Flow × World T
        → Answer × World T × MemoryStore
    finished api now call s o = elim o.0 [
      | abort r ↦ (refused r, o.1, s)
      | next c ↦
          let (r, s') = handle api now (api_request (record call { context = c })) s in
          (handled r, o.1, s')
    ]

    bounded-seen : (out : Flow × World S) → seen S L (bounded out) ≡ bounded (seen S L out)
    bounded-seen (abort r, w) = refl
    bounded-seen (next c, w) = refl

    guard-seen :
        (c : Context) (w : World S)
        → seen S L (guard p S svc base c w) ≡ guard p maps_store svc base c (view S L w)
    unfolding guard
    guard-seen c w =
        bounded-seen (token_auth_middleware p S svc c w)
        ∙ ap bounded (token_auth_middleware-seen c w)

    -- The certificates are as they are.
    abbrev all_seen : Answer × World S × MemoryStore → Answer × World maps_store × MemoryStore
    all_seen (r, w, s) = (r, view S L w, s)

    finished-seen :
        (api : Api) (now : Time) (call : ApiCall) (s : MemoryStore) (out : Flow × World S)
        → all_seen (finished api now call s out) ≡ finished api now call s (seen S L out)
    finished-seen api now call s (abort r, w) = refl
    finished-seen api now call s (next c, w) = refl

    protected-seen :
        (api : Api) (now : Time) (call : ApiCall) (w : World S) (s : MemoryStore)
        → all_seen (protected p S svc base api now call w s)
          ≡ protected p maps_store svc base api now call (view S L w) s
    unfolding protected
    protected-seen api now call w s =
        finished-seen api now call s (guard p S svc base call.context w)
        ∙ ap (finished api now call s) (guard-seen call.context w)

    module _ (wall : ℕ → Time) where
      -- The two maps of the store of clients and tokens, with all else.
      abbrev pub ideal : System S → System maps_store
      ideal sys = record { oauth = view S L sys.oauth; certificates = sys.certificates }

      abbrev ideal_of : Reply × System S → Reply × System maps_store
      ideal_of (r, sys) = (r, ideal sys)

      pub serve-ideal :
          (i : Incoming) (sys : System S)
          → ideal_of (serve p S svc wall base i sys)
            ≡ serve p maps_store svc wall base i (ideal sys)
      unfolding serve
      serve-ideal to_health sys = refl
      serve-ideal (to_clients c) sys =
          ap
            (λ (o : Response RegisterClientResponse × World maps_store).
              (registration o.0, record (ideal sys) { oauth = o.1 }))
            (register_client_handler-seen c sys.oauth)
      serve-ideal (to_tokens c) sys =
          ap
            (λ (o : Response TokenResponse × World maps_store).
              (issue o.0, record (ideal sys) { oauth = o.1 }))
            (token_handler-seen c sys.oauth)
      serve-ideal (to_introspection c) sys =
          ap
            (λ (o : Response IntrospectResponse × World maps_store).
              (description o.0, record (ideal sys) { oauth = o.1 }))
            (introspect_handler-seen c sys.oauth)
      serve-ideal (to_revocation c) sys =
          ap
            (λ (o : Response (Unit {0}) × World maps_store).
              (revoked o.0, record (ideal sys) { oauth = o.1 }))
            (revoke_handler-seen wall c sys.oauth)
      serve-ideal (to_acme c) sys = refl
      serve-ideal (to_guarded api now call) sys =
          ap
            (λ (o : Answer × World maps_store × MemoryStore).
              (certificate_api o.0, record { oauth = o.1; certificates = o.2 }))
            (protected-seen api now call sys.oauth sys.certificates)
