-- ===== src/Server/System/Changes.antt =====
-- Which requests change a certificate.
use mathlib.Core.List.{Memᴰ}
use go_oauth_client_credenti.Common.{
  ◌≡◌, refl, ap, ◌∙◌, ◌⊎◌, inl, inr, ℕ, String, false, some, [], ◌==◌, eq_iff, Bool-cases,
}
use go_oauth_client_credenti.Common.Dict.{lookup}
use go_oauth_client_credenti.Oauth2.Types.{Time, Client, Token}
use go_oauth_client_credenti.Oauth2.Types.Platform.{Platform}
use go_oauth_client_credenti.Oauth2.Store.{Store}
use go_oauth_client_credenti.Oauth2.Store.Contract.{IsLawful}
use go_oauth_client_credenti.Oauth2.Service.{Service}
use go_oauth_client_credenti.Certificate.Store.{MemoryStore}
use go_oauth_client_credenti.Certificate.Handler.Invariant.{IsIndexed}
use go_oauth_client_credenti.Certificate.Handler.Others.{
  start_challenge-others, complete_challenge-others,
}
use go_oauth_client_credenti.Server.{
  Api, start, complete, get, ApiCall, api_request, handle, protected,
}
use go_oauth_client_credenti.Server.Guarded.{
  target_uri, IsAuthorized, protected-outcome, protected-IsOwned,
}
use go_oauth_client_credenti.Server.System.{
  Incoming, to_health, to_clients, to_tokens, to_introspection, to_revocation, to_acme, to_guarded,
  System, serve,
}
use go_oauth_client_credenti.Server.System.Safe.{IsSafe}

handle-others :
    (api : Api) (now : Time) (call : ApiCall) (s : MemoryStore) (k : String)
    → IsIndexed s
    → (call.context.request.param "id" == k) ≡ false
    → lookup k (handle api now (api_request call) s).1.certificates ≡ lookup k s.certificates
unfolding handle
handle-others start now call s k inv other = start_challenge-others now (api_request call) s k other
handle-others complete now call s k inv other =
    complete_challenge-others now (api_request call) s k inv other
handle-others get now call s k inv other = refl

module _ (p : Platform) (S : Store) (L : IsLawful S) (svc : Service) (wall : ℕ → Time)
    (base : String) where
  -- The request is a call of the certificate API for the id, with a live token that is bound to no
  -- resource or to the URI of that certificate; the token is one of a registered client that is
  -- unrestricted or has the URI among its resources.
  abbrev pub IsPermitted : Incoming → System S → String → Type 0
  IsPermitted i sys k =
      (api : Api) × (now : Time) × (call : ApiCall) × (i ≡ to_guarded api now call)
      × (call.context.request.param "id" ≡ k)
      × (t : Token) × (client : Client) × IsAuthorized p S L svc base call.context sys.oauth t
      × ((L.maps sys.oauth.store).client_at t.client_id ≡ some client)
      × ((client.allowed_resources ≡ [])
          ⊎ Memᴰ (target_uri base call.context) client.allowed_resources)

  guarded_certificate :
      (api : Api) (now : Time) (call : ApiCall) (sys : System S) (k : String)
      → IsSafe p S L svc wall base sys
      → (lookup k (protected p S svc base api now call sys.oauth sys.certificates).2.certificates
          ≡ lookup k sys.certificates.certificates)
        ⊎ IsPermitted (to_guarded api now call) sys k
  guarded_certificate api now call sys k safe =
      elim (protected-outcome p S L svc base api now call sys.oauth sys.certificates).0 [
        | inr (_, _, same) ↦ inl (ap (λ (m : MemoryStore). lookup k m.certificates) same)
        | inl (_, _, answered, changed) ↦ elim (Bool-cases (call.context.request.param "id" == k)) [
          | inr other ↦ inl (
              ap (λ (m : MemoryStore). lookup k m.certificates) changed
              ∙ handle-others api now call sys.certificates k safe.certificates other)
          | inl this ↦
              let (t, client, may, registered, within) =
                protected-IsOwned p S L svc base api now call sys.oauth sys.certificates
                  (handle api now (api_request call) sys.certificates).0 safe.oauth answered in
              inr (
                api,
                now,
                call,
                refl,
                (eq_iff (call.context.request.param "id") k).0 this,
                t,
                client,
                may,
                registered,
                within,
              )
        ]
      ]

  -- In a state in which the invariants of both stores hold, a request changes what the server holds under the id of a certificate only if it is a call of
  -- the certificate API for that id, made with a live token which is bound to no resource or to that
  -- certificate and belongs to a client that may name it.
  pub serve-IsPermitted :
      (i : Incoming) (sys : System S) (k : String)
      → IsSafe p S L svc wall base sys
      → (lookup k (serve p S svc wall base i sys).1.certificates.certificates
          ≡ lookup k sys.certificates.certificates)
        ⊎ IsPermitted i sys k
  unfolding serve
  serve-IsPermitted to_health sys k safe = inl refl
  serve-IsPermitted (to_clients c) sys k safe = inl refl
  serve-IsPermitted (to_tokens c) sys k safe = inl refl
  serve-IsPermitted (to_introspection c) sys k safe = inl refl
  serve-IsPermitted (to_revocation c) sys k safe = inl refl
  serve-IsPermitted (to_acme c) sys k safe = inl refl
  serve-IsPermitted (to_guarded api now call) sys k safe =
      guarded_certificate api now call sys k safe
