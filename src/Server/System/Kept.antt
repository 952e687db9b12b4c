-- ===== src/Server/System/Kept.antt =====
-- What any run of requests leaves of a certificate.
use go_oauth_client_credenti.Common.{◌≡◌, ap, ◌∙◌, ℕ, String, some, inl, inr}
use go_oauth_client_credenti.Common.Dict.{lookup}
use go_oauth_client_credenti.Oauth2.Types.{Time}
use go_oauth_client_credenti.Oauth2.Types.Platform.{Platform}
use go_oauth_client_credenti.Oauth2.Store.{Store}
use go_oauth_client_credenti.Oauth2.Store.Contract.{IsLawful}
use go_oauth_client_credenti.Oauth2.Service.{Service}
use go_oauth_client_credenti.Certificate.Model.{Certificate}
use go_oauth_client_credenti.Certificate.Store.{MemoryStore}
use go_oauth_client_credenti.Certificate.Handler.Invariant.{IsIndexed}
use go_oauth_client_credenti.Certificate.Handler.Statuses.{
  IsLater, IsLater-refl, IsLater-trans, Holds, start_challenge-Holds, complete_challenge-Holds,
}
use go_oauth_client_credenti.Server.{Api, start, complete, get, ApiCall, api_request, handle}
use go_oauth_client_credenti.Server.Guarded.{protected-outcome}
use go_oauth_client_credenti.Server.System.{
  Incoming, to_health, to_clients, to_tokens, to_introspection, to_revocation, to_acme, to_guarded,
  System, serve, Served, fresh, then,
}
use go_oauth_client_credenti.Server.System.Safe.{IsSafe, Served-IsSafe}

handle-Holds :
    (api : Api) (now : Time) (call : ApiCall) (s : MemoryStore) (k : String) (c : Certificate)
    → IsIndexed s
    → lookup k s.certificates ≡ some c
    → Holds k c (handle api now (api_request call) s).1
unfolding handle
handle-Holds start now call s k c inv found =
    start_challenge-Holds now (api_request call) s k c found
handle-Holds complete now call s k c inv found =
    complete_challenge-Holds now (api_request call) s k c inv found
handle-Holds get now call s k c inv found = (c, found, IsLater-refl c)

module _ (p : Platform) (S : Store) (L : IsLawful S) (svc : Service) (wall : ℕ → Time)
    (base : String) where
  serve-Holds :
      (i : Incoming) (sys : System S) (k : String) (c : Certificate)
      → IsSafe p S L svc wall base sys
      → lookup k sys.certificates.certificates ≡ some c
      → Holds k c (serve p S svc wall base i sys).1.certificates
  unfolding serve
  serve-Holds to_health sys k c safe found = (c, found, IsLater-refl c)
  serve-Holds (to_clients _) sys k c safe found = (c, found, IsLater-refl c)
  serve-Holds (to_tokens _) sys k c safe found = (c, found, IsLater-refl c)
  serve-Holds (to_introspection _) sys k c safe found = (c, found, IsLater-refl c)
  serve-Holds (to_revocation _) sys k c safe found = (c, found, IsLater-refl c)
  serve-Holds (to_acme _) sys k c safe found = (c, found, IsLater-refl c)
  serve-Holds (to_guarded api now call) sys k c safe found =
      elim (protected-outcome p S L svc base api now call sys.oauth sys.certificates).0 [
        | inl (_, _, _, changed) ↦
            rw changed (handle-Holds api now call sys.certificates k c safe.certificates found)
        | inr (_, _, same) ↦
            (c, ap (λ (m : MemoryStore). lookup k m.certificates) same ∙ found, IsLater-refl c)
      ]

  -- Whatever requests follow on a state in which the invariants of both stores hold, a certificate that the server holds stays there, with its id, its
  -- domain and its time of creation, and with the status that it has or the status issued; one that
  -- is issued stays issued.
  pub Served-IsLater :
      (sys sys'' : System S) (k : String) (c : Certificate)
      → IsSafe p S L svc wall base sys
      → lookup k sys.certificates.certificates ≡ some c
      → Served p S svc wall base sys sys''
      → (d : Certificate) × (lookup k sys''.certificates.certificates ≡ some d)
        × IsLater c d
        × (c.status ≡ "issued" → d.status ≡ "issued")
  Served-IsLater sys sys'' k c safe found served =
      let (d, there, later) = held served in
      (d, there, later, λ e. elim later.status [ inl same ↦ same ∙ e | inr done ↦ done ])
    where
      held : {u : System S} → Served p S svc wall base sys u → Holds k c u.certificates
      held fresh = (c, found, IsLater-refl c)
      held (then {sys' = u} before i) =
          let (d, there, later) = held before in
          let (e, here, latest) =
            serve-Holds i u k d (Served-IsSafe p S L svc wall base safe before) there in
          (e, here, IsLater-trans later latest)
