-- ===== src/Server/System/Safe.antt =====
-- What holds of the two stores, whatever requests are served.
use go_oauth_client_credenti.Common.{ℕ, String, some, List, inl, inr, ◌==◌, arith, Bool-cases}
use go_oauth_client_credenti.Common.Dict.{lookup}
use go_oauth_client_credenti.Oauth2.Exec.{Result-cases}
use go_oauth_client_credenti.Oauth2.Types.{Time}
use go_oauth_client_credenti.Oauth2.Types.Platform.{Platform}
use go_oauth_client_credenti.Oauth2.Store.{Store}
use go_oauth_client_credenti.Oauth2.Store.Memory.{memory_store}
use go_oauth_client_credenti.Oauth2.Store.Contract.{IsLawful}
use go_oauth_client_credenti.Oauth2.Store.Refines.{memory_lawful}
use go_oauth_client_credenti.Oauth2.Telemetry.{Telemetry}
use go_oauth_client_credenti.Oauth2.Service.{Service, World}
use go_oauth_client_credenti.Oauth2.Service.Lifecycle.Consistent.{IsConsistent}
use go_oauth_client_credenti.Oauth2.Service.Lifecycle.Reachable.{
  introspect_token-store, issue_token-IsConsistent, register_client-IsConsistent,
  revoke_token-IsConsistent,
}
use go_oauth_client_credenti.Oauth2.Http.{Request}
use go_oauth_client_credenti.Oauth2.Handlers.{
  with_basic_auth, bound_token_request, extract_token_param, register_client_handler, token_handler,
  introspect_handler, revoke_handler,
}
use go_oauth_client_credenti.Certificate.Store.{MemoryStore}
use go_oauth_client_credenti.Certificate.Handler.Invariant.{
  IsIndexed, start_challenge-IsIndexed, complete_challenge-IsIndexed, Reachable-IsIndexed, here,
}
use go_oauth_client_credenti.Server.{
  Api, start, complete, get, ApiCall, api_request, handle, oauth_service, protected,
}
use go_oauth_client_credenti.Server.Guarded.{protected-outcome}
use go_oauth_client_credenti.Server.System.{
  Incoming, to_health, to_clients, to_tokens, to_introspection, to_revocation, to_acme, to_guarded,
  System, serve, Served, fresh, then, initial,
}

handle-IsIndexed :
    (api : Api) (now : Time) (call : ApiCall) (s : MemoryStore)
    → IsIndexed s
    → IsIndexed (handle api now (api_request call) s).1
unfolding handle
handle-IsIndexed start now call s inv = start_challenge-IsIndexed now (api_request call) s inv
handle-IsIndexed complete now call s inv = complete_challenge-IsIndexed now (api_request call) s inv
handle-IsIndexed get now call s inv = inv

module _ (p : Platform) (S : Store) (L : IsLawful S) (svc : Service) (wall : ℕ → Time)
    (base : String) where
  -- The two invariants.
  pub record IsSafe (sys : System S) : Type 0 where
    pub oauth : IsConsistent (L.maps sys.oauth.store)
    pub certificates : IsIndexed sys.certificates

  abbrev Kept : World S → Type 0
  Kept w = IsConsistent (L.maps w.store)

  register_client_handler-Kept :
      (c : Request) (w : World S) → Kept w → Kept (register_client_handler p S svc c w).1
  unfolding register_client_handler
  register_client_handler-Kept c w inv = elim (Result-cases c.json_register) [
    | inr (e, bad) ↦ rw bad inv
    | inl (req, bound) ↦ rw bound (register_client-IsConsistent p S L svc wall (some req) w inv)
  ]

  token_handler-Kept : (c : Request) (w : World S) → Kept w → Kept (token_handler p S svc c w).1
  unfolding token_handler
  token_handler-Kept c w inv = elim (Result-cases (bound_token_request c)) [
    | inr (e, bad) ↦ rw (bad, token_handler) inv
    | inl (req, bound) ↦
        rw (bound, token_handler)
          (issue_token-IsConsistent p S L svc wall (some (with_basic_auth c.basic_auth req)) w inv)
  ]

  introspect_handler-Kept :
      (c : Request) (w : World S) → Kept w → Kept (introspect_handler p S svc c w).1
  unfolding introspect_handler
  introspect_handler-Kept c w inv = elim (Bool-cases (extract_token_param c == "")) [
    | inl e ↦ rw e inv
    | inr e ↦ rw (e, introspect_token-store p S L svc wall (extract_token_param c) w) inv
  ]

  revoke_handler-Kept :
      (c : Request) (w : World S) → Kept w → Kept (revoke_handler p S svc wall c w).1
  unfolding revoke_handler
  revoke_handler-Kept c w inv = elim (Bool-cases (extract_token_param c == "")) [
    | inl e ↦ rw e inv
    | inr e ↦ rw e (revoke_token-IsConsistent p S L svc wall (extract_token_param c) w inv)
  ]

  protected-IsIndexed :
      (api : Api) (now : Time) (call : ApiCall) (w : World S) (s : MemoryStore)
      → IsIndexed s
      → IsIndexed (protected p S svc base api now call w s).2
  protected-IsIndexed api now call w s inv =
      elim (protected-outcome p S L svc base api now call w s).0 [
        | inl (_, _, _, changed) ↦ rw changed (handle-IsIndexed api now call s inv)
        | inr (_, _, same) ↦ rw same inv
      ]

  pub serve-IsSafe :
      (i : Incoming) (sys : System S) → IsSafe sys → IsSafe (serve p S svc wall base i sys).1
  unfolding serve
  serve-IsSafe to_health sys inv = inv
  serve-IsSafe (to_clients c) sys inv = record {
    oauth = register_client_handler-Kept c sys.oauth inv.oauth;
    certificates = inv.certificates;
  }
  serve-IsSafe (to_tokens c) sys inv = record {
    oauth = token_handler-Kept c sys.oauth inv.oauth;
    certificates = inv.certificates;
  }
  serve-IsSafe (to_introspection c) sys inv = record {
    oauth = introspect_handler-Kept c sys.oauth inv.oauth;
    certificates = inv.certificates;
  }
  serve-IsSafe (to_revocation c) sys inv = record {
    oauth = revoke_handler-Kept c sys.oauth inv.oauth;
    certificates = inv.certificates;
  }
  serve-IsSafe (to_acme c) sys inv = inv
  serve-IsSafe (to_guarded api now call) sys inv = record {
    oauth =
        rw ((protected-outcome p S L svc base api now call sys.oauth sys.certificates).1) inv.oauth;
    certificates = protected-IsIndexed api now call sys.oauth sys.certificates inv.certificates;
  }

  pub Served-IsSafe :
      {sys sys'' : System S} → IsSafe sys → Served p S svc wall base sys sys'' → IsSafe sys''
  Served-IsSafe inv fresh = inv
  Served-IsSafe inv (then {sys'} served i) = serve-IsSafe i sys' (Served-IsSafe inv served)

-- Whatever requests the server gets from its start on, every token that it holds belongs to a
-- registered client and lies within the resources and scopes of that client, and every challenge
-- belongs to a certificate that it holds.
pub initial-IsSafe :
    (p : Platform) (wall : ℕ → Time) (base : String) (telemetry : Telemetry) (reader : List ℕ)
    (time_now : ℕ → Time) (sys : System memory_store)
    → Served p memory_store
        (oauth_service telemetry reader time_now)
        wall
        base
        (initial telemetry reader time_now)
        sys
    → IsSafe p memory_store memory_lawful (oauth_service telemetry reader time_now) wall base sys
unfolding initial lookup
initial-IsSafe p wall base telemetry reader time_now sys served =
    Served-IsSafe p memory_store memory_lawful (oauth_service telemetry reader time_now) wall base
      (record {
        oauth = record {
          client_key = λ k c h. absurd (ground (arith, h));
          token_key = λ k t h. absurd (ground (arith, h));
          owner = λ k t h. absurd (ground (arith, h));
        };
        certificates = Reachable-IsIndexed here;
      })
      served
