-- ===== src/Server/System/Runs.antt =====
-- Runs of requests over stores, compared by what the stores hold.
use go_oauth_client_credenti.Common.{none, ◌≡◌, refl, ap, ◌∙◌, ℕ, String, List, [], ◌∷◌}
use go_oauth_client_credenti.Oauth2.Types.{Time}
use go_oauth_client_credenti.Oauth2.Types.Platform.{Platform}
use go_oauth_client_credenti.Oauth2.Store.{Store}
use go_oauth_client_credenti.Oauth2.Store.Contract.{IsLawful}
use go_oauth_client_credenti.Oauth2.Store.Abstract.{maps_store}
use go_oauth_client_credenti.Oauth2.Store.Memory.{memory_store}
use go_oauth_client_credenti.Oauth2.Store.Refines.{memory_maps, memory_lawful}
use go_oauth_client_credenti.Oauth2.Telemetry.{Telemetry}
use go_oauth_client_credenti.Oauth2.Service.{Service}
use go_oauth_client_credenti.Oauth2.Service
use go_oauth_client_credenti.Common.Dict.{lookup}
use go_oauth_client_credenti.Certificate.Store.{new_memory_store}
use go_oauth_client_credenti.Server.{oauth_service}
use go_oauth_client_credenti.Server.System.{Incoming, Reply, System, serve, serve_all, initial}
use go_oauth_client_credenti.Server.System.Abstract.{ideal, serve-ideal}

module _ (p : Platform) (svc : Service) (base : String) (wall : ℕ → Time) where
  abbrev pub ideal_run :
      (S : Store) → IsLawful S → List Reply × System S → List Reply × System maps_store
  ideal_run S L (rs, sys) = (rs, ideal S L p svc base wall sys)

  -- Over any store that keeps the contract, the server answers every run of requests as it does over
  -- two maps that hold what the store holds, and what the store holds after the run is what the maps
  -- hold.
  pub serve_all-ideal :
      (S : Store) (L : IsLawful S) (is : List Incoming) (sys : System S)
      → ideal_run S L (serve_all p S svc wall base is sys)
        ≡ serve_all p maps_store svc wall base is (ideal S L p svc base wall sys)
  unfolding serve_all
  serve_all-ideal S L [] sys = refl
  serve_all-ideal S L (i ∷ is) sys =
      let out = serve p S svc wall base i sys in
      ap (λ (o : List Reply × System maps_store). (out.0 ∷ o.0, o.1)) (serve_all-ideal S L is out.1)
      ∙ ap
          (λ (o : Reply × System maps_store).
            let rest = serve_all p maps_store svc wall base is o.1 in (o.0 ∷ rest.0, rest.1))
          (serve-ideal S L p svc base wall i sys)

-- The server at its start, over two maps in place of its memory store.
abbrev pub ideal_initial : Telemetry → List ℕ → (ℕ → Time) → System maps_store
ideal_initial telemetry reader time_now = record {
  oauth =
      Service.start maps_store (oauth_service telemetry reader time_now)
        (record { client_at = λ id. none; token_at = λ h. none });
  certificates = new_memory_store;
}

-- From its start on, the server with its memory store answers every run of requests as it does over
-- two maps which are empty at first, and what the memory store holds after the run, seen as two
-- maps, is what the maps hold.
pub initial-ideal :
    (p : Platform) (wall : ℕ → Time) (base : String) (telemetry : Telemetry) (reader : List ℕ)
    (time_now : ℕ → Time) (is : List Incoming)
    → let svc = oauth_service telemetry reader time_now in
      let run = serve_all p memory_store svc wall base is (initial telemetry reader time_now) in
      let mapped =
        serve_all p maps_store svc wall base is (ideal_initial telemetry reader time_now) in
      (run.0 ≡ mapped.0)
      × (memory_maps run.1.oauth.store ≡ mapped.1.oauth.store)
      × (run.1.certificates ≡ mapped.1.certificates)
unfolding initial lookup
initial-ideal p wall base telemetry reader time_now is =
    let svc = oauth_service telemetry reader time_now in
    let both =
      serve_all-ideal p svc base wall memory_store memory_lawful is
        (initial telemetry reader time_now) in
    (
      ap (λ (o : List Reply × System maps_store). o.0) both,
      ap (λ (o : List Reply × System maps_store). o.1.oauth.store) both,
      ap (λ (o : List Reply × System maps_store). o.1.certificates) both,
    )
