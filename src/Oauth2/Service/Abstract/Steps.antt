-- ===== src/Oauth2/Service/Abstract/Steps.antt =====
-- The steps that the methods of the service are made of.
use mathlib.Core.Path.{subst}
use go_oauth_client_credenti.Common.{◌≡◌, refl, ap, ℕ, String, arith}
use go_oauth_client_credenti.Oauth2.Exec.{Result, ok, err, Exec}
use go_oauth_client_credenti.Oauth2.Store.{Store}
use go_oauth_client_credenti.Oauth2.Store.Contract.{Maps, IsLawful}
use go_oauth_client_credenti.Oauth2.Store.Abstract.{maps_store}
use go_oauth_client_credenti.Oauth2.Service.{World, change, ask}
use go_oauth_client_credenti.Oauth2.Service.Random.{
  read_full, generate_random_hex, generate_random_base64,
}
use go_oauth_client_credenti.Oauth2.Service.Register.{context}
use go_oauth_client_credenti.Oauth2.Service.Abstract.{view, seen, Agrees}

module _ (S : Store) (L : IsLawful S) where
  pub change-Agrees :
      {A : Type 0} (f : S.State → Result A × S.State) (g : Maps → Result A × Maps)
      → ((s : S.State) → ◌≡◌ {A = Result A × Maps} ((f s).0, L.maps (f s).1) (g (L.maps s)))
      → Agrees S L (change S f) (change maps_store g)
  change-Agrees {A} f g law = record {
    same =
        λ w. ap (λ (o : Result A × Maps). (o.0, record (view S L w) { store = o.1 })) (law w.store);
  }

  pub ask-Agrees :
      {A : Type 0} (f : S.State → Result A) (g : Maps → Result A)
      → ((s : S.State) → f s ≡ g (L.maps s))
      → Agrees S L (ask S f) (ask maps_store g)
  ask-Agrees f g law = record { same = λ w. rw (law w.store) refl }

  context-seen :
      {A : Type 0} (what : String) (out : Result A × World S)
      → seen S L (context what (λ (w : World S). out) out.1)
        ≡ context what (λ (w : World maps_store). seen S L out) (view S L out.1)
  context-seen what (ok a, w) = refl
  context-seen what (err e, w) = refl

  pub context-Agrees :
      {A : Type 0} (what : String) {m : Exec (World S) A} {n : Exec (World maps_store) A}
      → Agrees S L m n
      → Agrees S L (context what m) (context what n)
  context-Agrees {A} what {m} {n} agree = record {
    same = λ w.
        subst
          (λ (o : Result A × World maps_store).
            seen S L (context what m w) ≡ context what (λ (v : World maps_store). o) o.1)
          (agree.same w) (context-seen what (m w));
  }

  pub generate_random_base64-Agrees :
      (n : ℕ) → Agrees S L (generate_random_base64 S n) (generate_random_base64 maps_store n)
  unfolding generate_random_base64 read_full
  generate_random_base64-Agrees n = record { same = λ w. ground arith }

  pub generate_random_hex-Agrees :
      (n : ℕ) → Agrees S L (generate_random_hex S n) (generate_random_hex maps_store n)
  unfolding generate_random_hex read_full
  generate_random_hex-Agrees n = record { same = λ w. ground arith }
