-- ===== src/Oauth2/Service/Abstract.antt =====
-- The service over a store, and over the two maps of that store.
pub mod Steps
pub mod Register
pub mod Issue
pub mod Validate
use go_oauth_client_credenti.Common.{
  ◌≡◌, refl, ap, ℕ, String, Bool, true, false, Option, none, some, if◌then◌else◌,
}
use mathlib.Core.Path.{subst}
use go_oauth_client_credenti.Oauth2.Exec.{
  Result, ok, err, Exec, continue, pure, raise, try, ◌>>=◌, ◌>>◌,
}
use go_oauth_client_credenti.Oauth2.Error.{Error}
use go_oauth_client_credenti.Oauth2.Types.{Time}
use go_oauth_client_credenti.Oauth2.Store.{Store}
use go_oauth_client_credenti.Oauth2.Store.Contract.{Maps, IsLawful}
use go_oauth_client_credenti.Oauth2.Store.Abstract.{maps_store}
use go_oauth_client_credenti.Oauth2.Telemetry.{Telemetry}
use go_oauth_client_credenti.Oauth2.Service.{Service, World, read_clock, change, ask, observe}

module _ (S : Store) (L : IsLawful S) where
  -- The world with the maps in place of the store.
  abbrev pub view : World S → World maps_store
  view w = record {
    store = L.maps w.store;
    rand_reader = w.rand_reader;
    telemetry = w.telemetry;
    ticks = w.ticks;
    salts = w.salts;
  }

  abbrev pub seen : {A : Type 0} → A × World S → A × World maps_store
  seen (r, w) = (r, view w)

  -- A method over the store does what one over the maps does: it returns the same, and leaves the
  -- maps, and all else, as that one does.
  pub record Agrees {A : Type 0} (m : Exec (World S) A) (n : Exec (World maps_store) A)
      : Type 0 where
    pub same : (w : World S) → seen (m w) ≡ n (view w)

  continue-seen :
      {A B : Type 0} (f : A → Exec (World S) B) (g : A → Exec (World maps_store) B)
      (out : Result A × World S)
      → ((a : A) → Agrees (f a) (g a))
      → seen (continue out.0 f out.1) ≡ continue (seen out).0 g (seen out).1
  continue-seen f g (ok a, w) agree = (agree a).same w
  continue-seen f g (err e, w) agree = refl

  pub bind-Agrees :
      {A B : Type 0} {m : Exec (World S) A} {n : Exec (World maps_store) A}
      {f : A → Exec (World S) B} {g : A → Exec (World maps_store) B}
      → Agrees m n
      → ((a : A) → Agrees (f a) (g a))
      → Agrees (m >>= f) (n >>= g)
  bind-Agrees {m} {n} {f} {g} first rest = record {
    same = λ w.
        subst
          (λ (o : Result _ × World maps_store).
            seen (continue (m w).0 f (m w).1) ≡ continue o.0 g o.1)
          (first.same w) (continue-seen f g (m w) rest);
  }

  pub try-Agrees :
      {A : Type 0} {m : Exec (World S) A} {n : Exec (World maps_store) A}
      → Agrees m n
      → Agrees (try m) (try n)
  try-Agrees {A} {m} {n} agree = record {
    same = λ w. ap (λ (o : Result A × World maps_store). (ok o.0, o.1)) (agree.same w);
  }

  pub pure-Agrees : {A : Type 0} (a : A) → Agrees (pure a) (pure a)
  pure-Agrees a = record { same = λ w. refl }

  pub raise-Agrees : {A : Type 0} (e : Error) → Agrees (raise {A = A} e) (raise e)
  raise-Agrees e = record { same = λ w. refl }

  pub read_clock-Agrees : (svc : Service) → Agrees (read_clock S svc) (read_clock maps_store svc)
  read_clock-Agrees svc = record { same = λ w. refl }

  pub observe-Agrees : (f : Telemetry → Telemetry) → Agrees (observe S f) (observe maps_store f)
  observe-Agrees f = record { same = λ w. refl }

  pub if-Agrees :
      {A : Type 0} {m m' : Exec (World S) A} {n n' : Exec (World maps_store) A} (b : Bool)
      → Agrees m n
      → Agrees m' n'
      → Agrees (if b then m else m') (if b then n else n')
  if-Agrees true first second = first
  if-Agrees false first second = second

  pub result-Agrees :
      {A B : Type 0} {h : Error → Exec (World S) B} {k : Error → Exec (World maps_store) B}
      {f : A → Exec (World S) B} {g : A → Exec (World maps_store) B} (r : Result A)
      → ((e : Error) → Agrees (h e) (k e))
      → ((a : A) → Agrees (f a) (g a))
      → Agrees (elim r [ err e ↦ h e | ok a ↦ f a ]) (elim r [ err e ↦ k e | ok a ↦ g a ])
  result-Agrees (err e) bad good = bad e
  result-Agrees (ok a) bad good = good a
