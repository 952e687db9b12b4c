-- ===== src/Oauth2/Service.antt =====
-- pkg/oauth2/service.go: the service, its options, and what its methods read and write.
pub mod Random
pub mod Register
pub mod Issue
pub mod Validate
pub mod Lifecycle
pub mod Overlap
pub mod Abstract
pub mod Sizes
pub mod Options
use go_oauth_client_credenti.Common.{
  ℕ, zero, suc, Bool, true, Option, none, some, List, [], ◌∷◌, if◌then◌else◌,
}
use go_oauth_client_credenti.Common.Int.{ℤ, pos, ltb_ℤ}
use go_oauth_client_credenti.Oauth2.Error.{Error}
use go_oauth_client_credenti.Oauth2.Exec.{Result, ok, Exec}
use go_oauth_client_credenti.Oauth2.Types.{Time}
use go_oauth_client_credenti.Oauth2.Store.{Store}
use go_oauth_client_credenti.Oauth2.Telemetry.{Telemetry}

abbrev pub second : ℕ
second = 1000000000

abbrev pub default_token_ttl : ℤ
default_token_ttl = pos 3600000000000

abbrev pub token_entropy_len : ℕ
token_entropy_len = 32

-- `bcrypt.DefaultCost`
abbrev default_cost : ℤ
default_cost = pos 10

-- The fields of `Service` but the store. `rand_reader` is what the reader has yet to give;
-- `now_func n` is the n-th time that the clock gives.
pub record Service : Type 0 where
  pub telemetry : Telemetry
  pub token_ttl : ℤ
  pub bcrypt_cost : ℤ
  pub rand_reader : List ℕ
  pub now_func : ℕ → Time

pub data ServiceOption : Type 0 where
  with_rand_reader : Option (List ℕ) → ServiceOption
  with_bcrypt_cost : ℤ → ServiceOption
  with_token_ttl : ℤ → ServiceOption
  with_telemetry : Option Telemetry → ServiceOption
  with_now_func : Option (ℕ → Time) → ServiceOption

unfoldable pub apply_option : ServiceOption → Service → Service
apply_option (with_rand_reader none) s = s
apply_option (with_rand_reader (some r)) s = record s { rand_reader = r }
apply_option (with_bcrypt_cost cost) s =
    if ltb_ℤ (pos 0) cost then record s { bcrypt_cost = cost } else s
apply_option (with_token_ttl d) s = if ltb_ℤ (pos 0) d then record s { token_ttl = d } else s
apply_option (with_telemetry none) s = s
apply_option (with_telemetry (some t)) s = record s { telemetry = t }
apply_option (with_now_func none) s = s
apply_option (with_now_func (some fn)) s = record s { now_func = fn }

unfoldable pub apply_options : List ServiceOption → Service → Service
unfolding apply_option
apply_options [] s = s
apply_options (opt ∷ opts) s = apply_options opts (apply_option opt s)

-- `NewService`, given `NewTelemetry()`, `rand.Reader` and `time.Now`
unfoldable pub new_service : Telemetry → List ℕ → (ℕ → Time) → List ServiceOption → Service
unfolding apply_options
new_service telemetry reader time_now opts = apply_options opts (record {
  telemetry = telemetry;
  token_ttl = default_token_ttl;
  bcrypt_cost = default_cost;
  rand_reader = reader;
  now_func = time_now;
})

-- What the methods change: the store, the random reader, the telemetry, how often a clock was read
-- and how often bcrypt drew a salt.
pub record World (S : Store) : Type 0 where
  pub store : S.State
  pub rand_reader : List ℕ
  pub telemetry : Telemetry
  pub ticks : ℕ
  pub salts : ℕ

abbrev pub start : (S : Store) → Service → S.State → World S
start S svc store = record {
  store = store;
  rand_reader = svc.rand_reader;
  telemetry = svc.telemetry;
  ticks = 0;
  salts = 0;
}

module _ (S : Store) where
  -- `s.nowFunc()`
  abbrev pub read_clock : Service → Exec (World S) Time
  read_clock svc w = (ok (svc.now_func w.ticks), record w { ticks = suc w.ticks })

  -- A method of the store that changes its state, and one that does not.
  abbrev pub change : {A : Type 0} → (S.State → Result A × S.State) → Exec (World S) A
  change f w = let (r, s) = f w.store in (r, record w { store = s })

  abbrev pub ask : {A : Type 0} → (S.State → Result A) → Exec (World S) A
  ask f w = (f w.store, w)

  abbrev pub observe : (Telemetry → Telemetry) → Exec (World S) (Unit {0})
  observe f w = (ok tt, record w { telemetry = f w.telemetry })
