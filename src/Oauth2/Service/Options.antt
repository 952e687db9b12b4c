-- ===== src/Oauth2/Service/Options.antt =====
-- What holds of a service whatever options it is made with.
use go_oauth_client_credenti.Common.{ℕ, List, [], ◌∷◌, none, some, arith, Bool-cases, inl, inr}
use go_oauth_client_credenti.Common.Int.{pos, ◌<ℤ◌, ltb_ℤ, ltb_ℤ→lt}
use go_oauth_client_credenti.Oauth2.Types.{Time}
use go_oauth_client_credenti.Oauth2.Telemetry.{Telemetry}
use go_oauth_client_credenti.Oauth2.Service.{
  Service, ServiceOption, with_rand_reader, with_bcrypt_cost, with_token_ttl, with_telemetry,
  with_now_func, apply_option, apply_options, new_service,
}

-- Tokens live for some time, and bcrypt has a cost.
pub record IsPositive (s : Service) : Type 0 where
  pub ttl : pos 0 <ℤ s.token_ttl
  pub cost : pos 0 <ℤ s.bcrypt_cost

apply_option-IsPositive :
    (o : ServiceOption) (s : Service) → IsPositive s → IsPositive (apply_option o s)
unfolding apply_option
apply_option-IsPositive (with_rand_reader none) s h = h
apply_option-IsPositive (with_rand_reader (some r)) s h = record { ttl = h.ttl; cost = h.cost }
apply_option-IsPositive (with_bcrypt_cost cost) s h = elim (Bool-cases (ltb_ℤ (pos 0) cost)) [
  | inl e ↦ rw e (record { ttl = h.ttl; cost = ltb_ℤ→lt (pos 0) cost e })
  | inr e ↦ rw e h
]
apply_option-IsPositive (with_token_ttl d) s h = elim (Bool-cases (ltb_ℤ (pos 0) d)) [
  | inl e ↦ rw e (record { ttl = ltb_ℤ→lt (pos 0) d e; cost = h.cost })
  | inr e ↦ rw e h
]
apply_option-IsPositive (with_telemetry none) s h = h
apply_option-IsPositive (with_telemetry (some t)) s h = record { ttl = h.ttl; cost = h.cost }
apply_option-IsPositive (with_now_func none) s h = h
apply_option-IsPositive (with_now_func (some fn)) s h = record { ttl = h.ttl; cost = h.cost }

apply_options-IsPositive :
    (opts : List ServiceOption) (s : Service) → IsPositive s → IsPositive (apply_options opts s)
unfolding apply_options
apply_options-IsPositive [] s h = h
apply_options-IsPositive (o ∷ opts) s h =
    apply_options-IsPositive opts (apply_option o s) (apply_option-IsPositive o s h)

-- Whatever options a service is made with, the time to live of its tokens and its bcrypt cost are
-- above zero.
pub new_service-IsPositive :
    (telemetry : Telemetry) (reader : List ℕ) (time_now : ℕ → Time) (opts : List ServiceOption)
    → IsPositive (new_service telemetry reader time_now opts)
unfolding new_service
new_service-IsPositive telemetry reader time_now opts =
    apply_options-IsPositive opts _ (record { ttl = omega arith; cost = omega arith })
