-- ===== src/Tests/Lifecycle.antt =====
-- The theorems on several calls.
use mathlib.Core.List.{Memᴰ}
use go_oauth_client_credenti.Common.{◌≡◌, refl, inr, some, arith, eq_iff}
use go_oauth_client_credenti.Common.Int.{ℤ, pos, ◌+ℤ◌, ◌≤ℤ◌, ◌<ℤ◌}
use go_oauth_client_credenti.Common.Text.{◌<>◌, fields}
use go_oauth_client_credenti.Common.Dict.{lookup}
use go_oauth_client_credenti.Oauth2.Error.{sentinel, token_expired}
use go_oauth_client_credenti.Oauth2.Encoding.{hex_encode}
use go_oauth_client_credenti.Oauth2.Exec.{ok, err}
use go_oauth_client_credenti.Oauth2.Types.{Client, Token}
use go_oauth_client_credenti.Oauth2.Store.Memory.{memory_store}
use go_oauth_client_credenti.Oauth2.Store.Refines.{memory_maps, memory_lawful}
use go_oauth_client_credenti.Oauth2.Service.{World}
use go_oauth_client_credenti.Oauth2.Service.Random.{compute_token_hash}
use go_oauth_client_credenti.Oauth2.Service.Issue.Checks.{MayTarget, MayScope}
use go_oauth_client_credenti.Oauth2.Service.Validate.{validate_token}
use go_oauth_client_credenti.Oauth2.Service.Lifecycle.Consistent.{IsConsistent}
use go_oauth_client_credenti.Oauth2.Service.Lifecycle.RoundTrip.{Bcrypt, validate_token-issue_token}
use go_oauth_client_credenti.Tests.Fixtures.{
  platform, service, world, empty_world, store, token_request, acme_client, live_token, clock,
  certificate_uri, differ,
}
use go_oauth_client_credenti.Tests.Service.{granted, issued_world, issued}

pub IsConsistent-empty : IsConsistent (memory_maps empty_world.store)
unfolding lookup
IsConsistent-empty = record {
  client_key = λ k c h. absurd (ground (arith, h));
  token_key = λ k t h. absurd (ground (arith, h));
  owner = λ k t h. absurd (ground (arith, h));
}

pub IsConsistent-store : IsConsistent (memory_maps store)
unfolding lookup fields
IsConsistent-store = record {
  client_key = λ k c h. ground (arith, eq_iff "client-1" k);
  token_key = λ k t h. ground (arith, eq_iff (compute_token_hash platform "opq_Zm9v") k);
  owner = λ k t h.
      let same : live_token ≡ t = ground arith in
      mathlib.Core.Path.subst
        (λ (t : Token).
          (c : Client) × ((memory_maps store).client_at t.client_id ≡ some c)
          × MayTarget c.allowed_resources t.resource
          × MayScope c.allowed_scopes t.scope)
        same
        (
          acme_client,
          refl,
          inr (differ certificate_uri "" refl, Memᴰ.head refl),
          inr (Memᴰ.head refl, tt),
        );
}

abbrev later_world : World memory_store
later_world = record issued_world { ticks = 1 }

abbrev expiry : ℤ
expiry = clock 1 +ℤ pos 3600000000000

validate_token-issue_token_example :
    (clock 1 ≤ℤ expiry
      → (t : Token) × ((validate_token platform memory_store service granted.access_token
            later_world).0
          ≡ ok t)
        × (t.client_id ≡ "client-1")
        × (t.resource ≡ certificate_uri)
        × (t.scope ≡ "write read")
        × (t.expires_at ≡ expiry))
    × (expiry <ℤ clock 1
        → (validate_token platform memory_store service granted.access_token later_world).0
          ≡ err (sentinel token_expired))
validate_token-issue_token_example =
    validate_token-issue_token platform memory_store memory_lawful service token_request world
      issued_world later_world granted IsConsistent-store issued refl

pub stored_live :
    (memory_maps store).token_at (compute_token_hash platform "opq_Zm9v") ≡ some live_token
unfolding lookup compute_token_hash hex_encode
stored_live = refl

pub platform-Bcrypt : Bcrypt platform
platform-Bcrypt salt secret cost hash h = ground (arith, eq_iff hash ("$2a$" <> secret))
