-- ===== src/Tests/Revocation.antt =====
-- The theorems on what later calls leave of a token.
use mathlib.Core.Path.{subst}
use go_oauth_client_credenti.Common.{◌≡◌, ◌≢◌, refl, sym, ℕ, some, List, ◌++◌, arith}
use go_oauth_client_credenti.Common.Int.{pos, ◌+ℤ◌, ◌≤ℤ◌}
use go_oauth_client_credenti.Common.Text.{◌<>◌, fields}
use go_oauth_client_credenti.Common.Dict.{lookup, insert}
use go_oauth_client_credenti.Oauth2.Error.{sentinel, token_revoked}
use go_oauth_client_credenti.Oauth2.Encoding.{hex_encode, base64_encode}
use go_oauth_client_credenti.Oauth2.Exec.{ok, err}
use go_oauth_client_credenti.Oauth2.Types.{Token}
use go_oauth_client_credenti.Oauth2.Store.Memory.{
  memory_store, revoke_token, get_token_by_hash, save_token, get_client,
}
use go_oauth_client_credenti.Oauth2.Types.Uri.{validate_absolute_uri}
use go_oauth_client_credenti.Oauth2.Telemetry.{record_token_request}
use go_oauth_client_credenti.Oauth2.Service.Random.{
  read_full, generate_random_base64, compute_token_hash, read_bytes,
}
use go_oauth_client_credenti.Oauth2.Service.Issue.{
  contains_string, check_resource, resource_allowed, scopes_contained, scope_allowed, store_token,
  mint, authorize, issue_checked, issue_token,
}
use go_oauth_client_credenti.Oauth2.Store.Refines.{memory_lawful}
use go_oauth_client_credenti.Oauth2.Service.{World}
use go_oauth_client_credenti.Oauth2.Service.Validate.{validate_token}
use go_oauth_client_credenti.Oauth2.Service.Validate
use go_oauth_client_credenti.Oauth2.Service.Lifecycle.Reachable.{issue, validate, revoke, after}
use go_oauth_client_credenti.Oauth2.Service.Lifecycle.Revocation.{
  NoClash, stay, step, validate_token-Onward, issue_token-Onward,
}
use go_oauth_client_credenti.Tests.Fixtures.{
  platform, service, world, token_request, live_token, clock, certificate_uri, eight, differ,
}
use go_oauth_client_credenti.Tests.Service.{granted, issued_world, issued, opaque_token}
use go_oauth_client_credenti.Tests.Lifecycle.{IsConsistent-store, stored_live}

abbrev first : World memory_store
first = (Validate.revoke_token platform memory_store service clock "opq_Zm9v" world).1

drawn : (read_bytes 32 first.rand_reader).0 ≡ some (eight 255 ++ eight 254 ++ eight 1 ++ eight 2)
unfolding read_bytes Validate.revoke_token revoke_token lookup compute_token_hash hex_encode
drawn = refl

other_hash : compute_token_hash platform opaque_token ≢ compute_token_hash platform "opq_Zm9v"
unfolding compute_token_hash hex_encode base64_encode
other_hash =
    differ (compute_token_hash platform opaque_token) (compute_token_hash platform "opq_Zm9v") refl

fresh :
    NoClash platform memory_store service clock
      (compute_token_hash platform "opq_Zm9v")
      (issue (some token_request))
      first
fresh = λ bytes read.
    let same : (eight 255 ++ eight 254 ++ eight 1 ++ eight 2) ≡ bytes =
      ground (arith, drawn, read) in
    subst
      (λ (b : List ℕ).
        compute_token_hash platform ("opq_" <> base64_encode b)
        ≢ compute_token_hash platform "opq_Zm9v")
      same other_hash

abbrev last : World memory_store
last =
    after platform memory_store service clock (validate "opq_Zm9v")
      (after platform memory_store service clock (issue (some token_request)) first)

validate_token-Onward_example :
    (validate_token platform memory_store service "opq_Zm9v" last).0 ≡ err (sentinel token_revoked)
validate_token-Onward_example =
    validate_token-Onward platform memory_store memory_lawful service clock world last "opq_Zm9v"
      live_token (differ "opq_Zm9v" "" refl) stored_live
      (step (step stay (issue (some token_request)) fresh) (validate "opq_Zm9v") tt)

spared : compute_token_hash platform "opq_Zm9v" ≢ compute_token_hash platform granted.access_token
spared = λ e. other_hash (sym e)

abbrev later : World memory_store
later =
    after platform memory_store service clock (revoke "opq_Zm9v")
      (after platform memory_store service clock (validate "opq_Zm9v") issued_world)

later_ticks : later.ticks ≡ 4
unfolding after Validate.revoke_token validate_token revoke_token compute_token_hash hex_encode
    lookup insert get_token_by_hash save_token get_client issue_token issue_checked authorize mint
    store_token check_resource validate_absolute_uri resource_allowed contains_string scope_allowed
    scopes_contained fields generate_random_base64 read_full read_bytes record_token_request
    base64_encode
later_ticks = refl

early : clock later.ticks ≤ℤ clock 1 +ℤ pos 3600000000000
unfolding ◌+ℤ◌
early = rw later_ticks (omega arith)

issue_token-Onward_example :
    (t : Token) × ((validate_token platform memory_store service granted.access_token later).0
      ≡ ok t)
    × (t.client_id ≡ "client-1")
    × (t.resource ≡ certificate_uri)
    × (t.scope ≡ "write read")
issue_token-Onward_example =
    issue_token-Onward platform memory_store memory_lawful service clock token_request world
      issued_world later granted IsConsistent-store issued
      (step (step stay (validate "opq_Zm9v") tt) (revoke "opq_Zm9v") spared) early
