-- ===== src/Tests/Registration.antt =====
-- The theorems on registration and on the audit log.
use go_oauth_client_credenti.Common.{◌≡◌, refl, ◌≢◌, none, some, [], ◌∷◌, ◌++◌, All}
use go_oauth_client_credenti.Common.Text.{trim_space, trim_left, trim_right, is_space}
use go_oauth_client_credenti.Common.Dict.{lookup, insert}
use go_oauth_client_credenti.Oauth2.Error.{sentinel, wrapped, invalid_request}
use go_oauth_client_credenti.Oauth2.Encoding.{hex_encode, base64_encode}
use go_oauth_client_credenti.Oauth2.Exec.{ok, err}
use go_oauth_client_credenti.Oauth2.Types.{
  RegisterClientRequest, RegisterClientResponse, TokenRequest, TokenResponse,
}
use go_oauth_client_credenti.Oauth2.Types.Uri.{validate_absolute_uri}
use go_oauth_client_credenti.Oauth2.Store.Memory.{memory_store, create_client}
use go_oauth_client_credenti.Oauth2.Store.Refines.{memory_maps, memory_lawful}
use go_oauth_client_credenti.Oauth2.Service.{World}
use go_oauth_client_credenti.Oauth2.Service.Random.{
  read_bytes, read_full, generate_random_hex, generate_random_base64,
}
use go_oauth_client_credenti.Oauth2.Service.Register.{
  check_resources, hash_secret, store_client, create_credentials, register_client,
}
use go_oauth_client_credenti.Oauth2.Service.Register.Sound.{
  IsAdded, register_client_sound, register_client-failed,
}
use go_oauth_client_credenti.Oauth2.Encoding.Lengths.{size}
use go_oauth_client_credenti.Oauth2.Service.Sizes.{credentials-sizes}
use go_oauth_client_credenti.Oauth2.Service.Issue.{issue_token}
use go_oauth_client_credenti.Oauth2.Service.Issue.Audit.{IsAudited, issue_token-IsAudited}
use go_oauth_client_credenti.Tests.Fixtures.{
  platform, service, world, empty_world, store, token_request, eight, bytes32, clock,
  certificate_uri, register_request,
}

abbrev pub registered : RegisterClientResponse
registered = record {
  client_id = hex_encode (eight 255 ++ eight 254);
  client_secret = base64_encode bytes32;
  name = "acme";
  allowed_resources = certificate_uri ∷ [];
  allowed_scopes = "read" ∷ [];
  created_at = clock 0;
}

abbrev pub registered_world : World memory_store
registered_world =
    (register_client platform memory_store service (some register_request) empty_world).1

pub registered_ok :
    register_client platform memory_store service (some register_request) empty_world
    ≡ (ok registered, registered_world)
unfolding register_client create_credentials store_client hash_secret check_resources trim_space
    trim_left trim_right is_space validate_absolute_uri create_client lookup insert
    generate_random_hex generate_random_base64 read_full read_bytes hex_encode base64_encode
registered_ok = refl

register_client-sound_example :
    (trim_space "acme" ≢ "")
    × All (λ res. validate_absolute_uri platform res ≡ ok tt) (certificate_uri ∷ [])
    × IsAdded platform memory_store memory_lawful service register_request empty_world
        registered_world registered
register_client-sound_example =
    register_client_sound platform memory_store memory_lawful service register_request empty_world
      registered_world registered registered_ok

unnamed :
    (register_client platform memory_store service none world).0
    ≡ err (wrapped "" (sentinel invalid_request) ": name is required")
unfolding register_client
unnamed = refl

register_client-failed_example :
    memory_maps (register_client platform memory_store service none world).1.store
    ≡ memory_maps store
register_client-failed_example =
    register_client-failed platform memory_store memory_lawful service none world
      (wrapped "" (sentinel invalid_request) ": name is required") unnamed

issue_token-IsAudited_example :
    IsAudited platform memory_store memory_lawful service world
      (issue_token platform memory_store service (some token_request) world)
issue_token-IsAudited_example =
    issue_token-IsAudited platform memory_store memory_lawful service (some token_request) world

credentials-sizes_example :
    ((req : RegisterClientRequest) (resp : RegisterClientResponse)
      → (register_client platform memory_store service (some req) empty_world).0 ≡ ok resp
      → (size resp.client_id ≡ 32) × (size resp.client_secret ≡ 43))
    × ((req : TokenRequest) (resp : TokenResponse)
        → (issue_token platform memory_store service (some req) empty_world).0 ≡ ok resp
        → size resp.access_token ≡ 47)
credentials-sizes_example =
    credentials-sizes platform memory_store service memory_lawful empty_world
