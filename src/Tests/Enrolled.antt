-- ===== src/Tests/Enrolled.antt =====
-- The theorems on a client that another one registers at a connected server.
use mathlib.Core.List.{Memᴰ}
use go_oauth_client_credenti.Common.{
  ◌≡◌, refl, sym, ap, ◌⊎◌, inr, arith, suc, false, none, some, [],
}
use go_oauth_client_credenti.Common.Int.{pos, ◌+ℤ◌, ◌≤ℤ◌}
use go_oauth_client_credenti.Common.Text.{
  ◌<>◌, contains, trim_space, trim_left, trim_right, is_space,
}
use go_oauth_client_credenti.Common.Dict.{lookup, insert}
use go_oauth_client_credenti.Oauth2.Error.{Error, foreign, sentinel, token_revoked}
use go_oauth_client_credenti.Oauth2.Exec.{ok, err}
use go_oauth_client_credenti.Oauth2.Encoding.{base64_encode, hex_encode}
use go_oauth_client_credenti.Oauth2.Types.{Time, Token, IntrospectResponse, RegisterClientResponse}
use go_oauth_client_credenti.Oauth2.Types.Uri.{validate_absolute_uri}
use go_oauth_client_credenti.Oauth2.Store.Memory.{memory_store, create_client}
use go_oauth_client_credenti.Oauth2.Store.Refines.{memory_maps, memory_lawful}
use go_oauth_client_credenti.Oauth2.Service.{World}
use go_oauth_client_credenti.Oauth2.Service.Issue.{check_resource}
use go_oauth_client_credenti.Oauth2.Service.Random.{
  read_bytes, read_full, generate_random_hex, generate_random_base64,
}
use go_oauth_client_credenti.Oauth2.Service.Register.{
  check_resources, hash_secret, store_client, create_credentials, register_client,
}
use go_oauth_client_credenti.Oauth2.Service.Validate.{validate_token}
use go_oauth_client_credenti.Oauth2.Service.Validate.Live.{IsLive}
use go_oauth_client_credenti.Oauth2.Handlers.{registration_answer}
use go_oauth_client_credenti.Certificate.Store.{MemoryStore}
use go_oauth_client_credenti.Client.{Client}
use go_oauth_client_credenti.Client
use go_oauth_client_credenti.Client.Cache.{cached_token, get_token}
use go_oauth_client_credenti.Client.Requests
use go_oauth_client_credenti.Client.Requests.{introspect, revoke}
use go_oauth_client_credenti.Server.{Api, ApiCall, api_request, handle, handled, protected}
use go_oauth_client_credenti.Server.Guarded.{target_uri}
use go_oauth_client_credenti.Server.Connected.{IsWritable}
use go_oauth_client_credenti.Server.Connected.Tokens.{IsAimed}
use go_oauth_client_credenti.Server.Connected.Registered.{register_client-register_client}
use go_oauth_client_credenti.Server.Connected.Introspected.{
  IsDescribed, IsHidden, introspect-IsLive,
}
use go_oauth_client_credenti.Server.Connected.Lifecycle.{register_client-revoke}
use go_oauth_client_credenti.Tests.Fixtures.{
  platform, platform-Sums, service, store, empty_world, clock, certificate_uri, bytes32,
  register_request, differ,
}
use go_oauth_client_credenti.Tests.Lifecycle.{IsConsistent-empty, platform-Bcrypt}
use go_oauth_client_credenti.Tests.Registration.{registered, registered_world, registered_ok}
use go_oauth_client_credenti.Tests.Client.{client}
use go_oauth_client_credenti.Tests.Server.{base}
use go_oauth_client_credenti.Tests.Connected.{net, start, client-IsAimed}
use go_oauth_client_credenti.Tests.Wire.{wire, wire-IsFaithful}

abbrev empty_start : Client.World (World memory_store)
empty_start = record { tokens = []; net = empty_world; ticks = 0 }

introspect-IsLive_example :
    let live = IsLive platform (memory_maps store) "opq_Zm9v" (clock 0) in
    let got = (introspect net client "opq_Zm9v" start).0 in
    ((t : Token) → live t → (resp : IntrospectResponse) × (got ≡ ok resp) × IsDescribed t resp)
    × (((t : Token) → ¬ live t) → (resp : IntrospectResponse) × (got ≡ ok resp) × IsHidden resp)
introspect-IsLive_example =
    introspect-IsLive wire wire-IsFaithful platform memory_store memory_lawful service clock client
      client-IsAimed "opq_Zm9v" start (differ "opq_Zm9v" "" refl)

register_client-register_client_example :
    let out = register_client platform memory_store service (some register_request) empty_world in
    let got = Requests.register_client net client (some register_request) empty_start in
    (got.1 ≡ record empty_start { net = out.1 })
    × ((resp : RegisterClientResponse)
        → out.0 ≡ ok resp
        → IsWritable resp.created_at
        → got.0 ≡ ok resp)
    × ((e : Error)
        → out.0 ≡ err e
        → let answer =
            wire.registration (registration_answer platform memory_store service (err e)) in
          got.0
          ≡ err (
              foreign (
                "register client"
                <> " failed with status "
                <> wire.decimal answer.status_code
                <> ": "
                <> answer.body)))
register_client-register_client_example =
    register_client-register_client wire wire-IsFaithful platform memory_store service clock client
      client-IsAimed register_request empty_start

abbrev enrolled : Client
enrolled = record client {
  config = record {
    server_url = client.config.server_url;
    client_id = registered.client_id;
    client_secret = registered.client_secret;
    expiry_buffer = pos 0;
  };
}

plain_id : contains registered.client_id ":" ≡ false
unfolding contains hex_encode
plain_id = refl

enrolled-IsAimed : IsAimed wire enrolled
enrolled-IsAimed = record {
  path = client-IsAimed.path;
  url = client-IsAimed.url;
  client_id = plain_id;
}

-- The enrolled client starts with an empty cache at the server that the registration left.
abbrev enrolled_start : Client.World (World memory_store)
enrolled_start = record { tokens = []; net = registered_world; ticks = 0 }

left_bytes : registered_world.rand_reader ≡ bytes32
unfolding register_client create_credentials store_client hash_secret check_resources
    validate_absolute_uri create_client generate_random_hex generate_random_base64 read_full
    read_bytes trim_space trim_left trim_right is_space insert lookup hex_encode
left_bytes = refl

missed : cached_token enrolled (clock 0) certificate_uri [] ≡ none
unfolding cached_token lookup
missed = refl

target_ok : check_resource platform certificate_uri ≡ ok tt
unfolding check_resource validate_absolute_uri
target_ok = refl

register_client-revoke_example :
    let registered_now = Requests.register_client net client (some register_request) empty_start in
    let got = get_token net enrolled certificate_uri enrolled_start in
    let token = "opq_" <> base64_encode bytes32 in
    (registered_now.0 ≡ ok registered)
    × (got.0 ≡ ok token)
    × ((api : Api) (now : Time) (call : ApiCall) (s : MemoryStore)
        → clock got.1.net.ticks ≤ℤ clock (suc registered_world.ticks) +ℤ pos 3600000000000
        → call.context.request.authorization ≡ "Bearer " <> token
        → (certificate_uri ≡ "") ⊎ (certificate_uri ≡ target_uri base call.context)
        → let out = protected platform memory_store service base api now call got.1.net s in
          let run = handle api now (api_request call) s in
          (out.0 ≡ handled run.0) × (out.2 ≡ run.1))
    × ((u : Client.World (World memory_store))
        → memory_maps u.net.store ≡ memory_maps got.1.net.store
        → let out = revoke net enrolled token u in
          (out.0 ≡ ok tt)
          × ((validate_token platform memory_store service token out.1.net).0
              ≡ err (sentinel token_revoked)))
register_client-revoke_example =
    register_client-revoke wire wire-IsFaithful platform platform-Sums platform-Bcrypt memory_store
      memory_lawful service clock client enrolled client-IsAimed enrolled-IsAimed base
      certificate_uri register_request empty_start enrolled_start registered bytes32 []
      IsConsistent-empty (ap (λ r. r.0) registered_ok) (omega arith, omega arith) refl refl
      target_ok (inr (differ certificate_uri "" refl, Memᴰ.head refl))
      (sym (
        ap (λ x. x.net)
          ((register_client-register_client wire wire-IsFaithful platform memory_store service clock
            client client-IsAimed register_request empty_start).0)))
      missed refl left_bytes
