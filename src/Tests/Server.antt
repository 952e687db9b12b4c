-- ===== src/Tests/Server.antt =====
-- The theorems on the protected routes.
use mathlib.Core.List.{Memᴰ}
use go_oauth_client_credenti.Common.{arith, inr, ◌≡◌, refl, ◌⊎◌, String, some, []}
use go_oauth_client_credenti.Common.Text.{
  ◌<>◌, trim_right_slash, trim_right, trim_space, trim_left, is_space, split_2, equal_fold,
}
use go_oauth_client_credenti.Common.Dict.{lookup}
use go_oauth_client_credenti.Oauth2.Encoding.{hex_encode}
use go_oauth_client_credenti.Oauth2.Exec.{err}
use go_oauth_client_credenti.Oauth2.Error.{foreign}
use go_oauth_client_credenti.Oauth2.Types.{Client, Token}
use go_oauth_client_credenti.Oauth2.Store.Memory.{memory_store, get_token_by_hash}
use go_oauth_client_credenti.Oauth2.Store.Refines.{memory_maps, memory_lawful}
use go_oauth_client_credenti.Oauth2.Service.Random.{compute_token_hash}
use go_oauth_client_credenti.Oauth2.Service.Validate.{validate_token}
use go_oauth_client_credenti.Oauth2.Http.{Response}
use go_oauth_client_credenti.Oauth2.Middleware.{
  bearer_token, context_token, get_token_from_context, token_auth_middleware, require_resource,
}
use go_oauth_client_credenti.Certificate.Handler.{Content}
use go_oauth_client_credenti.Server.{
  resource_extractor, get, complete, ApiCall, api_request, handle, refused, handled, guard,
  protected,
}
use go_oauth_client_credenti.Server.Guarded.{
  IsAuthorized, target_uri, protected-outcome, protected-IsOwned,
}
use go_oauth_client_credenti.Tests.Fixtures.{
  platform, service, world, clock, certificate_uri, token_request,
}
use go_oauth_client_credenti.Tests.Fixtures
use go_oauth_client_credenti.Common.Int.{◌+ℤ◌, ◌≤ℤ◌, pos}
use go_oauth_client_credenti.Server.Served.{protected-issue_token}
use go_oauth_client_credenti.Tests.Service.{granted, issued_world, issued}
use go_oauth_client_credenti.Tests.Lifecycle.{IsConsistent-store}
use go_oauth_client_credenti.Tests.Web.{context}
use go_oauth_client_credenti.Tests.Certificate.{store}

abbrev pub base : String
base = "https://api.example.com/"

abbrev pub call : ApiCall
call = record {
  context = context;
  json_start = err (foreign "EOF");
  json_complete = err (foreign "EOF");
}

protected-outcome_example :
    let out = protected platform memory_store service base get (clock 0) call world store in
    let run = handle get (clock 0) (api_request call) store in
    (((t : Token) × IsAuthorized platform memory_store memory_lawful service base context world t
        × (out.0 ≡ handled run.0)
        × (out.2 ≡ run.1))
      ⊎ (((t : Token)
            → ¬ IsAuthorized platform memory_store memory_lawful service base context world t)
          × ((r : Response Unit) × (out.0 ≡ refused r))
          × (out.2 ≡ store)))
    × (out.1.store ≡ world.store)
protected-outcome_example =
    protected-outcome platform memory_store memory_lawful service base get (clock 0) call world
      store

abbrev answered : Response Content
answered = (handle get (clock 0) (api_request call) store).0

let_through :
    (protected platform memory_store service base get (clock 0) call world store).0
    ≡ handled answered
unfolding protected guard token_auth_middleware bearer_token split_2 equal_fold trim_space trim_left
    trim_right is_space validate_token compute_token_hash hex_encode get_token_by_hash lookup
    require_resource context_token get_token_from_context resource_extractor trim_right_slash handle
let_through = refl

protected-IsOwned_example :
    (t : Token) × (client : Client) × IsAuthorized platform memory_store memory_lawful service base
      context world t
    × ((memory_maps Fixtures.store).client_at t.client_id ≡ some client)
    × ((client.allowed_resources ≡ [])
        ⊎ Memᴰ (trim_right_slash base <> "/v1/certificates/cert-1") client.allowed_resources)
protected-IsOwned_example =
    protected-IsOwned platform memory_store memory_lawful service base get (clock 0) call world
      store answered IsConsistent-store let_through

abbrev bearer_call : ApiCall
bearer_call = record call {
  context = record context {
    request = record context.request { authorization = "Bearer " <> granted.access_token };
  };
}

young : clock 1 ≤ℤ clock 1 +ℤ pos 3600000000000
unfolding ◌+ℤ◌
young = omega arith

token_uri : certificate_uri ≡ target_uri base context
unfolding trim_right_slash trim_right
token_uri = refl

protected-issue_token_example :
    let out =
      protected platform memory_store service base complete
        (clock 0)
        bearer_call
        (record issued_world { ticks = 1 })
        store in
    let run = handle complete (clock 0) (api_request bearer_call) store in
    (out.0 ≡ handled run.0) × (out.2 ≡ run.1)
protected-issue_token_example =
    protected-issue_token platform memory_store memory_lawful service base token_request world
      issued_world (record issued_world { ticks = 1 }) granted complete (clock 0) bearer_call store
      IsConsistent-store issued refl young refl (inr token_uri)
