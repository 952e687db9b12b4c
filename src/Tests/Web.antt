-- ===== src/Tests/Web.antt =====
-- The theorems on the endpoints and the middleware.
use mathlib.Core.List.{Memᴰ}
use go_oauth_client_credenti.Common.{◌≡◌, refl, ◌↔◌, ◌⊎◌, none, some}
use go_oauth_client_credenti.Common.Text.{contains, fields}
use go_oauth_client_credenti.Oauth2.Error.{foreign}
use go_oauth_client_credenti.Oauth2.Exec.{ok, err}
use go_oauth_client_credenti.Oauth2.Types.{Token}
use go_oauth_client_credenti.Oauth2.Store.Memory.{memory_store}
use go_oauth_client_credenti.Oauth2.Store.Refines.{memory_lawful}
use go_oauth_client_credenti.Oauth2.Http.{Request}
use go_oauth_client_credenti.Oauth2.Handlers.{bound_token_request, token_handler}
use go_oauth_client_credenti.Oauth2.Handlers.Answers.{token_handler-unbound}
use go_oauth_client_credenti.Oauth2.Middleware.{
  Context, next, context_token, token_auth_middleware, require_scope,
}
use go_oauth_client_credenti.Oauth2.Middleware.Guards.{
  with_token, IsChecked, token_auth_middleware-IsChecked, require_scope_iff,
}
use go_oauth_client_credenti.Tests.Fixtures.{platform, service, world, token_request, live_token}

abbrev pub request : Request
request = record {
  method = "POST";
  path = "/oauth/token";
  content_type = "application/json";
  authorization = "Bearer opq_Zm9v";
  basic_auth = none;
  json_register = err (foreign "EOF");
  json_token_request = ok token_request;
  form_token_request = err (foreign "EOF");
  post_form = λ _. "opq_Zm9v";
  query = λ _. "";
  param = λ _. "cert-1";
  json_token = err (foreign "EOF");
}

abbrev malformed : Request
malformed = record request { json_token_request = err (foreign "EOF") }

unbound : bound_token_request malformed ≡ err (foreign "EOF")
unfolding bound_token_request contains
unbound = refl

token_handler-unbound_example :
    ((token_handler platform memory_store service malformed world).0.status ≡ 400)
    × ((token_handler platform memory_store service malformed world).1 ≡ world)
token_handler-unbound_example =
    token_handler-unbound platform memory_store memory_lawful service malformed world
      (foreign "EOF") unbound

abbrev pub context : Context
context = record { request = request; oauth2_token = none }

abbrev with_live : Context
with_live = with_token context live_token

token_auth_middleware-IsChecked_example :
    IsChecked platform memory_store memory_lawful service world
      (token_auth_middleware platform memory_store service context world)
token_auth_middleware-IsChecked_example =
    token_auth_middleware-IsChecked platform memory_store memory_lawful service context world

require_scope_iff_example : (require_scope platform "write" with_live ≡ next with_live) ↔ (
    (t : Token) × (context_token with_live ≡ some t)
    × ((t.scope ≡ "") ⊎ Memᴰ "write" (fields t.scope))
    × (with_live ≡ with_live))
require_scope_iff_example = require_scope_iff platform "write" with_live with_live
