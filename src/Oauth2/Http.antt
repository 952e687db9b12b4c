-- ===== src/Oauth2/Http.antt =====
-- What gin makes of a request, and what a handler answers. Parsing and printing are gin's and
-- `encoding/json`'s; a request is what they give the handlers.
use go_oauth_client_credenti.Common.{ℕ, String, Option, List}
use go_oauth_client_credenti.Oauth2.Exec.{Result}
use go_oauth_client_credenti.Oauth2.Types.{RegisterClientRequest, TokenRequest}

pub record Request : Type 0 where
  pub method : String
  pub path : String
  -- `c.ContentType()`
  pub content_type : String
  -- `c.GetHeader("Authorization")`
  pub authorization : String
  -- `c.Request.BasicAuth()`, `none` where it is not ok
  pub basic_auth : Option (String × String)
  -- `c.ShouldBindJSON` into the request types, and `c.ShouldBind` from a form
  pub json_register : Result RegisterClientRequest
  pub json_token_request : Result TokenRequest
  pub form_token_request : Result TokenRequest
  -- `c.PostForm`, `c.Query` and `c.Param`, "" where the key is missing
  pub post_form : String → String
  pub query : String → String
  pub param : String → String
  -- `c.ShouldBindJSON` into a struct with the one field `token`
  pub json_token : Result String

pub data Body (A : Type 0) : Type 0 where
  nothing : Body A
  -- `gin.H{"error": …, "error_description": …}`
  failure : (error description : String) → Body A
  value : A → Body A

pub record Response (A : Type 0) : Type 0 where
  pub status : ℕ
  pub headers : List (String × String)
  pub body : Body A
