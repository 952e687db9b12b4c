-- ===== src/Server.antt =====
-- sample-server/main.go: the routes of the certificate API behind the two middleware. What gin does
-- with the routes is written out: a path is served by its handler after the middleware of its group,
-- in the order of the calls of `Use`, until one aborts.
pub mod Guarded
pub mod System
pub mod Served
pub mod Connected
use go_oauth_client_credenti.Certificate.Store.{memory_certificates, MemoryStore}
use go_oauth_client_credenti.Common.{ℕ, String, List, [], ◌∷◌}
use go_oauth_client_credenti.Common.Int.{pos}
use go_oauth_client_credenti.Common.Text.{◌<>◌, trim_right_slash}
use go_oauth_client_credenti.Oauth2.Exec.{Result}
use go_oauth_client_credenti.Oauth2.Types.{Time}
use go_oauth_client_credenti.Oauth2.Types.Platform.{Platform}
use go_oauth_client_credenti.Oauth2.Store.{Store}
use go_oauth_client_credenti.Oauth2.Telemetry.{Telemetry}
use go_oauth_client_credenti.Oauth2.Service.{Service, World, with_token_ttl, new_service}
use go_oauth_client_credenti.Oauth2.Http.{Response}
use go_oauth_client_credenti.Oauth2.Middleware.{
  Context, Flow, abort, next, token_auth_middleware, require_resource,
}
use go_oauth_client_credenti.Certificate.Model.{StartChallengeRequest, CompleteChallengeRequest}
use go_oauth_client_credenti.Certificate.Handler.{
  ApiRequest, Content, start_challenge, complete_challenge, get_certificate_handler,
}

-- `oauthSvc`
unfoldable pub oauth_service : Telemetry → List ℕ → (ℕ → Time) → Service
oauth_service telemetry reader time_now =
    new_service telemetry reader time_now (with_token_ttl (pos 3600000000000) ∷ [])

-- `resourceExtractor`
unfoldable pub resource_extractor : String → Context → String
resource_extractor resource_base_url c =
    trim_right_slash resource_base_url <> "/v1/certificates/" <> c.request.param "id"

-- The three routes under /v1.
pub data Api : Type 0 where
  start complete get : Api

-- A request to one of them, with what binding its body to the request types gives.
pub record ApiCall : Type 0 where
  pub context : Context
  pub json_start : Result StartChallengeRequest
  pub json_complete : Result CompleteChallengeRequest

-- What the handler sees of it.
abbrev pub api_request : ApiCall → ApiRequest
api_request call = record {
  param = call.context.request.param;
  json_start = call.json_start;
  json_complete = call.json_complete;
}

unfoldable pub handle : Api → Time → ApiRequest → MemoryStore → Response Content × MemoryStore
handle start now c s = start_challenge memory_certificates now c s
handle complete now c s = complete_challenge memory_certificates now c s
handle get now c s = (get_certificate_handler memory_certificates c s, s)

-- A response of a middleware that aborts, or of the handler.
pub data Answer : Type 0 where
  refused : Response (Unit {0}) → Answer
  handled : Response Content → Answer

module _ (p : Platform) (S : Store) (svc : Service) (resource_base_url : String) where
  -- The two middleware of the group.
  unfoldable pub guard : Context → World S → Flow × World S
  guard c w =
      let (flow, w') = token_auth_middleware p S svc c w in
      elim flow [
        | abort r ↦ (abort r, w')
        | next c' ↦ (require_resource p (resource_extractor resource_base_url) c', w')
      ]

  unfoldable pub protected :
      Api → Time → ApiCall → World S → MemoryStore → Answer × World S × MemoryStore
  unfolding guard
  protected api now call w s =
      let (flow, w') = guard call.context w in
      elim flow [
        | abort r ↦ (refused r, w', s)
        | next c' ↦
            let (r, s') = handle api now (api_request (record call { context = c' })) s in
            (handled r, w', s')
      ]
