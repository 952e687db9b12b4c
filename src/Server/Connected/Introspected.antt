-- ===== src/Server/Connected/Introspected.antt =====
-- What a client of a connected server is told of a token.
use go_oauth_client_credenti.Common.{
  ◌≡◌, refl, ◌≢◌, ◌≤◌, ◌<◌, ◌+◌, ◌*◌, true, false, ℕ, String, some, Option, [], ◌∷◌, arith, eq_iff,
}
use go_oauth_client_credenti.Common.Int.{ℤ, pos, negsuc, floor_div}
use go_oauth_client_credenti.Oauth2.Exec.{ok}
use go_oauth_client_credenti.Oauth2.Types.{Time, unix, IntrospectResponse, Token}
use go_oauth_client_credenti.Oauth2.Types.Platform.{Platform}
use go_oauth_client_credenti.Oauth2.Store.{Store}
use go_oauth_client_credenti.Oauth2.Store.Contract.{IsLawful}
use go_oauth_client_credenti.Oauth2.Service.{Service, World}
use go_oauth_client_credenti.Oauth2.Service.Validate.{introspect_token, inactive, active_response}
use go_oauth_client_credenti.Oauth2.Service.Validate.Live.{IsLive, introspect_token-IsLive}
use go_oauth_client_credenti.Oauth2.Handlers.{introspect_answer, introspect_handler}
use go_oauth_client_credenti.Client.{Client}
use go_oauth_client_credenti.Client
use go_oauth_client_credenti.Client.Network.{HttpRequest, RequestUrl}
use go_oauth_client_credenti.Client.Requests.{post_form, introspect}
use go_oauth_client_credenti.Server.System.{introspection, register_routes}
use go_oauth_client_credenti.Server.Connected.{
  Wire, IsFaithful, endpoint_of, deliver, send, connected,
}
use go_oauth_client_credenti.Server.Connected.Posted.{extract_token_param-posted}
use go_oauth_client_credenti.Server.Connected.Tokens.{to_introspect, IsAimed, send-deliver, posted}

introspection-route :
    endpoint_of "POST" "/oauth/introspect" (register_routes "/oauth") ≡ some introspection
unfolding endpoint_of register_routes
introspection-route = refl

-- The second of the Unix epoch in which a time is.
abbrev pub IsSecondOf : ℤ → Time → Type 0
IsSecondOf (pos k) (pos n) = (1000000000 * k ≤ n) × (n < 1000000000 * k + 1000000000)
IsSecondOf (negsuc k) (negsuc n) = (1000000000 * k ≤ n) × (n < 1000000000 * k + 1000000000)
IsSecondOf _ _ = ⊥

-- The answer is about the token.
pub record IsDescribed (t : Token) (resp : IntrospectResponse) : Type 0 where
  pub active : resp.active ≡ true
  pub client_id : resp.client_id ≡ t.client_id
  pub resource : resp.resource ≡ t.resource
  pub scope : resp.scope ≡ t.scope
  pub exp : IsSecondOf resp.exp t.expires_at
  pub token_type : resp.token_type ≡ "Bearer"

-- The answer tells only that the token is inactive: every other field has its zero value.
pub record IsHidden (resp : IntrospectResponse) : Type 0 where
  pub active : resp.active ≡ false
  pub client_id : resp.client_id ≡ ""
  pub resource : resp.resource ≡ ""
  pub scope : resp.scope ≡ ""
  pub exp : resp.exp ≡ pos 0
  pub token_type : resp.token_type ≡ ""

unix-IsSecondOf : (t : Time) → IsSecondOf (unix t) t
unfolding floor_div
unix-IsSecondOf (pos n) = (omega arith, omega arith)
unix-IsSecondOf (negsuc n) = (omega arith, omega arith)

active_response-IsDescribed : (t : Token) → IsDescribed t (active_response t)
active_response-IsDescribed t = record {
  active = refl;
  client_id = refl;
  resource = refl;
  scope = refl;
  exp = unix-IsSecondOf t.expires_at;
  token_type = refl;
}

inactive-IsHidden : IsHidden inactive
inactive-IsHidden = record {
  active = refl;
  client_id = refl;
  resource = refl;
  scope = refl;
  exp = refl;
  token_type = refl;
}

module _ (W : Wire) (faithful : IsFaithful W) (p : Platform) (S : Store) (L : IsLawful S)
    (svc : Service) (wall : ℕ → Time) (c : Client) (aimed : IsAimed W c) where
  -- The request that `Introspect` sends.
  abbrev introspecting : String → Option RequestUrl → HttpRequest
  introspecting token url =
      posted W faithful p S svc wall c aimed "/oauth/introspect" (("token", token) ∷ []) url

  send-introspecting :
      (token : String) (url : Option RequestUrl) (w : World S)
      → token ≢ ""
      → let out = introspect_token p S svc token w in
        send W p S svc wall (introspecting token url) w
        ≡ (ok (W.introspection (introspect_answer p S svc out.0)), out.1)
  unfolding deliver introspect_handler
  send-introspecting token url w given = ground (
    arith,
    send-deliver W p S svc wall "/oauth/introspect" introspection (introspecting token url) w
        introspection-route refl (aimed.path "/oauth/introspect" to_introspect),
    extract_token_param-posted W faithful p S svc wall c aimed "/oauth/introspect" token url given,
    eq_iff token "",
  )

  introspect-introspect_token :
      (token : String) (w : Client.World (World S)) (resp : IntrospectResponse)
      → token ≢ ""
      → (introspect_token p S svc token w.net).0 ≡ ok resp
      → (introspect (connected W p S svc wall) c token w).0 ≡ ok resp
  unfolding introspect post_form
  introspect-introspect_token token w resp given described =
      let (url, made) = aimed.url "/oauth/introspect" to_introspect in
      let sent = send-introspecting token url w.net given in
      let answer = introspect_answer p S svc (introspect_token p S svc token w.net).0 in
      ground (
        arith,
        made,
        sent,
        faithful.introspection_status answer,
        described,
        faithful.introspection_body answer resp (rw described refl),
      )

  -- A client that is aimed at the server and asks it over a faithful wire for a token that is not
  -- empty always gets an answer. If the token is live at the server, the answer is active, with the
  -- client, the resource and the scope of the token, the second in which it expires, and the type
  -- Bearer; if it is not, the answer is inactive and tells nothing else.
  pub introspect-IsLive :
      (token : String) (w : Client.World (World S))
      → token ≢ ""
      → let live = IsLive p (L.maps w.net.store) token (svc.now_func w.net.ticks) in
        let got = (introspect (connected W p S svc wall) c token w).0 in
        ((t : Token) → live t → (resp : IntrospectResponse) × (got ≡ ok resp) × IsDescribed t resp)
        × (((t : Token) → ¬ live t) → (resp : IntrospectResponse) × (got ≡ ok resp) × IsHidden resp)
  introspect-IsLive token w given =
      let (described, hidden) = introspect_token-IsLive p S L svc token w.net in
      (
        λ t live. (
          active_response t,
          introspect-introspect_token token w (active_response t) given (described t live),
          active_response-IsDescribed t,
        ),
        λ dead. (
          inactive,
          introspect-introspect_token token w inactive given (hidden dead),
          inactive-IsHidden,
        ),
      )
