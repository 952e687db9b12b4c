-- ===== src/Server/Connected/Registered.antt =====
-- What a client of a connected server gets when it registers a client.
use go_oauth_client_credenti.Common.{◌≡◌, refl, ℕ, String, none, some, Option, [], ◌∷◌, arith}
use go_oauth_client_credenti.Common.Text.{◌<>◌, trim_right_slash}
use go_oauth_client_credenti.Oauth2.Error.{Error, foreign}
use go_oauth_client_credenti.Oauth2.Exec.{ok, err}
use go_oauth_client_credenti.Oauth2.Types.{Time, RegisterClientRequest, RegisterClientResponse}
use go_oauth_client_credenti.Oauth2.Types.Platform.{Platform}
use go_oauth_client_credenti.Oauth2.Store.{Store}
use go_oauth_client_credenti.Oauth2.Service.{Service, World}
use go_oauth_client_credenti.Oauth2.Service.Register.{register_client}
use go_oauth_client_credenti.Oauth2.Handlers.{registration_answer, register_client_handler}
use go_oauth_client_credenti.Client.{Client}
use go_oauth_client_credenti.Client
use go_oauth_client_credenti.Client.Network.{HttpRequest, RequestUrl, json}
use go_oauth_client_credenti.Client.Requests
use go_oauth_client_credenti.Server.System.{clients, register_routes}
use go_oauth_client_credenti.Server.Connected.{
  Wire, IsFaithful, IsWritable, endpoint_of, deliver, send, connected,
}
use go_oauth_client_credenti.Server.Connected.Tokens.{to_clients, IsAimed, send-deliver}

clients-route : endpoint_of "POST" "/oauth/clients" (register_routes "/oauth") ≡ some clients
unfolding endpoint_of register_routes
clients-route = refl

module _ (W : Wire) (faithful : IsFaithful W) (p : Platform) (S : Store) (svc : Service)
    (wall : ℕ → Time) (c : Client) (aimed : IsAimed W c) where
  -- The request that `RegisterClient` sends.
  abbrev registering : String → Option RequestUrl → HttpRequest
  registering body url = record {
    method = "POST";
    endpoint = trim_right_slash c.config.server_url <> "/oauth/clients";
    url = url;
    headers = ("Content-Type", "application/json") ∷ [];
    basic_auth = none;
    payload = json body;
  }

  send-registering :
      (reg : RegisterClientRequest) (body : String) (url : Option RequestUrl) (w : World S)
      → W.marshal reg ≡ ok body
      → let out = register_client p S svc (some reg) w in
        send W p S svc wall (registering body url) w
        ≡ (ok (W.registration (registration_answer p S svc out.0)), out.1)
  unfolding deliver register_client_handler
  send-registering reg body url w written = ground (
    arith,
    send-deliver W p S svc wall "/oauth/clients" clients (registering body url) w clients-route refl
        (aimed.path "/oauth/clients" to_clients),
    faithful.json_register (registering body url) reg body written refl,
  )

  -- For a client that is aimed at the server, to register a client over a faithful wire is to
  -- register it at its other end: the response of the service is what the caller gets, if the time
  -- in it can be written, what the service refuses is an error with the status and the body of the
  -- answer, and the server is left as the service leaves it.
  pub register_client-register_client :
      (reg : RegisterClientRequest) (w : Client.World (World S))
      → let out = register_client p S svc (some reg) w.net in
        let got = Requests.register_client (connected W p S svc wall) c (some reg) w in
        (got.1 ≡ record w { net = out.1 })
        × ((resp : RegisterClientResponse)
            → out.0 ≡ ok resp
            → IsWritable resp.created_at
            → got.0 ≡ ok resp)
        × ((e : Error)
            → out.0 ≡ err e
            → let answer = W.registration (registration_answer p S svc (err e)) in
              got.0
              ≡ err (
                  foreign (
                    "register client"
                    <> " failed with status "
                    <> W.decimal answer.status_code
                    <> ": "
                    <> answer.body)))
  unfolding Requests.register_client
  register_client-register_client reg w =
      let (url, made) = aimed.url "/oauth/clients" to_clients in
      let (body, written) = faithful.marshal reg in
      let sent = send-registering reg body url w.net written in
      let out = (register_client p S svc (some reg) w.net).0 in
      let status = faithful.registration_status (registration_answer p S svc out) in
      (
        ground (arith, made, written, sent),
        λ resp registered writable. ground (
          arith,
          made,
          written,
          sent,
          status,
          registered,
          faithful.registration_body (registration_answer p S svc out) resp (rw registered refl)
              writable,
        ),
        λ e failed. ground (arith, made, written, sent, status, failed),
      )
