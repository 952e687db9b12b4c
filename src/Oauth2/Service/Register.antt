-- ===== src/Oauth2/Service/Register.antt =====
-- `RegisterClient` of pkg/oauth2/service.go
pub mod Sound
use go_oauth_client_credenti.Common.{
  ℕ, suc, String, Option, none, some, List, [], ◌∷◌, ◌==◌, if◌then◌else◌,
}
use go_oauth_client_credenti.Common.Text.{◌<>◌, trim_space}
use go_oauth_client_credenti.Oauth2.Error.{
  Error, sentinel, wrapped, invalid_request, invalid_target, message,
}
use go_oauth_client_credenti.Oauth2.Exec.{Result, ok, err, Exec, pure, raise, try, ◌>>=◌, ◌>>◌}
use go_oauth_client_credenti.Oauth2.Types.{
  Time, Client, RegisterClientRequest, RegisterClientResponse,
}
use go_oauth_client_credenti.Oauth2.Types.Platform.{Platform}
use go_oauth_client_credenti.Oauth2.Types.Uri.{validate_absolute_uri}
use go_oauth_client_credenti.Oauth2.Store.{Store}
use go_oauth_client_credenti.Oauth2.Service.{Service, World, read_clock, change}
use go_oauth_client_credenti.Oauth2.Service.Random.{generate_random_hex, generate_random_base64}

-- `fmt.Errorf("<what>: %w", err)` around the error of a step.
abbrev pub context : {A W : Type 0} → String → Exec W A → Exec W A
context what m w = elim (m w).0 [
  | err e ↦ (err (wrapped (what <> ": ") e ""), (m w).1)
  | ok a ↦ (ok a, (m w).1)
]

-- The loop over the allowed resources: the first one that is not an absolute URI.
unfoldable pub check_resources : Platform → List String → Result (Unit {0})
check_resources p [] = ok tt
check_resources p (res ∷ rest) =
    let later = check_resources p rest in
    elim (validate_absolute_uri p res) [
      | err e ↦ err (
          wrapped "" (sentinel invalid_target)
            (": invalid allowed_resource " <> p.quote res <> ": " <> message e))
      | ok _ ↦ later
    ]

module _ (p : Platform) (S : Store) (svc : Service) where
  -- `bcrypt.GenerateFromPassword` with the service's cost
  unfoldable pub hash_secret : String → Exec (World S) String
  hash_secret raw_secret w =
      (p.bcrypt_generate w.salts raw_secret svc.bcrypt_cost, record w { salts = suc w.salts })

  abbrev pub make_client : RegisterClientRequest → String → String → Time → Client
  make_client req client_id hashed_secret now = record {
    id = client_id;
    secret_hash = hashed_secret;
    name = req.name;
    allowed_resources = req.allowed_resources;
    allowed_scopes = req.allowed_scopes;
    created_at = now;
  }

  abbrev pub make_registration : Client → String → RegisterClientResponse
  make_registration client raw_secret = record {
    client_id = client.id;
    client_secret = raw_secret;
    name = client.name;
    allowed_resources = client.allowed_resources;
    allowed_scopes = client.allowed_scopes;
    created_at = client.created_at;
  }

  -- From the hashing of the secret to the end.
  unfoldable pub store_client :
      RegisterClientRequest → String → String → Exec (World S) RegisterClientResponse
  store_client req client_id raw_secret = do
    hashed_secret ← context "failed to hash secret" (hash_secret raw_secret)
    now ← read_clock S svc
    let client = make_client req client_id hashed_secret now
    context "failed to store client" (change S (S.create_client (some client)))
    pure (make_registration client raw_secret)

  -- From the drawing of the id to the end.
  unfoldable pub create_credentials : RegisterClientRequest → Exec (World S) RegisterClientResponse
  create_credentials req = do
    client_id ← context "failed to generate client_id" (generate_random_hex S 16)
    raw_secret ← context "failed to generate client_secret" (generate_random_base64 S 32)
    store_client req client_id raw_secret

  unfoldable pub register_client :
      Option RegisterClientRequest → Exec (World S) RegisterClientResponse
  register_client none = raise (wrapped "" (sentinel invalid_request) ": name is required")
  register_client (some req) =
      if trim_space req.name == ""
      then raise (wrapped "" (sentinel invalid_request) ": name is required")
      else elim (check_resources p req.allowed_resources) [
        | err e ↦ raise e
        | ok _ ↦ create_credentials req
      ]
