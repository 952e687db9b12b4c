-- ===== src/Oauth2/Service/Abstract/Register.antt =====
-- `RegisterClient`, over a store and over its maps.
use go_oauth_client_credenti.Common.{refl, String, Option, none, some, ◌==◌}
use go_oauth_client_credenti.Common.Text.{trim_space}
use go_oauth_client_credenti.Oauth2.Error.{sentinel, wrapped, invalid_request}
use go_oauth_client_credenti.Oauth2.Types.{RegisterClientRequest}
use go_oauth_client_credenti.Oauth2.Types.Platform.{Platform}
use go_oauth_client_credenti.Oauth2.Store.{Store}
use go_oauth_client_credenti.Oauth2.Store.Contract.{IsLawful, add_client}
use go_oauth_client_credenti.Oauth2.Store.Abstract.{maps_store}
use go_oauth_client_credenti.Oauth2.Service.{Service}
use go_oauth_client_credenti.Oauth2.Service.Register.{
  check_resources, hash_secret, make_client, make_registration, store_client, create_credentials,
  register_client,
}
use go_oauth_client_credenti.Oauth2.Service.Abstract.{
  Agrees, bind-Agrees, pure-Agrees, raise-Agrees, read_clock-Agrees, if-Agrees, result-Agrees,
}
use go_oauth_client_credenti.Oauth2.Service.Abstract.Steps.{
  change-Agrees, context-Agrees, generate_random_base64-Agrees, generate_random_hex-Agrees,
}

module _ (S : Store) (L : IsLawful S) (p : Platform) (svc : Service) where
  store_client-Agrees :
      (req : RegisterClientRequest) (client_id raw_secret : String)
      → Agrees S L
          (store_client p S svc req client_id raw_secret)
          (store_client p maps_store svc req client_id raw_secret)
  unfolding store_client hash_secret
  store_client-Agrees req client_id raw_secret =
      bind-Agrees S L (context-Agrees S L "failed to hash secret" (record { same = λ w. refl }))
        (λ hashed_secret. bind-Agrees S L (read_clock-Agrees S L svc) (λ now.
          let client = make_client p S svc req client_id hashed_secret now in
          bind-Agrees S L
            (context-Agrees S L "failed to store client" (
              change-Agrees S L (S.create_client (some client)) (add_client client)
                (L.create_client-maps client)))
            (λ _. pure-Agrees S L (make_registration p S svc client raw_secret))))

  create_credentials-Agrees :
      (req : RegisterClientRequest)
      → Agrees S L (create_credentials p S svc req) (create_credentials p maps_store svc req)
  unfolding create_credentials
  create_credentials-Agrees req =
      bind-Agrees S L
        (context-Agrees S L "failed to generate client_id" (generate_random_hex-Agrees S L 16))
        (λ client_id.
          bind-Agrees S L
            (context-Agrees S L "failed to generate client_secret"
              (generate_random_base64-Agrees S L 32))
            (λ raw_secret. store_client-Agrees req client_id raw_secret))

  pub register_client-Agrees :
      (req : Option RegisterClientRequest)
      → Agrees S L (register_client p S svc req) (register_client p maps_store svc req)
  unfolding register_client
  register_client-Agrees none =
      raise-Agrees S L (wrapped "" (sentinel invalid_request) ": name is required")
  register_client-Agrees (some req) =
      if-Agrees S L (trim_space req.name == "")
        (raise-Agrees S L (wrapped "" (sentinel invalid_request) ": name is required"))
        (result-Agrees S L (check_resources p req.allowed_resources) (λ e. raise-Agrees S L e)
          (λ _. create_credentials-Agrees req))
