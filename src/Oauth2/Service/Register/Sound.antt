-- ===== src/Oauth2/Service/Register/Sound.antt =====
-- What registration has tested and written.
use go_oauth_client_credenti.Common.{
  ◌≡◌, refl, ◌≢◌, ℕ, String, none, some, Option, List, [], ◌∷◌, arith, eq_iff, Option-cases, inl,
  inr, All,
}
use go_oauth_client_credenti.Common.Text.{trim_space}
use go_oauth_client_credenti.Oauth2.Error.{Error}
use go_oauth_client_credenti.Oauth2.Exec.{ok, err, Result-cases}
use go_oauth_client_credenti.Oauth2.Encoding.{hex_encode, base64_encode}
use go_oauth_client_credenti.Oauth2.Types.{Time, RegisterClientRequest, RegisterClientResponse}
use go_oauth_client_credenti.Oauth2.Types.Platform.{Platform}
use go_oauth_client_credenti.Oauth2.Types.Uri.{validate_absolute_uri}
use go_oauth_client_credenti.Oauth2.Store.{Store}
use go_oauth_client_credenti.Oauth2.Store.Contract.{update, IsLawful}
use go_oauth_client_credenti.Oauth2.Service.{Service, World}
use go_oauth_client_credenti.Oauth2.Service.Random.{
  read_bytes, read_full, generate_random_hex, generate_random_base64,
}
use go_oauth_client_credenti.Oauth2.Service.Register.{
  check_resources, hash_secret, make_client, make_registration, store_client, create_credentials,
  register_client,
}

check_resources_sound :
    (p : Platform) (resources : List String)
    → check_resources p resources ≡ ok tt
    → All (λ res. validate_absolute_uri p res ≡ ok tt) resources
unfolding check_resources
check_resources_sound p [] h = tt
check_resources_sound p (res ∷ rest) h = elim (Result-cases (validate_absolute_uri p res)) [
  | inl (tt, fine) ↦ (fine, check_resources_sound p rest (ground arith))
  | inr (e, bad) ↦ absurd (ground arith)
]

module _ (p : Platform) (S : Store) (L : IsLawful S) (svc : Service) where
  -- A client was added under an id that was free and not empty, and nothing else has changed.
  pub record IsAdded (req : RegisterClientRequest) (w w' : World S) (resp : RegisterClientResponse)
      : Type 0 where
    pub salt : ℕ
    pub hash : String
    pub hashed : p.bcrypt_generate salt resp.client_secret svc.bcrypt_cost ≡ ok hash
    pub now : Time
    pub named : resp.client_id ≢ ""
    pub fresh : (L.maps w.store).client_at resp.client_id ≡ none
    pub clients :
        (L.maps w'.store).client_at
        ≡ update
            (L.maps w.store).client_at
            resp.client_id
            (make_client p S svc req resp.client_id hash now)
    pub tokens : (L.maps w'.store).token_at ≡ (L.maps w.store).token_at

  store_client-IsAdded :
      (req : RegisterClientRequest) (client_id raw_secret : String) (w w' : World S)
      (resp : RegisterClientResponse)
      → store_client p S svc req client_id raw_secret w ≡ (ok resp, w')
      → IsAdded req w w' resp
  unfolding store_client hash_secret
  store_client-IsAdded req client_id raw_secret w w' resp h =
      elim (Result-cases (p.bcrypt_generate w.salts raw_secret svc.bcrypt_cost)) [
        | inr (e, failed) ↦ absurd (ground arith)
        | inl (hash, hashed) ↦
            let now = svc.now_func w.ticks in
            let c = make_client p S svc req client_id hash now in
            let law = L.create_client-maps c w.store in
            elim (Result-cases (S.create_client (some c) w.store).0) [
              | inr (e, failed) ↦ absurd (ground arith)
              | inl (tt, created) ↦
                  let e : resp ≡ make_registration p S svc c raw_secret = ground arith in
                  record {
                    salt = w.salts;
                    hash = hash;
                    hashed = rw e hashed;
                    now = now;
                    named = rw e (ground (arith, law, eq_iff client_id ""));
                    fresh = rw e (ground (arith, law));
                    clients = rw e (ground (arith, law));
                    tokens = ground (arith, law);
                  }
            ]
      ]

  create_credentials-IsAdded :
      (req : RegisterClientRequest) (w w' : World S) (resp : RegisterClientResponse)
      → create_credentials p S svc req w ≡ (ok resp, w')
      → IsAdded req w w' resp
  unfolding create_credentials generate_random_hex generate_random_base64 read_full
  create_credentials-IsAdded req w w' resp h = elim (Option-cases (read_bytes 16 w.rand_reader).0) [
    | inl short ↦ absurd (ground arith)
    | inr (id_bytes, drawn) ↦
        let r = (read_bytes 16 w.rand_reader).1 in
        elim (Option-cases (read_bytes 32 r).0) [
          | inl short ↦ absurd (ground arith)
          | inr (secret_bytes, drawn') ↦
              let a =
                store_client-IsAdded req (hex_encode id_bytes) (base64_encode secret_bytes)
                  (record w { rand_reader = (read_bytes 32 r).1 }) w' resp (ground arith) in
              record {
                salt = a.salt;
                hash = a.hash;
                hashed = a.hashed;
                now = a.now;
                named = a.named;
                fresh = a.fresh;
                clients = a.clients;
                tokens = a.tokens;
              }
        ]
  ]

  -- A registration that succeeds had a name that is not blank and absolute URIs only. It adds one
  -- client, under a new id, with the bcrypt hash of the secret that it returns; it changes no other
  -- client and no token.
  pub register_client_sound :
      (req : RegisterClientRequest) (w w' : World S) (resp : RegisterClientResponse)
      → register_client p S svc (some req) w ≡ (ok resp, w')
      → (trim_space req.name ≢ "")
        × All (λ res. validate_absolute_uri p res ≡ ok tt) req.allowed_resources
        × IsAdded req w w' resp
  unfolding register_client
  register_client_sound req w w' resp h = (
    ground (arith, eq_iff (trim_space req.name) ""),
    check_resources_sound p req.allowed_resources (ground arith),
    create_credentials-IsAdded req w w' resp (ground arith),
  )

  store_client-failed :
      (req : RegisterClientRequest) (client_id raw_secret : String) (w : World S) (e : Error)
      → (store_client p S svc req client_id raw_secret w).0 ≡ err e
      → L.maps (store_client p S svc req client_id raw_secret w).1.store ≡ L.maps w.store
  unfolding store_client hash_secret
  store_client-failed req client_id raw_secret w e h =
      elim (Result-cases (p.bcrypt_generate w.salts raw_secret svc.bcrypt_cost)) [
        | inr (e', failed) ↦ ground arith
        | inl (hash, hashed) ↦
            let c = make_client p S svc req client_id hash (svc.now_func w.ticks) in
            ground (arith, L.create_client-maps c w.store)
      ]

  create_credentials-failed :
      (req : RegisterClientRequest) (w : World S) (e : Error)
      → (create_credentials p S svc req w).0 ≡ err e
      → L.maps (create_credentials p S svc req w).1.store ≡ L.maps w.store
  unfolding create_credentials generate_random_hex generate_random_base64 read_full
  create_credentials-failed req w e h = elim (Option-cases (read_bytes 16 w.rand_reader).0) [
    | inl short ↦ ground arith
    | inr (id_bytes, drawn) ↦
        let r = (read_bytes 16 w.rand_reader).1 in
        elim (Option-cases (read_bytes 32 r).0) [
          | inl short ↦ ground arith
          | inr (secret_bytes, drawn') ↦ ground (
            arith,
            store_client-failed req (hex_encode id_bytes) (base64_encode secret_bytes)
                (record w { rand_reader = (read_bytes 32 r).1 }) e,
          )
        ]
  ]

  -- A registration that fails, on whatever branch, changes no client and no token.
  pub register_client-failed :
      (req : Option RegisterClientRequest) (w : World S) (e : Error)
      → (register_client p S svc req w).0 ≡ err e
      → L.maps (register_client p S svc req w).1.store ≡ L.maps w.store
  unfolding register_client
  register_client-failed none w e h = refl
  register_client-failed (some req) w e h = ground (arith, create_credentials-failed req w e)
