-- ===== src/Oauth2/Service/Sizes.antt =====
-- The lengths of the credentials that the service makes.
use go_oauth_client_credenti.Common.{
  ◌≡◌, ap, ℕ, zero, suc, String, some, List, [], ◌∷◌, arith, length, Option-cases, inl, inr,
}
use go_oauth_client_credenti.Oauth2.Encoding.{hex_encode, base64_encode}
use go_oauth_client_credenti.Oauth2.Encoding.Lengths.{
  size, size-append, size-hex_encode, size-base64_encode,
}
use go_oauth_client_credenti.Oauth2.Exec.{ok}
use go_oauth_client_credenti.Oauth2.Types.{
  RegisterClientRequest, RegisterClientResponse, TokenRequest, TokenResponse,
}
use go_oauth_client_credenti.Oauth2.Types.Platform.{Platform}
use go_oauth_client_credenti.Oauth2.Store.{Store}
use go_oauth_client_credenti.Oauth2.Store.Contract.{IsLawful}
use go_oauth_client_credenti.Oauth2.Service.{Service, World}
use go_oauth_client_credenti.Oauth2.Service.Random.{
  read_bytes, read_full, generate_random_hex, generate_random_base64,
}
use go_oauth_client_credenti.Oauth2.Service.Register.{
  hash_secret, store_client, create_credentials, register_client,
}
use go_oauth_client_credenti.Oauth2.Service.Issue.{issue_token}
use go_oauth_client_credenti.Oauth2.Service.Issue.Sound.{issue_token_sound}

read_bytes-length : (n : ℕ) (r bs : List ℕ) → (read_bytes n r).0 ≡ some bs → length bs ≡ n
unfolding read_bytes
read_bytes-length zero r bs h = ground (arith, h)
read_bytes-length (suc n) [] bs h = absurd (ground (arith, h))
read_bytes-length (suc n) (b ∷ r) bs h = elim (Option-cases (read_bytes n r).0) [
  | inl short ↦ absurd (ground (arith, h, short))
  | inr (rest, drawn) ↦ ground (arith, h, drawn, read_bytes-length n r rest drawn)
]

module _ (p : Platform) (S : Store) (svc : Service) where
  -- The credentials of a response that ends the registration.
  store_client-credentials :
      (req : RegisterClientRequest) (client_id raw_secret : String) (w : World S)
      (resp : RegisterClientResponse)
      → (store_client p S svc req client_id raw_secret w).0 ≡ ok resp
      → (resp.client_id ≡ client_id) × (resp.client_secret ≡ raw_secret)
  unfolding store_client hash_secret
  store_client-credentials req client_id raw_secret w resp h = ground arith

  -- A client that is registered has an id of 32 characters, the hexadecimal text of 16 bytes, and a
  -- secret of 43, the base64url text of 32 bytes.
  register_client-sizes :
      (req : RegisterClientRequest) (w : World S) (resp : RegisterClientResponse)
      → (register_client p S svc (some req) w).0 ≡ ok resp
      → (size resp.client_id ≡ 32) × (size resp.client_secret ≡ 43)
  unfolding register_client create_credentials generate_random_hex generate_random_base64 read_full
  register_client-sizes req w resp h = elim (Option-cases (read_bytes 16 w.rand_reader).0) [
    | inl short ↦ absurd (ground arith)
    | inr (id_bytes, drawn) ↦
        let r = (read_bytes 16 w.rand_reader).1 in
        elim (Option-cases (read_bytes 32 r).0) [
          | inl short ↦ absurd (ground arith)
          | inr (secret_bytes, drawn') ↦
              let left = record w { rand_reader = (read_bytes 32 r).1 } in
              let (id, secret) =
                store_client-credentials req (hex_encode id_bytes) (base64_encode secret_bytes) left
                  resp (ground arith) in
              let sixteen = read_bytes-length 16 w.rand_reader id_bytes drawn in
              let rest = read_bytes-length 32 r secret_bytes drawn' in
              (
                rw id (omega (arith, size-hex_encode id_bytes)),
                rw secret (omega (arith, size-base64_encode secret_bytes)),
              )
        ]
  ]

  -- A token that is issued has 47 characters: the prefix, and the base64url text of 32 bytes.
  issue_token-size :
      IsLawful S
      → (req : TokenRequest) (w : World S) (resp : TokenResponse)
      → (issue_token p S svc (some req) w).0 ≡ ok resp
      → size resp.access_token ≡ 47
  unfolding size
  issue_token-size L req w resp h =
      let w' = (issue_token p S svc (some req) w).1 in
      let (client, may, (bytes, drawn, stored, e)) =
        issue_token_sound p S L svc req w w' resp (ap (λ r. (r, w')) h) in
      let enough : length bytes ≡ 32 = read_bytes-length 32 w.rand_reader bytes drawn in
      rw e (rw size-append (omega (arith, size-base64_encode bytes)))

  -- Over a lawful store, a client that is registered has an id of 32 characters and a secret of 43,
  -- and a token that is issued has 47 characters.
  pub credentials-sizes :
      IsLawful S
      → (w : World S)
      → ((req : RegisterClientRequest) (resp : RegisterClientResponse)
          → (register_client p S svc (some req) w).0 ≡ ok resp
          → (size resp.client_id ≡ 32) × (size resp.client_secret ≡ 43))
        × ((req : TokenRequest) (resp : TokenResponse)
            → (issue_token p S svc (some req) w).0 ≡ ok resp
            → size resp.access_token ≡ 47)
  credentials-sizes L w =
      (λ req resp. register_client-sizes req w resp, λ req resp. issue_token-size L req w resp)
