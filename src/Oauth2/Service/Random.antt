-- ===== src/Oauth2/Service/Random.antt =====
-- Random identifiers and the hash of a token, from pkg/oauth2/service.go.
pub mod Reads
use go_oauth_client_credenti.Common.{ℕ, zero, suc, String, Option, none, some, List, [], ◌∷◌}
use go_oauth_client_credenti.Oauth2.Error.{Error, foreign}
use go_oauth_client_credenti.Oauth2.Exec.{Result, ok, err, Exec}
use go_oauth_client_credenti.Oauth2.Encoding.{hex_encode, base64_encode}
use go_oauth_client_credenti.Oauth2.Types.Platform.{Platform}
use go_oauth_client_credenti.Oauth2.Store.{Store}
use go_oauth_client_credenti.Oauth2.Service.{World}

-- `io.ReadFull`: the bytes read, if there were enough, and what the reader has left.
unfoldable pub read_bytes : ℕ → List ℕ → Option (List ℕ) × List ℕ
read_bytes zero r = (some [], r)
read_bytes (suc n) [] = (none, [])
read_bytes (suc n) (b ∷ r) =
    let (bs, left) = read_bytes n r in
    elim bs [ none ↦ (none, left) | some bytes ↦ (some (b ∷ bytes), left) ]

-- `io.EOF` if nothing was read, and `io.ErrUnexpectedEOF` if too little was.
abbrev pub read_error : List ℕ → Error
read_error [] = foreign "EOF"
read_error (_ ∷ _) = foreign "unexpected EOF"

module _ (S : Store) where
  unfoldable pub read_full : ℕ → Exec (World S) (List ℕ)
  read_full n w =
      let (bs, left) = read_bytes n w.rand_reader in
      elim bs [
        | none ↦ (err (read_error w.rand_reader), record w { rand_reader = left })
        | some bytes ↦ (ok bytes, record w { rand_reader = left })
      ]

  abbrev encode_with : (List ℕ → String) → Exec (World S) (List ℕ) → Exec (World S) String
  encode_with enc m w = elim (m w).0 [
    | err e ↦ (err e, (m w).1)
    | ok bytes ↦ (ok (enc bytes), (m w).1)
  ]

  unfoldable pub generate_random_hex : ℕ → Exec (World S) String
  generate_random_hex n = encode_with hex_encode (read_full n)

  unfoldable pub generate_random_base64 : ℕ → Exec (World S) String
  generate_random_base64 n = encode_with base64_encode (read_full n)

unfoldable pub compute_token_hash : Platform → String → String
compute_token_hash p raw_token = hex_encode (p.sum256 raw_token)
