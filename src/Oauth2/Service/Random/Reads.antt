-- ===== src/Oauth2/Service/Random/Reads.antt =====
-- When a read succeeds, and that a hash is not empty.
use go_oauth_client_credenti.Common.{
  ◌≡◌, refl, ◌≢◌, ℕ, zero, suc, ◌<◌, String, some, List, [], ◌∷◌, arith, length, ◌++◌, none,
}
use text.Mathlib.TextLemmas.{cons-ne-nil}
use go_oauth_client_credenti.Oauth2.Encoding.{hex_encode}
use go_oauth_client_credenti.Oauth2.Types.Platform.{Platform}
use go_oauth_client_credenti.Oauth2.Service.Random.{read_bytes, compute_token_hash}

-- A read succeeds exactly when the reader holds enough, and takes its first bytes.
pub read_bytes-append :
    (taken left : List ℕ) → read_bytes (length taken) (taken ++ left) ≡ (some taken, left)
unfolding read_bytes
read_bytes-append [] left = refl
read_bytes-append (b ∷ taken) left = ground (arith, read_bytes-append taken left)

pub read_bytes-short : (n : ℕ) (r : List ℕ) → length r < n → read_bytes n r ≡ (none, [])
unfolding read_bytes
read_bytes-short zero r h = elim h [ ]
read_bytes-short (suc n) [] h = refl
read_bytes-short (suc n) (b ∷ r) h = ground (arith, read_bytes-short n r)

-- `sha256.Sum256` returns an array of 32 bytes.
abbrev pub Sums : Platform → Type 0
Sums p = (text : String) → length (p.sum256 text) ≡ 32

hex_encode-ne-nil : (bs : List ℕ) → 0 < length bs → hex_encode bs ≢ ""
unfolding hex_encode
hex_encode-ne-nil [] h = elim h [ ]
hex_encode-ne-nil (b ∷ bs) h = λ e. cons-ne-nil _ _ e

pub compute_token_hash-ne-nil :
    (p : Platform) → Sums p → (text : String) → compute_token_hash p text ≢ ""
unfolding compute_token_hash
compute_token_hash-ne-nil p sums text = hex_encode-ne-nil (p.sum256 text) (omega (arith, sums text))
