-- ===== src/Oauth2/Encoding/Lengths.antt =====
-- The lengths of the texts of bytes.
use mathlib.Core.List.{◌∷◌}
use Prim.Native.String.{String}
use text.Mathlib.TextLemmas.{nil-append, cons-append}
use go_oauth_client_credenti.Common.{
  ◌≡◌, refl, ℕ, zero, suc, ◌+◌, ◌*◌, ◌/◌, List, [], arith, length,
}
use go_oauth_client_credenti.Common.Text.{◌<>◌}
use go_oauth_client_credenti.Oauth2.Encoding.{hex_encode, base64_encode}

-- `len` of a text of ASCII characters
unfoldable pub size : String → ℕ
size String.[] = zero
size (String.◌∷◌ c s) = suc (size s)

pub size-append : (s t : String) → size (s <> t) ≡ size s + size t
unfolding size
size-append String.[] t = rw (nil-append t) (omega arith)
size-append (String.◌∷◌ c s) t = rw (cons-append c s t) (omega (arith, size-append s t))

pub size-hex_encode : (bs : List ℕ) → size (hex_encode bs) ≡ 2 * length bs
unfolding size hex_encode
size-hex_encode [] = refl
size-hex_encode (b ∷ bs) = omega (arith, size-hex_encode bs)

pub size-base64_encode : (bs : List ℕ) → size (base64_encode bs) ≡ (4 * length bs + 2) / 3
unfolding size base64_encode
size-base64_encode [] = refl
size-base64_encode (a ∷ []) = refl
size-base64_encode (a ∷ b ∷ []) = refl
size-base64_encode (a ∷ b ∷ c ∷ bs) = omega (arith, size-base64_encode bs)
