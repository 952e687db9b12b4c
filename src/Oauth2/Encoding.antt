-- ===== src/Oauth2/Encoding.antt =====
-- The encodings of package `encoding` that the service uses, on lists of bytes.
pub mod Lengths
pub mod Words
use go_oauth_client_credenti.Common.{ℕ, zero, suc, ◌+◌, ◌*◌, ◌/◌, ◌%◌, String, List, []}
use mathlib.Core.List.{◌∷◌}
use Prim.Native.Char.{Char}

abbrev pub Alphabet : Type 0
Alphabet = ℕ → Char

-- The character at an index of a text; the last argument is for an index out of range.
abbrev pub char_at : String → ℕ → Char → Char
char_at String.[] n d = d
char_at (String.◌∷◌ c s) zero d = c
char_at (String.◌∷◌ c s) (suc n) d = char_at s n d

abbrev pub hex_digit : ℕ → Char
hex_digit n = char_at "0123456789abcdef" n "?"

-- `hex.EncodeToString`
unfoldable pub hex_encode : List ℕ → String
hex_encode [] = ""
hex_encode (b ∷ bs) =
    String.◌∷◌ (hex_digit (b / 16)) (String.◌∷◌ (hex_digit (b % 16)) (hex_encode bs))

abbrev pub base64_digit : ℕ → Char
base64_digit n = char_at "ABCDEFGHIJKLMNOPQRSTUVWXYZabcdefghijklmnopqrstuvwxyz0123456789-_" n "?"

-- `base64.RawURLEncoding.EncodeToString`
unfoldable pub base64_encode : List ℕ → String
base64_encode [] = ""
base64_encode (a ∷ []) =
    String.◌∷◌ (base64_digit (a / 4)) (String.◌∷◌ (base64_digit (a % 4 * 16)) "")
base64_encode (a ∷ b ∷ []) =
    String.◌∷◌ (base64_digit (a / 4))
      (String.◌∷◌ (base64_digit (a % 4 * 16 + b / 16)) (String.◌∷◌ (base64_digit (b % 16 * 4)) ""))
base64_encode (a ∷ b ∷ c ∷ bs) = String.◌∷◌ (base64_digit (a / 4)) (
    String.◌∷◌ (base64_digit (a % 4 * 16 + b / 16)) (
      String.◌∷◌ (base64_digit (b % 16 * 4 + c / 64))
        (String.◌∷◌ (base64_digit (c % 64)) (base64_encode bs))))
