-- ===== src/Oauth2/Encoding/Words.antt =====
-- The base64url text of any bytes has no space.
use Prim.Native.Char.{Char, code}
use mathlib.Core.List.{◌∷◌}
use go_oauth_client_credenti.Common.{
  ◌≡◌, refl, ℕ, zero, suc, ◌+◌, ◌*◌, ◌/◌, ◌%◌, String, List, [], true, false, arith,
}
use go_oauth_client_credenti.Common.Text.{is_space}
use go_oauth_client_credenti.Common.Words.{is_word}
use go_oauth_client_credenti.Oauth2.Encoding.{char_at, base64_digit, base64_encode}

char_at-word :
    (s : String) (n : ℕ) (d : Char)
    → is_word s ≡ true
    → is_space (code d) ≡ false
    → is_space (code (char_at s n d)) ≡ false
unfolding is_word
char_at-word String.[] n d h k = k
char_at-word (String.◌∷◌ c s) zero d h k = ground arith
char_at-word (String.◌∷◌ c s) (suc n) d h k = char_at-word s n d (ground arith) k

base64_digit-word : (n : ℕ) → is_space (code (base64_digit n)) ≡ false
unfolding is_word is_space
base64_digit-word n =
    char_at-word "ABCDEFGHIJKLMNOPQRSTUVWXYZabcdefghijklmnopqrstuvwxyz0123456789-_" n "?" refl refl

pub base64_encode-word : (bs : List ℕ) → is_word (base64_encode bs) ≡ true
unfolding is_word base64_encode
base64_encode-word [] = refl
base64_encode-word (a ∷ []) = rw (base64_digit-word (a / 4), base64_digit-word (a % 4 * 16)) refl
base64_encode-word (a ∷ b ∷ []) =
    rw
      (
        base64_digit-word (a / 4),
        base64_digit-word (a % 4 * 16 + b / 16),
        base64_digit-word (b % 16 * 4),
      )
      refl
base64_encode-word (a ∷ b ∷ c ∷ bs) =
    rw
      (
        base64_digit-word (a / 4),
        base64_digit-word (a % 4 * 16 + b / 16),
        base64_digit-word (b % 16 * 4 + c / 64),
        base64_digit-word (c % 64),
        base64_encode-word bs,
      )
      refl
