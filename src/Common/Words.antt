-- ===== src/Common/Words.antt =====
-- Texts with no space: trimming leaves them alone.
use Prim.Native.Char.{code}
use Prim.Native.String.{String, [], ◌∷◌}
use mathlib.Core.Path.{◌≡◌, refl}
use mathlib.Core.Bool.{Bool, true, not, ◌&&◌}
use native.Mathlib.Omega.{arith}
use text.Mathlib.TextLemmas.{nil-append, cons-append}
use go_oauth_client_credenti.Common.Text.{◌<>◌, is_space, trim_left, trim_right, trim_space}

unfoldable pub is_word : String → Bool
is_word [] = true
is_word (c ∷ s) = not (is_space (code c)) && is_word s

pub is_word-append : (s t : String) → is_word s ≡ true → is_word t ≡ true → is_word (s <> t) ≡ true
unfolding is_word
is_word-append [] t h k = rw (nil-append t) k
is_word-append (c ∷ s) t h k = rw (cons-append c s t) (ground (arith, is_word-append s t))

trim_left-word : (s : String) → is_word s ≡ true → trim_left is_space s ≡ s
unfolding is_word trim_left
trim_left-word [] h = refl
trim_left-word (c ∷ s) h = ground arith

trim_right-word : (s : String) → is_word s ≡ true → trim_right is_space s ≡ s
unfolding is_word trim_right
trim_right-word [] h = refl
trim_right-word (c ∷ s) h = ground (arith, trim_right-word s)

pub trim_space-word : (s : String) → is_word s ≡ true → trim_space s ≡ s
unfolding trim_space
trim_space-word s h = rw (trim_left-word s h) (trim_right-word s h)
