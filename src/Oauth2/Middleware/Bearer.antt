-- ===== src/Oauth2/Middleware/Bearer.antt =====
-- The header that pkg/oauth2/client/transport.go sets is read back by the middleware.
use text.Mathlib.TextLemmas.{cons-append, nil-append}
use go_oauth_client_credenti.Common.{◌≡◌, refl, ◌≢◌, String, some, arith, eq_iff, true, [], ◌∷◌}
use go_oauth_client_credenti.Common.Text.{◌<>◌, split_2, equal_fold}
use go_oauth_client_credenti.Common.Words.{is_word, trim_space-word}
use go_oauth_client_credenti.Oauth2.Middleware.{bearer_token}

split_2-bearer : (raw : String) → split_2 b' ' ("Bearer " <> raw) ≡ "Bearer" ∷ raw ∷ []
unfolding split_2
split_2-bearer raw =
    rw
      (
        cons-append "B" "earer " raw,
        cons-append "e" "arer " raw,
        cons-append "a" "rer " raw,
        cons-append "r" "er " raw,
        cons-append "e" "r " raw,
        cons-append "r" " " raw,
        cons-append " " "" raw,
        nil-append raw,
      )
      refl

-- A text with no space, behind "Bearer ", is the token that the middleware reads.
pub bearer_token-word :
    (raw : String) → raw ≢ "" → is_word raw ≡ true → bearer_token ("Bearer " <> raw) ≡ some raw
unfolding bearer_token equal_fold
bearer_token-word raw given word =
    ground (arith, split_2-bearer raw, trim_space-word raw word, eq_iff raw "")
