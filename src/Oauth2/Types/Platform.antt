-- ===== src/Oauth2/Types/Platform.antt =====
-- Code that is not part of the repository: the URL parser, quoting, SHA-256, bcrypt, and the
-- conversion of a duration to seconds through a floating-point number.
use go_oauth_client_credenti.Common.{ℕ, String, Bool, List}
use go_oauth_client_credenti.Common.Int.{ℤ}
use go_oauth_client_credenti.Oauth2.Exec.{Result}

-- What the program reads of a `url.URL`.
pub record Url : Type 0 where
  pub scheme : String
  pub fragment : String

pub record Platform : Type 0 where
  -- `url.Parse`
  pub parse_url : String → Result Url
  -- `strconv.Quote`, the verb `%q`
  pub quote : String → String
  -- `sha256.Sum256`
  pub sum256 : String → List ℕ
  -- `bcrypt.GenerateFromPassword`, with the number of earlier calls, on which its salt depends
  pub bcrypt_generate : ℕ → String → ℤ → Result String
  -- whether `bcrypt.CompareHashAndPassword` returns nil
  pub bcrypt_matches : String → String → Bool
  -- `int64(d.Seconds())`
  pub whole_seconds : ℤ → ℤ
