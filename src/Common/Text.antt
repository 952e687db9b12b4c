-- ===== src/Common/Text.antt =====
-- What the program uses of Go's package `strings`. A text is a list of code points, so Go strings
-- that are not valid UTF-8 are outside the model.
use Prim.Native.Nat.{ℕ, ◌+◌}
use Prim.Native.Char.{Char, code}
use Prim.Native.String.{String, [], ◌∷◌}
use Prim.Native.String
use mathlib.Core.Bool.{Bool, true, false, ◌&&◌, ◌||◌}
use mathlib.Core.List.{List, [], ◌∷◌}
use text.Mathlib.Text.{◌==◌, starts_with}
use go_oauth_client_credenti.Common.Logic.{leb, eqb, if◌then◌else◌}

infixr 66 ◌<>◌
abbrev pub ◌<>◌ : String → String → String
s <> t = String.◌++◌ s t

-- `unicode.IsSpace`
unfoldable pub is_space : ℕ → Bool
is_space c =
    leb 9 c && leb c 13
    || eqb c 32
    || eqb c 0x85
    || eqb c 0xa0
    || eqb c 0x1680
    || leb 0x2000 c && leb c 0x200a
    || eqb c 0x2028
    || eqb c 0x2029
    || eqb c 0x202f
    || eqb c 0x205f
    || eqb c 0x3000

unfoldable pub trim_left : (ℕ → Bool) → String → String
trim_left p [] = []
trim_left p (c ∷ s) = let rest = trim_left p s in if p (code c) then rest else c ∷ s

unfoldable pub trim_right : (ℕ → Bool) → String → String
trim_right p [] = []
trim_right p (c ∷ s) =
    let rest = trim_right p s in if p (code c) && rest == "" then [] else c ∷ rest

-- `strings.TrimSpace`
unfoldable pub trim_space : String → String
unfolding trim_left trim_right is_space
trim_space s = trim_right is_space (trim_left is_space s)

abbrev push : String → Char → String
push s c = s <> (c ∷ [])

-- The word read so far, if there is one, and the words after it.
abbrev word : String → List String → List String
word cur rest = if cur == "" then rest else cur ∷ rest

fields_from : String → String → List String
fields_from cur [] = word cur []
fields_from cur (c ∷ s) =
    let rest = fields_from "" s in
    let longer = fields_from (push cur c) s in if is_space (code c) then word cur rest else longer

-- `strings.Fields`
unfoldable pub fields : String → List String
unfolding fields_from is_space
fields s = fields_from "" s

split_from : ℕ → String → String → List String
split_from sep cur [] = cur ∷ []
split_from sep cur (c ∷ s) =
    let rest = split_from sep "" s in
    let longer = split_from sep (push cur c) s in if eqb (code c) sep then cur ∷ rest else longer

-- `strings.Split` at a separator of one character
unfoldable pub split : ℕ → String → List String
unfolding split_from
split sep s = split_from sep "" s

cut_from : ℕ → String → String → List String
cut_from sep cur [] = cur ∷ []
cut_from sep cur (c ∷ s) =
    let longer = cut_from sep (push cur c) s in if eqb (code c) sep then cur ∷ s ∷ [] else longer

-- `strings.SplitN(s, sep, 2)` at a separator of one character
unfoldable pub split_2 : ℕ → String → List String
unfolding cut_from
split_2 sep s = cut_from sep "" s

abbrev lower : ℕ → ℕ
lower c = if leb b'A' c && leb c b'Z' then c + 32 else c

-- `strings.EqualFold`, exact where one of the texts is ASCII with no letter k or s: only those two
-- letters of ASCII fold with a character outside it.
unfoldable pub equal_fold : String → String → Bool
equal_fold [] [] = true
equal_fold (c ∷ s) (d ∷ t) = eqb (lower (code c)) (lower (code d)) && equal_fold s t
equal_fold _ _ = false

-- `strings.Contains`
unfoldable pub contains : String → String → Bool
contains [] t = t == ""
contains (c ∷ s) t = starts_with (c ∷ s) t || contains s t

-- `strings.TrimRight(s, "/")`
unfoldable pub trim_right_slash : String → String
unfolding trim_right
trim_right_slash s = trim_right (λ c. eqb c b'/') s
