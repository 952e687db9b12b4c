-- ===== src/Common/Dict.antt =====
-- Go's `map[string]V` as an association list. The order of the entries is never observed but by
-- the loop that deletes while it ranges, and that one gives the same map in every order.
use Prim.Native.String.{String}
use mathlib.Core.Path.{◌≡◌, refl}
use mathlib.Core.Option.{Option, none, some}
use mathlib.Core.List.{List, [], ◌∷◌}
use native.Mathlib.Omega.{arith}
use text.Mathlib.Text.{◌==◌}
use text.Mathlib.TextEquality.{eq_iff}
use go_oauth_client_credenti.Common.Logic.{if◌then◌else◌}

abbrev pub Dict {ℓ} : Type ℓ → Type ℓ
Dict V = List (String × V)

module _ {ℓ} {V : Type ℓ} where
  -- `m[key]`, with whether the key is there
  unfoldable pub lookup : (key : String) → Dict V → Option V
  lookup key [] = none
  lookup key (entry ∷ rest) = if entry.0 == key then some entry.1 else lookup key rest

  -- `delete(m, key)`
  unfoldable pub erase : (key : String) → Dict V → Dict V
  erase key [] = []
  erase key (entry ∷ rest) =
      let others = erase key rest in if entry.0 == key then others else entry ∷ others

  -- `m[key] = x`; the entry of a key that is there keeps its place.
  unfoldable pub insert : (key : String) → V → Dict V → Dict V
  insert key x [] = (key, x) ∷ []
  insert key x (entry ∷ rest) =
      if entry.0 == key then (key, x) ∷ rest else entry ∷ insert key x rest

  pub lookup-erase :
      (key other : String) (m : Dict V)
      → lookup other (erase key m) ≡ (if key == other then none else lookup other m)
  unfolding lookup erase
  lookup-erase key other [] = ground arith
  lookup-erase key other ((at, x) ∷ rest) =
      ground (arith, lookup-erase key other rest, eq_iff at key, eq_iff at other, eq_iff key other)

  pub lookup-insert :
      (key other : String) (x : V) (m : Dict V)
      → lookup other (insert key x m) ≡ (if key == other then some x else lookup other m)
  unfolding insert lookup
  lookup-insert key other x [] = refl
  lookup-insert key other x ((at, y) ∷ rest) =
      ground
        (arith, lookup-insert key other x rest, eq_iff at key, eq_iff at other, eq_iff key other)
