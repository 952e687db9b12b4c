-- ===== src/Cli/Flags.antt =====
-- Which resources the flag gives.
use mathlib.Core.List.{Memᴰ}
use go_oauth_client_credenti.Common.{
  ◌≡◌, refl, sym, ◌∙◌, ap, ◌≢◌, ◌↔◌, String, false, List, [], ◌∷◌, ◌==◌, arith, eq_iff, Bool-cases,
  inl, inr,
}
use go_oauth_client_credenti.Common.Text.{split, trim_space}
use go_oauth_client_credenti.Cli.{trimmed_parts, parse_resources}

-- A text is a part without the spaces around it, and not empty.
abbrev pub IsTrimmedPart : List String → String → Type 0
IsTrimmedPart parts res = (res ≢ "") × (part : String) × Memᴰ part parts × (trim_space part ≡ res)

kept :
    (r : String) (parts : List String) (res : String)
    → (trim_space r == "") ≡ false
    → (Memᴰ res (trimmed_parts parts) → IsTrimmedPart parts res)
    → Memᴰ res (trim_space r ∷ trimmed_parts parts)
    → IsTrimmedPart (r ∷ parts) res
kept r parts res e later (Memᴰ.head same) = (
  λ empty. absurd (ground (arith, eq_iff (trim_space r) "", same, empty)),
  r,
  Memᴰ.head refl,
  sym same,
)
kept r parts res e later (Memᴰ.tail m) =
    let (given, part, among, same) = later m in (given, part, Memᴰ.tail among, same)

trimmed_parts_sound :
    (parts : List String) (res : String) → Memᴰ res (trimmed_parts parts) → IsTrimmedPart parts res
unfolding trimmed_parts
trimmed_parts_sound [] res m = elim m [ ]
trimmed_parts_sound (r ∷ parts) res m = elim (Bool-cases (trim_space r == "")) [
  | inl e ↦
      let (given, part, among, same) = trimmed_parts_sound parts res (rw e at m) in
      (given, part, Memᴰ.tail among, same)
  | inr e ↦ kept r parts res e (trimmed_parts_sound parts res) (rw e at m)
]

trimmed_parts_complete :
    {part : String} {parts : List String} (res : String)
    → res ≢ ""
    → Memᴰ part parts
    → trim_space part ≡ res
    → Memᴰ res (trimmed_parts parts)
unfolding trimmed_parts
trimmed_parts_complete res given (Memᴰ.head {x} e) same =
    let this : trim_space x ≡ res = ground (arith, e, same) in
    let filled : (trim_space x == "") ≡ false =
      ground (arith, eq_iff (trim_space x) "", this, given) in
    rw filled (Memᴰ.head (sym this))
trimmed_parts_complete res given (Memᴰ.tail {x} m) same = elim (Bool-cases (trim_space x == "")) [
  | inl e ↦ rw e (trimmed_parts_complete res given m same)
  | inr e ↦ rw e (Memᴰ.tail (trimmed_parts_complete res given m same))
]

no_part : (part res : String) → res ≢ "" → Memᴰ part ("" ∷ []) → trim_space part ≡ res → ⊥
unfolding trim_space
no_part part res given (Memᴰ.head e) same = given (sym same ∙ ap trim_space e)
no_part part res given (Memᴰ.tail m) same = elim m [ ]

-- The resources that the flag gives are the parts between its commas, without the spaces around
-- them, that are not empty; an empty flag gives none.
pub parse_resources_iff :
    (raw res : String) → Memᴰ res (parse_resources raw) ↔ IsTrimmedPart (split b',' raw) res
unfolding parse_resources split
parse_resources_iff raw res = elim (Bool-cases (raw == "")) [
  | inr e ↦ rw e (
    trimmed_parts_sound (split b',' raw) res,
    λ (given, part, among, same). trimmed_parts_complete res given among same,
  )
  | inl e ↦
      rw ((eq_iff raw "").0 e)
        (λ m. elim m [ ], λ (given, part, among, same). absurd (no_part part res given among same))
]
