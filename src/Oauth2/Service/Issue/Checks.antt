-- ===== src/Oauth2/Service/Issue/Checks.antt =====
-- The loops over the client's resources and scopes decide membership.
use mathlib.Core.List.{Memᴰ}
use go_oauth_client_credenti.Common.{
  ◌≡◌, refl, ◌≢◌, ◌↔◌, ◌⊎◌, inl, inr, String, true, List, [], ◌∷◌, arith, ◌==◌, eq_iff, Bool-cases,
  All,
}
use go_oauth_client_credenti.Common.Text.{fields}
use go_oauth_client_credenti.Oauth2.Service.Issue.{
  contains_string, resource_allowed, scopes_contained, scope_allowed,
}

pub contains_string_sound :
    (xs : List String) (s : String) → contains_string xs s ≡ true → Memᴰ s xs
unfolding contains_string
contains_string_sound [] s h = cc
contains_string_sound (x ∷ xs) s h = elim (Bool-cases (x == s)) [
  | inl e ↦ rw ((eq_iff x s).0 e) (Memᴰ.head refl)
  | inr e ↦ Memᴰ.tail (contains_string_sound xs s (rw e at h))
]

pub contains_string_complete :
    {s : String} {xs : List String} → Memᴰ s xs → contains_string xs s ≡ true
unfolding contains_string
contains_string_complete {s} (Memᴰ.head {x} {xs} e) = ground (arith, eq_iff x s)
contains_string_complete (Memᴰ.tail {x} {xs} m) = ground (arith, contains_string_complete m)

-- What it means that a client may name a resource.
abbrev pub MayTarget : List String → String → Type 0
MayTarget allowed resource = (allowed ≡ []) ⊎ ((resource ≢ "") × Memᴰ resource allowed)

-- What it means that a client may ask for a scope.
abbrev pub MayScope : List String → String → Type 0
MayScope allowed scope = (allowed ≡ []) ⊎ All (λ sc. Memᴰ sc allowed) (fields scope)

scopes_contained_sound :
    (allowed scopes : List String)
    → scopes_contained allowed scopes ≡ true
    → All (λ sc. Memᴰ sc allowed) scopes
unfolding scopes_contained
scopes_contained_sound allowed [] h = tt
scopes_contained_sound allowed (sc ∷ scopes) h = elim (Bool-cases (contains_string allowed sc)) [
  | inl e ↦ (contains_string_sound allowed sc e, scopes_contained_sound allowed scopes (rw e at h))
  | inr e ↦ absurd (ground arith)
]

scopes_contained_complete :
    (allowed scopes : List String)
    → All (λ sc. Memᴰ sc allowed) scopes
    → scopes_contained allowed scopes ≡ true
unfolding scopes_contained
scopes_contained_complete allowed [] h = refl
scopes_contained_complete allowed (sc ∷ scopes) (m, h) =
    rw (contains_string_complete m) (scopes_contained_complete allowed scopes h)

pub resource_allowed_iff :
    (allowed : List String) (resource : String)
    → (resource_allowed allowed resource ≡ true) ↔ MayTarget allowed resource
unfolding resource_allowed
resource_allowed_iff [] resource = (λ _. inl refl, λ _. refl)
resource_allowed_iff (r ∷ allowed) resource = (sound, complete)
  where
    sound : resource_allowed (r ∷ allowed) resource ≡ true → MayTarget (r ∷ allowed) resource
    sound h = inr (
      ground (arith, eq_iff resource ""),
      contains_string_sound (r ∷ allowed) resource (ground (arith)),
    )

    complete : MayTarget (r ∷ allowed) resource → resource_allowed (r ∷ allowed) resource ≡ true
    complete (inl e) = cc
    complete (inr (ne, m)) = rw (contains_string_complete m) (ground (arith, eq_iff resource ""))

pub scope_allowed_iff :
    (allowed : List String) (scope : String)
    → (scope_allowed allowed scope ≡ true) ↔ MayScope allowed scope
unfolding scope_allowed
scope_allowed_iff [] scope = (λ _. inl refl, λ _. refl)
scope_allowed_iff (a ∷ allowed) scope = (sound, complete)
  where
    sound : scope_allowed (a ∷ allowed) scope ≡ true → MayScope (a ∷ allowed) scope
    sound h = inr (elim (Bool-cases (scope == "")) [
      | inl e ↦ rw ((eq_iff scope "").0 e) (unfold fields in tt)
      | inr e ↦ scopes_contained_sound (a ∷ allowed) (fields scope) (rw e at h)
    ])

    complete : MayScope (a ∷ allowed) scope → scope_allowed (a ∷ allowed) scope ≡ true
    complete (inl e) = cc
    complete (inr h) = ground (arith, scopes_contained_complete (a ∷ allowed) (fields scope) h)
