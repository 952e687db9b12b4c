-- ===== src/Oauth2/Service/Lifecycle/Consistent.antt =====
-- The invariant of the two maps, kept by every change that the service makes.
use mathlib.Core.Path.{subst}
use go_oauth_client_credenti.Common.{
  ◌≡◌, sym, ap, ◌∙◌, String, false, none, some, Option, arith, ◌==◌, eq_iff, Bool-cases, inl, inr,
}
use go_oauth_client_credenti.Oauth2.Types.{Client, Token}
use go_oauth_client_credenti.Oauth2.Store.Contract.{Maps, update}
use go_oauth_client_credenti.Oauth2.Service.Issue.Checks.{MayTarget, MayScope}

abbrev pub IsOwned : Maps → Token → Type 0
IsOwned m t =
    (c : Client) × (m.client_at t.client_id ≡ some c)
    × MayTarget c.allowed_resources t.resource
    × MayScope c.allowed_scopes t.scope

-- Records stand under their own keys, and every token belongs to a registered client and lies
-- within the resources and the scopes of that client.
pub record IsConsistent (m : Maps) : Type 0 where
  pub client_key : (k : String) (c : Client) → m.client_at k ≡ some c → c.id ≡ k
  pub token_key : (h : String) (t : Token) → m.token_at h ≡ some t → t.token_hash ≡ h
  pub owner : (h : String) (t : Token) → m.token_at h ≡ some t → IsOwned m t

module _ {m m' : Maps} (inv : IsConsistent m) where
  -- A new client under a free id.
  pub IsConsistent-client :
      (c : Client)
      → m.client_at c.id ≡ none
      → m'.client_at ≡ update m.client_at c.id c
      → m'.token_at ≡ m.token_at
      → IsConsistent m'
  IsConsistent-client c fresh clients tokens = record {
    client_key = λ k d h.
        let e : update m.client_at c.id c k ≡ some d =
          ap (λ (f : String → Option Client). f k) (sym clients) ∙ h in
        ground (arith, e, eq_iff c.id k, inv.client_key k d);
    token_key =
        λ h t s. inv.token_key h t (ap (λ (f : String → Option Token). f h) (sym tokens) ∙ s);
    owner = λ h t s.
        let (d, registered, target, scope) =
          inv.owner h t (ap (λ (f : String → Option Token). f h) (sym tokens) ∙ s) in
        let other : (c.id == t.client_id) ≡ false =
          ground (arith, eq_iff c.id t.client_id, ap m.client_at) in
        (
          d,
          ap (λ (f : String → Option Client). f t.client_id) clients ∙ rw other registered,
          target,
          scope,
        );
  }

  -- A token of a registered client, within its bounds.
  pub IsConsistent-token :
      (c : Client) (t : Token)
      → m.client_at t.client_id ≡ some c
      → MayTarget c.allowed_resources t.resource
      → MayScope c.allowed_scopes t.scope
      → m'.client_at ≡ m.client_at
      → m'.token_at ≡ update m.token_at t.token_hash t
      → IsConsistent m'
  IsConsistent-token c t registered target scope clients tokens = record {
    client_key =
        λ k d h. inv.client_key k d (ap (λ (f : String → Option Client). f k) (sym clients) ∙ h);
    token_key =
        λ h s found. ground (arith, stored h s found, eq_iff t.token_hash h, inv.token_key h s);
    owner = λ h s found. elim (Bool-cases (t.token_hash == h)) [
      | inl here ↦
          let same : t ≡ s = ground (arith, stored h s found) in
          subst (IsOwned m') same (
            c,
            ap (λ (f : String → Option Client). f t.client_id) clients ∙ registered,
            target,
            scope,
          )
      | inr there ↦
          let (d, was, may, can) = inv.owner h s (ground (arith, stored h s found)) in
          (d, ap (λ (f : String → Option Client). f s.client_id) clients ∙ was, may, can)
    ];
  }
    where
      stored :
          (h : String) (s : Token)
          → m'.token_at h ≡ some s
          → update m.token_at t.token_hash t h ≡ some s
      stored h s found = ap (λ (f : String → Option Token). f h) (sym tokens) ∙ found
