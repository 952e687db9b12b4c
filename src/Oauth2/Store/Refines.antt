-- ===== src/Oauth2/Store/Refines.antt =====
-- The memory store behaves as two maps.
use mathlib.Core.Path.{fun_ext}
use go_oauth_client_credenti.Common.{
  String, ◌≡◌, refl, Option, some, arith, ◌==◌, inl, inr, Option-cases, Bool-cases,
}
use go_oauth_client_credenti.Common.Dict.{Dict, lookup, insert, lookup-insert}
use go_oauth_client_credenti.Oauth2.Exec.{Result}
use go_oauth_client_credenti.Oauth2.Types.{Client, Token, Time}
use go_oauth_client_credenti.Oauth2.Store.Memory.{
  MemoryStore, create_client, get_client, save_token, get_token_by_hash, revoke_token, memory_store,
}
use go_oauth_client_credenti.Oauth2.Store.Contract.{
  Maps, update, add_client, put_token, mark_revoked, found_client, found_token, IsLawful,
}

abbrev pub memory_maps : MemoryStore → Maps
memory_maps m = record { client_at = λ k. lookup k m.clients; token_at = λ k. lookup k m.tokens }

lookup-insert_fun :
    {V : Type 0} (k : String) (v : V) (m : Dict V)
    → ◌≡◌ {A = String → Option V} (λ j. lookup j (insert k v m)) (update (λ j. lookup j m) k v)
lookup-insert_fun k v m = fun_ext (λ j. lookup-insert k j v m)

pub create_client-memory :
    (c : Client) (m : MemoryStore)
    → let (r, m') = create_client (some c) m in
      ◌≡◌ {A = Result Unit × Maps} (r, memory_maps m') (add_client c (memory_maps m))
unfolding create_client
create_client-memory c m = elim (Bool-cases (c.id == "")) [
  | inl e ↦ rw e
  | inr e ↦ rw e (elim (Option-cases (lookup c.id m.clients)) [
    | inl absent ↦ rw absent (simp lookup-insert_fun)
    | inr (_, present) ↦ rw present
  ])
]

pub save_token-memory :
    (t : Token) (m : MemoryStore)
    → let (r, m') = save_token (some t) m in
      ◌≡◌ {A = Result Unit × Maps} (r, memory_maps m') (put_token t (memory_maps m))
unfolding save_token
save_token-memory t m = elim (Bool-cases (t.token_hash == "")) [
  | inl e ↦ rw e
  | inr e ↦ rw e (simp lookup-insert_fun)
]

pub revoke_token-memory :
    (now : Time) (h : String) (m : MemoryStore)
    → let (r, m') = revoke_token now h m in
      ◌≡◌ {A = Result Unit × Maps} (r, memory_maps m') (mark_revoked now h (memory_maps m))
unfolding revoke_token
revoke_token-memory now h m = elim (Option-cases (lookup h m.tokens)) [
  | inl absent ↦ rw (absent, revoke_token, mark_revoked)
  | inr (t, present) ↦ rw (present, revoke_token, mark_revoked) (simp lookup-insert_fun)
]

pub get_client-memory :
    (id : String) (m : MemoryStore) → get_client id m ≡ found_client (lookup id m.clients)
unfolding get_client
get_client-memory id m = ground arith

pub get_token-memory :
    (h : String) (m : MemoryStore) → get_token_by_hash h m ≡ found_token (lookup h m.tokens)
unfolding get_token_by_hash
get_token-memory h m = ground arith

abbrev pub memory_lawful : IsLawful memory_store
memory_lawful = record {
  maps = memory_maps;
  create_client-maps = create_client-memory;
  get_client-maps = get_client-memory;
  save_token-maps = save_token-memory;
  get_token-maps = get_token-memory;
  revoke_token-maps = revoke_token-memory;
}

-- Every method of the memory store returns what the two maps return, and leaves the maps that
-- they leave; the maps are the lookups in the two Go maps.
pub memory_store-IsLawful : (l : IsLawful memory_store) × (l.maps ≡ memory_maps)
memory_store-IsLawful = (memory_lawful, refl)
