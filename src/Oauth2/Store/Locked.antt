-- ===== src/Oauth2/Store/Locked.antt =====
-- The methods of pkg/oauth2/store_memory.go in the parts that their lock makes: what is tested
-- before, what is read under it, and what is written under it.
use go_oauth_client_credenti.Common.{
  ◌≡◌, refl, String, Bool, true, false, Option, none, some, ◌==◌, arith, if◌then◌else◌,
}
use go_oauth_client_credenti.Common.Dict.{lookup, insert}
use go_oauth_client_credenti.Locked.{Methods, run, Config, Reachable}
use go_oauth_client_credenti.Locked.Sound.{IsShared}
use go_oauth_client_credenti.Locked.Replay.{IsOrdered, Reachable-IsOrdered}
use go_oauth_client_credenti.Oauth2.Error.{sentinel, invalid_client, token_not_found}
use go_oauth_client_credenti.Oauth2.Exec.{Result, ok, err}
use go_oauth_client_credenti.Oauth2.Types.{Client, Token, Time}
use go_oauth_client_credenti.Oauth2.Store.Errors.{request_error}
use go_oauth_client_credenti.Oauth2.Store.Memory
use go_oauth_client_credenti.Oauth2.Store.Memory.{MemoryStore}

pub data Call : Type 0 where
  create_client : Option Client → Call
  get_client : String → Call
  save_token : Option Token → Call
  get_token_by_hash : String → Call
  revoke_token : Time → String → Call

pub data Reply : Type 0 where
  written : Result (Unit {0}) → Reply
  client : Result Client → Reply
  token : Result Token → Reply

-- The entry that was found, in the map that the method reads.
pub record Seen : Type 0 where
  pub client : Option Client
  pub token : Option Token

-- The guards before the lock.
unfoldable pub refused : Call → Option Reply
refused (create_client none) = some (written (err (request_error ": invalid client")))
refused (create_client (some c)) =
    if c.id == "" then some (written (err (request_error ": invalid client"))) else none
refused (save_token none) = some (written (err (request_error ": invalid token")))
refused (save_token (some t)) =
    if t.token_hash == "" then some (written (err (request_error ": invalid token"))) else none
refused _ = none

-- `Lock` for the methods that write, `RLock` for those that read.
unfoldable pub exclusive : Call → Bool
exclusive (get_client _) = false
exclusive (get_token_by_hash _) = false
exclusive _ = true

unfoldable pub look : Call → MemoryStore → Seen
look (create_client (some c)) m = record { client = lookup c.id m.clients; token = none }
look (get_client id) m = record { client = lookup id m.clients; token = none }
look (get_token_by_hash h) m = record { client = none; token = lookup h m.tokens }
look (revoke_token _ h) m = record { client = none; token = lookup h m.tokens }
look _ m = record { client = none; token = none }

unfoldable pub commit : Call → Seen → MemoryStore → Reply × MemoryStore
commit (create_client none) x m = (written (err (request_error ": invalid client")), m)
commit (create_client (some c)) x m = elim x.client [
  | some _ ↦ (written (err (request_error ": client already exists")), m)
  | none ↦ (written (ok tt), record m { clients = insert c.id c m.clients })
]
commit (get_client id) x m = elim x.client [
  | none ↦ (client (err (sentinel invalid_client)), m)
  | some c ↦ (client (ok c), m)
]
commit (save_token none) x m = (written (err (request_error ": invalid token")), m)
commit (save_token (some t)) x m =
    (written (ok tt), record m { tokens = insert t.token_hash t m.tokens })
commit (get_token_by_hash h) x m = elim x.token [
  | none ↦ (token (err (sentinel token_not_found)), m)
  | some t ↦ (token (ok t), m)
]
commit (revoke_token now h) x m = elim x.token [
  | none ↦ (written (err (sentinel token_not_found)), m)
  | some t ↦ (
    written (ok tt),
    record m { tokens = insert h (record t { revoked_at = some now }) m.tokens },
  )
]

abbrev pub methods : Methods
methods = record {
  State = MemoryStore;
  Call = Call;
  Reply = Reply;
  Seen = Seen;
  refused = refused;
  exclusive = exclusive;
  look = look;
  commit = commit;
}

-- The methods as single steps.
unfoldable pub atomic : Call → MemoryStore → Reply × MemoryStore
atomic (create_client c) m = let (r, m') = Memory.create_client c m in (written r, m')
atomic (get_client id) m = (client (Memory.get_client id m), m)
atomic (save_token t) m = let (r, m') = Memory.save_token t m in (written r, m')
atomic (get_token_by_hash h) m = (token (Memory.get_token_by_hash h m), m)
atomic (revoke_token now h) m = let (r, m') = Memory.revoke_token now h m in (written r, m')

methods-IsShared : IsShared methods
unfolding exclusive commit
methods-IsShared (create_client c) x m h = absurd (ground (arith, h))
methods-IsShared (get_client id) x m h = ground arith
methods-IsShared (save_token t) x m h = absurd (ground (arith, h))
methods-IsShared (get_token_by_hash k) x m h = ground arith
methods-IsShared (revoke_token now k) x m h = absurd (ground (arith, h))

run-atomic : (c : Call) (m : MemoryStore) → run methods c m ≡ atomic c m
unfolding run refused look commit atomic Memory.create_client Memory.get_client Memory.save_token
    Memory.get_token_by_hash Memory.revoke_token
run-atomic (create_client none) m = refl
run-atomic (create_client (some c)) m = ground arith
run-atomic (get_client id) m = ground arith
run-atomic (save_token none) m = refl
run-atomic (save_token (some t)) m = ground arith
run-atomic (get_token_by_hash h) m = ground arith
run-atomic (revoke_token now h) m = ground arith

-- However goroutines call the memory store, with their steps in any order, its lock makes the
-- calls take effect one after another: the replies so far are the ones of these calls, each as one
-- step on what the earlier ones left, and the maps are what the last one left. A call that is about
-- to return has its reply among them, and a call takes its place after it was made, behind those
-- that have one.
pub memory_store-IsOrdered :
    (start : MemoryStore) (s : Config methods)
    → Reachable methods start s
    → IsOrdered methods atomic start s
memory_store-IsOrdered = Reachable-IsOrdered methods methods-IsShared atomic run-atomic
