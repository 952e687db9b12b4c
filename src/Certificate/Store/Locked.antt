-- ===== src/Certificate/Store/Locked.antt =====
-- The methods of sample-server/internal/certificate/store.go in the parts that their lock makes: what
-- is tested before, what is read under it, and what is written under it.
use go_oauth_client_credenti.Common.{
  ◌≡◌, refl, String, Bool, true, false, Option, none, some, arith,
}
use go_oauth_client_credenti.Common.Dict.{lookup, insert, erase}
use go_oauth_client_credenti.Locked.{Methods, run, Config, Reachable}
use go_oauth_client_credenti.Locked.Sound.{IsShared}
use go_oauth_client_credenti.Locked.Replay.{IsOrdered, Reachable-IsOrdered}
use go_oauth_client_credenti.Certificate.Model.{
  Certificate, Http01Challenge, certificate_not_found, challenge_not_found, fault, Outcome, done,
  failed,
}
use go_oauth_client_credenti.Certificate.Store
use go_oauth_client_credenti.Certificate.Store.{MemoryStore}

pub data Call : Type 0 where
  get_certificate : String → Call
  save_certificate : Option Certificate → Call
  get_challenge : String → Call
  save_challenge : Option Http01Challenge → Call
  delete_challenge : String → Call

pub data Reply : Type 0 where
  written : Outcome (Unit {0}) → Reply
  certificate : Outcome Certificate → Reply
  challenge : Outcome Http01Challenge → Reply

-- The entry that was found, in the map that the method reads.
pub record Seen : Type 0 where
  pub certificate : Option Certificate
  pub challenge : Option Http01Challenge

-- The guards before the lock.
unfoldable pub refused : Call → Option Reply
refused (save_certificate none) = some (written (failed (fault "certificate cannot be nil")))
refused (save_challenge none) = some (written (failed (fault "challenge cannot be nil")))
refused _ = none

-- `Lock` for the methods that write, `RLock` for those that read.
unfoldable pub exclusive : Call → Bool
exclusive (get_certificate _) = false
exclusive (get_challenge _) = false
exclusive _ = true

unfoldable pub look : Call → MemoryStore → Seen
look (get_certificate id) s = record { certificate = lookup id s.certificates; challenge = none }
look (get_challenge k) s = record { certificate = none; challenge = lookup k s.challenges }
look (delete_challenge k) s = record { certificate = none; challenge = lookup k s.challenges }
look _ s = record { certificate = none; challenge = none }

unfoldable pub commit : Call → Seen → MemoryStore → Reply × MemoryStore
commit (get_certificate id) x s = elim x.certificate [
  | none ↦ (certificate (failed certificate_not_found), s)
  | some cert ↦ (certificate (done cert), s)
]
commit (save_certificate none) x s = (written (failed (fault "certificate cannot be nil")), s)
commit (save_certificate (some cert)) x s =
    (written (done tt), record s { certificates = insert cert.id cert s.certificates })
commit (get_challenge k) x s = elim x.challenge [
  | none ↦ (challenge (failed challenge_not_found), s)
  | some ch ↦ (challenge (done ch), s)
]
commit (save_challenge none) x s = (written (failed (fault "challenge cannot be nil")), s)
commit (save_challenge (some ch)) x s =
    (written (done tt), record s { challenges = insert ch.token ch s.challenges })
commit (delete_challenge k) x s = elim x.challenge [
  | none ↦ (written (failed challenge_not_found), s)
  | some _ ↦ (written (done tt), record s { challenges = erase k s.challenges })
]

abbrev pub methods : Methods
methods = record {
  State = MemoryStore;
  Call = Call;
  Reply = Reply;
  Seen = Seen;
  refused = refused;
  exclusive = exclusive;
  look = look;
  commit = commit;
}

-- The methods as single steps.
unfoldable pub atomic : Call → MemoryStore → Reply × MemoryStore
atomic (get_certificate id) s = (certificate (Store.get_certificate id s), s)
atomic (save_certificate c) s = let (r, s') = Store.save_certificate c s in (written r, s')
atomic (get_challenge k) s = (challenge (Store.get_challenge k s), s)
atomic (save_challenge c) s = let (r, s') = Store.save_challenge c s in (written r, s')
atomic (delete_challenge k) s = let (r, s') = Store.delete_challenge k s in (written r, s')

methods-IsShared : IsShared methods
unfolding exclusive commit
methods-IsShared (get_certificate id) x s h = ground arith
methods-IsShared (save_certificate c) x s h = absurd (ground (arith, h))
methods-IsShared (get_challenge k) x s h = ground arith
methods-IsShared (save_challenge c) x s h = absurd (ground (arith, h))
methods-IsShared (delete_challenge k) x s h = absurd (ground (arith, h))

run-atomic : (c : Call) (s : MemoryStore) → run methods c s ≡ atomic c s
unfolding run refused look commit atomic Store.get_certificate Store.save_certificate
    Store.get_challenge Store.save_challenge Store.delete_challenge
run-atomic (get_certificate id) s = ground arith
run-atomic (save_certificate none) s = refl
run-atomic (save_certificate (some c)) s = refl
run-atomic (get_challenge k) s = ground arith
run-atomic (save_challenge none) s = refl
run-atomic (save_challenge (some c)) s = refl
run-atomic (delete_challenge k) s = ground arith

-- However goroutines call the memory store of certificates, with their steps in any order, its lock makes the
-- calls take effect one after another: the replies so far are the ones of these calls, each as one
-- step on what the earlier ones left, and the maps are what the last one left. A call that is about
-- to return has its reply among them, and a call takes its place after it was made, behind those
-- that have one.
pub memory_certificates-IsOrdered :
    (start : MemoryStore) (s : Config methods)
    → Reachable methods start s
    → IsOrdered methods atomic start s
memory_certificates-IsOrdered = Reachable-IsOrdered methods methods-IsShared atomic run-atomic
