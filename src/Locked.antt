-- ===== src/Locked.antt =====
-- A state behind a `sync.RWMutex`, and any number of goroutines that call its methods. A method may
-- return before it locks; else it holds the lock, alone or with other readers, from before it looks
-- at the state until after it has written.
pub mod Sound
pub mod Replay
use go_oauth_client_credenti.Common.{
  ℕ, ◌≡◌, ◌≢◌, Bool, true, false, ◌||◌, Option, none, some, List, [], ◌∷◌, eqb, if◌then◌else◌,
}

-- The methods of the state, each in the parts that the lock makes.
pub record Methods : Type 1 where
  pub State : Type 0
  pub Call : Type 0
  pub Reply : Type 0
  -- What a method reads of the state.
  pub Seen : Type 0
  -- The reply of a call that returns before it locks.
  pub refused : Call → Option Reply
  -- whether a call takes `Lock`; the others take `RLock`
  pub exclusive : Call → Bool
  pub look : Call → State → Seen
  pub commit : Call → Seen → State → Reply × State

module _ (M : Methods) where
  -- The call as one step.
  unfoldable pub run : M.Call → M.State → M.Reply × M.State
  run c m = elim (M.refused c) [ some r ↦ (r, m) | none ↦ M.commit c (M.look c m) m ]

  -- Where a goroutine is.
  pub data Phase : Type 0 where
    away : Phase
    called : M.Call → Phase
    inside : M.Call → Phase
    looked : M.Call → M.Seen → Phase
    unlocking : M.Call → M.Reply → Phase

  -- The call whose lock a goroutine holds.
  unfoldable pub holds : Phase → Option M.Call
  holds away = none
  holds (called c) = none
  holds (inside c) = some c
  holds (looked c x) = some c
  holds (unlocking c r) = some c

  -- The call that a goroutine has made and that has not returned.
  unfoldable pub calling : Phase → Option M.Call
  calling away = none
  calling (called c) = some c
  calling (inside c) = some c
  calling (looked c x) = some c
  calling (unlocking c r) = some c

  abbrev pub keeps_out : M.Call → Option M.Call → Bool
  keeps_out c none = false
  keeps_out c (some d) = M.exclusive c || M.exclusive d

  -- The log has a call when it has taken effect, the latest first.
  pub record Config : Type 0 where
    pub phases : ℕ → Phase
    pub state : M.State
    pub log : List (M.Call × M.Reply)

  abbrev pub at : ℕ → Phase → (ℕ → Phase) → ℕ → Phase
  at i phase phases j = if eqb i j then phase else phases j

  -- A step of the goroutine `i`. It may lock when no other one holds a lock that keeps it out.
  pub data Step (s : Config) (i : ℕ) : Config → Type 0 where
    invoke :
        (c : M.Call) → s.phases i ≡ away → Step s i (record s { phases = at i (called c) s.phases })
    refuse :
        (c : M.Call) (r : M.Reply)
        → s.phases i ≡ called c
        → M.refused c ≡ some r
        → Step s i (record s { phases = at i away s.phases; log = (c, r) ∷ s.log })
    lock :
        (c : M.Call)
        → s.phases i ≡ called c
        → M.refused c ≡ none
        → ((j : ℕ) → i ≢ j → keeps_out c (holds (s.phases j)) ≡ false)
        → Step s i (record s { phases = at i (inside c) s.phases })
    look :
        (c : M.Call)
        → s.phases i ≡ inside c
        → Step s i (record s { phases = at i (looked c (M.look c s.state)) s.phases })
    commit :
        (c : M.Call) (x : M.Seen) (r : M.Reply) (m : M.State)
        → s.phases i ≡ looked c x
        → M.commit c x s.state ≡ (r, m)
        → Step s i
            (record { phases = at i (unlocking c r) s.phases; state = m; log = (c, r) ∷ s.log })
    unlock :
        (c : M.Call) (r : M.Reply)
        → s.phases i ≡ unlocking c r
        → Step s i (record s { phases = at i away s.phases })

  abbrev pub initial : M.State → Config
  initial m = record { phases = λ i. away; state = m; log = [] }

  -- What steps of any goroutines, in any order, reach from a state with no call.
  pub data Reachable (m : M.State) : Config → Type 0 where
    begun : Reachable m (initial m)
    more : {s t : Config} → Reachable m s → (i : ℕ) → Step s i t → Reachable m t
