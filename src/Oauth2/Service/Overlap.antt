-- ===== src/Oauth2/Service/Overlap.antt =====
-- Calls of the service that overlap. `IssueToken` is the one method that uses the store twice, so it
-- has two steps: up to the reading of the client, and from there to the end. Every other method uses
-- the store once and is one step.
pub mod Whole
pub mod Keeps
pub mod Sound
use go_oauth_client_credenti.Common.{ℕ, String, Option, none, some, not, ◌==◌, eqb, if◌then◌else◌}
use go_oauth_client_credenti.Oauth2.Error.{sentinel, invalid_grant, invalid_client}
use go_oauth_client_credenti.Oauth2.Exec.{Result, ok, err, ◌>>◌}
use go_oauth_client_credenti.Oauth2.Types.{Time, Client, TokenRequest, TokenResponse}
use go_oauth_client_credenti.Oauth2.Types.Platform.{Platform}
use go_oauth_client_credenti.Oauth2.Store.{Store}
use go_oauth_client_credenti.Oauth2.Service.{Service, World, read_clock}
use go_oauth_client_credenti.Oauth2.Service.Issue.{check_resource, reject, authorize}
use go_oauth_client_credenti.Oauth2.Service.Lifecycle.Reachable.{Call, after}

-- How the first step of `IssueToken` ends.
pub data Looked : Type 0 where
  refused : Result TokenResponse → Looked
  found : Client → Looked

-- Where a caller of `IssueToken` is.
pub data Phase : Type 0 where
  outside : Phase
  holding : TokenRequest → Client → Phase
  returned : Result TokenResponse → Phase

pub record Callers (S : Store) : Type 0 where
  pub phases : ℕ → Phase
  pub world : World S

abbrev pub phase_of : TokenRequest → Looked → Phase
phase_of req (refused r) = returned r
phase_of req (found client) = holding req client

abbrev pub at : {S : Store} → Callers S → ℕ → Phase → World S → Callers S
at s i phase w = record { phases = λ j. if eqb i j then phase else s.phases j; world = w }

module _ (p : Platform) (S : Store) (svc : Service) where
  abbrev stop : Result TokenResponse × World S → Looked × World S
  stop (r, w) = (refused r, w)

  -- Up to `s.store.GetClient`.
  unfoldable pub look : TokenRequest → World S → Looked × World S
  look req w =
      let u = (read_clock S svc w).1 in
      if not (req.grant_type == "client_credentials")
      then stop
          (reject p S svc req "invalid_grant" (sentinel invalid_grant) (sentinel invalid_grant) u)
      else elim (check_resource p req.resource) [
        | err e ↦ stop (reject p S svc req "invalid_resource" e e u)
        | ok _ ↦ elim (S.get_client req.client_id u.store) [
          | err _ ↦ stop (
              reject p S svc req "invalid_client" (sentinel invalid_client)
                (sentinel invalid_client) u)
          | ok client ↦ (found client, u)
        ]
      ]

  -- From there to the end.
  unfoldable pub rest_of : TokenRequest → Looked × World S → Result TokenResponse × World S
  rest_of req (refused r, w) = (r, w)
  rest_of req (found client, w) = authorize p S svc client req w

module _ (p : Platform) (S : Store) (svc : Service) (wall : ℕ → Time) where
  -- The first step of a caller, its second one, or a whole call by somebody.
  pub data Move : Type 0 where
    look_up : ℕ → TokenRequest → Move
    finish : ℕ → Move
    whole : Call p S svc wall → Move

  unfoldable pub advance : Move → Callers S → Callers S
  advance (look_up i req) s = elim (s.phases i) [
    | outside ↦ let (l, w) = look p S svc req s.world in at s i (phase_of req l) w
    | holding _ _ ↦ s
    | returned _ ↦ s
  ]
  advance (finish i) s = elim (s.phases i) [
    | outside ↦ s
    | holding req client ↦
        let (r, w) = rest_of p S svc req (found client, s.world) in at s i (returned r) w
    | returned _ ↦ s
  ]
  advance (whole c) s = record s { world = after p S svc wall c s.world }

  -- The states that moves reach, in any order.
  pub data Overlapped (s : Callers S) : Callers S → Type 0 where
    begun : Overlapped s s
    more : {s' : Callers S} → Overlapped s s' → (m : Move) → Overlapped s (advance m s')
