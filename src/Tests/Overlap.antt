-- ===== src/Tests/Overlap.antt =====
-- The theorem on calls that overlap: a client is registered between the two steps of an issue.
use go_oauth_client_credenti.Common.{some}
use go_oauth_client_credenti.Oauth2.Store.Memory.{memory_store}
use go_oauth_client_credenti.Oauth2.Store.Refines.{memory_maps, memory_lawful}
use go_oauth_client_credenti.Oauth2.Service.Lifecycle.Reachable.{register, revoke}
use go_oauth_client_credenti.Oauth2.Service.Lifecycle.Consistent.{IsConsistent}
use go_oauth_client_credenti.Oauth2.Service.Overlap.{
  Callers, outside, Move, look_up, finish, whole, advance, begun, more,
}
use go_oauth_client_credenti.Oauth2.Service.Overlap.Sound.{Overlapped-IsConsistent}
use go_oauth_client_credenti.Tests.Fixtures.{
  platform, service, world, clock, token_request, register_request,
}
use go_oauth_client_credenti.Tests.Lifecycle.{IsConsistent-store}

abbrev Moved : Type 0
Moved = Move platform memory_store service clock

abbrev go : Moved → Callers memory_store → Callers memory_store
go = advance platform memory_store service clock

abbrev idle : Callers memory_store
idle = record { phases = λ _. outside; world = world }

abbrev last : Callers memory_store
last = go (finish 0) (
    go (whole (revoke "opq_Zm9v"))
      (go (whole (register (some register_request))) (go (look_up 0 token_request) idle)))

Overlapped-IsConsistent_example : IsConsistent (memory_maps last.world.store)
Overlapped-IsConsistent_example =
    Overlapped-IsConsistent platform memory_store memory_lawful service clock world last
      IsConsistent-store
      (more
        (more
          (more (more begun (look_up 0 token_request)) (whole (register (some register_request))))
          (whole (revoke "opq_Zm9v")))
        (finish 0))
