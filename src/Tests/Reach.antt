-- ===== src/Tests/Reach.antt =====
-- A boundary with a provider: after three calls, and with its kill switch engaged.
use toolboundary.Common.{◌≡◌, Bool, true, arith}
use toolboundary.Provider.{enforce}
use toolboundary.RateLimiter.{SlidingWindow}
use toolboundary.RateLimiter.Contract.{in_memory, in_memory_laws}
use toolboundary.Exceptions.{Violation, violation, kill_switch_active, raise}
use toolboundary.Boundary.{Boundary, engage_kill_switch, add_permission}
use toolboundary.Boundary.KillSwitch.{SwitchedOff}
use toolboundary.Boundary.Reach.Halting.{LeavesAll, stays_halted}
use toolboundary.Boundary.Limits.{hour}
use toolboundary.Boundary.Check.{check}
use toolboundary.Boundary.Authorize.{authorize_call}
use toolboundary.Boundary.Reach.{Reach, here, next, checked, authorized, permitted, Grown}
use toolboundary.Boundary.Reach.Invariant.{reachable_keeps}
use toolboundary.Tests.Data.{
  parsing, hashing, provided, switched_provider, search_call, search_permission, at_seven,
  authorize_search, authorize_at_seven, one_sink,
}
use toolboundary.Tests.Local.{no_calls-Valid}

abbrev first : Boundary SlidingWindow Bool
first = (check parsing in_memory at_seven search_call (provided enforce true)).1

abbrev second : Boundary SlidingWindow Bool
second =
    (authorize_call hashing parsing in_memory switched_provider authorize_search authorize_at_seven
      first).1

abbrev third : Boundary SlidingWindow Bool
third = add_permission search_permission second

three_calls : Reach hashing parsing in_memory switched_provider 7 (provided enforce true) 7 third
three_calls =
    next _ _ _ _ _ _
      (checked 7 at_seven search_call (provided enforce true) (omega arith, omega arith))
      (next _ _ _ _ _ _
        (authorized 7 authorize_search authorize_at_seven first (omega arith, omega arith))
        (next _ _ _ _ _ _ (permitted 7 search_permission second) (here _ _)))

reachable_keeps_example :
    (in_memory_laws hour).Valid third.rate_limiter 7 × Grown one_sink.sinks third.audit.sinks
reachable_keeps_example =
    reachable_keeps hashing parsing in_memory switched_provider hour (in_memory_laws hour) 7 7
      (provided enforce true) third three_calls no_calls-Valid

abbrev halted : Boundary SlidingWindow Bool
halted = engage_kill_switch (provided enforce true)

abbrev later : Boundary SlidingWindow Bool
later = add_permission search_permission (
    (authorize_call hashing parsing in_memory switched_provider authorize_search authorize_at_seven
      halted).1)

abbrev two_calls : Reach hashing parsing in_memory switched_provider 7 halted 7 later
two_calls =
    next _ _ _ _ _ _
      (authorized 7 authorize_search authorize_at_seven halted (omega arith, omega arith))
      (next _ _ _ _ _ _ (permitted 7 search_permission _) (here _ _))

two_calls-LeavesAll :
    LeavesAll hashing parsing in_memory switched_provider 7 7 halted later two_calls
two_calls-LeavesAll = (tt, (tt, tt))

stays_halted_example :
    let (outcome, b') =
      authorize_call hashing parsing in_memory switched_provider authorize_search authorize_at_seven
        later in
    SwitchedOff parsing in_memory at_seven search_call later
    × ((v : Violation) × (outcome ≡ raise (violation v)) × (v.class ≡ kill_switch_active))
    × (b'.rate_limiter ≡ later.rate_limiter)
    × (b'.provider ≡ later.provider)
stays_halted_example =
    stays_halted hashing parsing in_memory switched_provider 7 7 (provided enforce true) later
      two_calls two_calls-LeavesAll authorize_search authorize_at_seven
