-- ===== src/Boundary/Reach.antt =====
-- What the calls of a boundary of src/toolboundary/boundary.py do to its state, in any order: the
-- reachable states, what holds of them all, and of those after `engage_kill_switch`.
pub mod Steps
pub mod Invariant
pub mod Halting
use toolboundary.Common.{ℕ, ◌≤◌, ◌≡◌, String, List, [], ◌∷◌, ◌++◌, map, Option}
use toolboundary.Audit.{Sink, AuditEvent}
use toolboundary.Numeric.{FloatParsing}
use toolboundary.Permissions.{ToolPermission}
use toolboundary.Evidence.{Hashing}
use toolboundary.Provider.{AuthorizationContext, EvidenceProvider}
use toolboundary.RateLimiter.Interface.{RateLimiter, SlidingWindowLaws}
use toolboundary.Boundary.{Boundary, engage_kill_switch, disengage_kill_switch, add_permission}
use toolboundary.Boundary.Check.{Call, Moment, check, evaluate}
use toolboundary.Boundary.Authorize.{AuthorizeCall, AuthorizeMoment, authorize_call}
use toolboundary.Boundary.Execution.{Dispatch, record_execution}
use toolboundary.Boundary.Limits.{hour}

-- the limiter's readings in one call follow each other, and those of the calls before
abbrev pub InTurn : ℕ → Moment → Type 0
InTurn now m = (now ≤ m.global_now) × (m.global_now ≤ m.tool_now)

module _ (H : Hashing) (F : FloatParsing) (L : RateLimiter) (P : EvidenceProvider) where
  abbrev pub State : Type 0
  State = Boundary L.State P.State

  -- one call, from the limiter's latest reading and a state to the next ones
  pub data Step : ℕ → State → ℕ → State → Type 0 where
    checked :
        (now : ℕ) (m : Moment) (c : Call) (b : State)
        → InTurn now m
        → Step now b m.tool_now (check F L m c b).1
    evaluated :
        (now : ℕ) (m : Moment) (c : Call) (b : State)
        → InTurn now m
        → Step now b m.tool_now (evaluate F L m c b).1
    authorized :
        (now : ℕ) (a : AuthorizeCall) (m : AuthorizeMoment) (b : State)
        → InTurn now m.moment
        → Step now b m.moment.tool_now (authorize_call H F L P a m b).1
    executed :
        (now : ℕ) (d : Dispatch) (a : AuthorizationContext) (b : State)
        → Step now b now (record_execution H P d a b).2
    engaged : (now : ℕ) (b : State) → Step now b now (engage_kill_switch b)
    disengaged : (now : ℕ) (b : State) → Step now b now (disengage_kill_switch b)
    permitted : (now : ℕ) (p : ToolPermission) (b : State) → Step now b now (add_permission p b)

  -- any number of calls
  pub data Reach : ℕ → State → ℕ → State → Type 0 where
    here : (now : ℕ) (b : State) → Reach now b now b
    next :
        (now : ℕ) (b : State) (now' : ℕ) (b' : State) (now'' : ℕ) (b'' : State)
        → Step now b now' b'
        → Reach now' b' now'' b''
        → Reach now b now'' b''

-- a sink has lost nothing of what it took, and is otherwise the same
abbrev pub HasKept : Sink → Sink → Type 0
HasKept s s' = (s'.raises ≡ s.raises) × ((new : List AuditEvent) × (s'.emitted ≡ s.emitted ++ new))

-- the same sinks, in the same order
abbrev pub Grown : List Sink → List Sink → Type 0
Grown [] sinks' = sinks' ≡ []
Grown (s ∷ sinks) [] = ⊥
Grown (s ∷ sinks) (s' ∷ sinks') = HasKept s s' × Grown sinks sinks'
