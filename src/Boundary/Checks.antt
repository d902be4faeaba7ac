-- ===== src/Boundary/Checks.antt =====
-- The individual checks of src/toolboundary/boundary.py: each raises, or lets the call go on.
use toolboundary.Common.{ℕ, String, Bool, true, false, not, Option, none, some, ltb, if◌then◌else◌}
use toolboundary.Common.Dict.{lookup}
use toolboundary.Common.Text.{member}
use toolboundary.Enums.{AccessMode, AutonomyLevel, ViolationReason}
use toolboundary.Exceptions.{
  Message, ViolationClass, boundary_violation, kill_switch_active, Result, ok, raise, violation,
}
use toolboundary.Permissions.{ToolPermission, operation_allowed}
use toolboundary.Boundary.{Settings, CallContext, kill_switch_engaged}

-- raise cls(message, agent_name=…, tool_name=…, operation=…, rule=…)
abbrev pub deny {ℓ} :
    {A : Type ℓ}
    → ViolationClass
    → Message
    → CallContext
    → Option String
    → ViolationReason
    → Result A
deny class message ctx operation rule = raise (
    violation (record {
      class = class;
      message = message;
      agent_name = ctx.agent_name;
      tool_name = some ctx.tool_name;
      operation = operation;
      rule = some rule;
    }))

unfoldable pub check_kill_switch :
    (String → Option String) → Settings → CallContext → Result (Unit {0})
check_kill_switch environ b ctx =
    if kill_switch_engaged environ b
    then deny kill_switch_active Message.kill_switch_engaged ctx ctx.operation
        ViolationReason.kill_switch_active
    else ok tt

-- `self.autonomy == AutonomyLevel.QUARANTINED`
abbrev pub is_quarantined : AutonomyLevel → Bool
is_quarantined AutonomyLevel.quarantined = true
is_quarantined _ = false

unfoldable pub check_quarantine : Settings → CallContext → Result (Unit {0})
check_quarantine b ctx =
    if is_quarantined b.autonomy
    then deny boundary_violation Message.agent_quarantined ctx ctx.operation
        ViolationReason.agent_quarantined
    else ok tt

-- `now` is the `time.time()` of this check
unfoldable pub check_validity_window : ℕ → Settings → CallContext → Result (Unit {0})
check_validity_window now b ctx =
    if elim b.valid_from [ none ↦ false | some from ↦ ltb now from ]
    then deny boundary_violation Message.not_yet_valid ctx none ViolationReason.outside_valid_period
    else if elim b.valid_to [ none ↦ false | some to ↦ ltb to now ]
    then deny boundary_violation Message.expired ctx none ViolationReason.outside_valid_period
    else ok tt

unfoldable pub check_environment : Settings → CallContext → Result (Unit {0})
check_environment b ctx =
    if elim b.allowed_environments [ none ↦ false | some names ↦ not (member b.environment names) ]
    then deny boundary_violation (Message.environment_not_allowed b.environment) ctx none
        ViolationReason.environment_not_allowed
    else ok tt

unfoldable pub check_global_blocked_operations : Settings → CallContext → Result (Unit {0})
check_global_blocked_operations b ctx = elim ctx.operation [
  | none ↦ ok tt
  | some operation ↦
      if member operation b.blocked_operations
      then deny boundary_violation (Message.globally_blocked operation) ctx ctx.operation
          ViolationReason.operation_blocked
      else ok tt
]

unfoldable pub check_tool_permission : Settings → CallContext → Result ToolPermission
check_tool_permission b ctx = elim (lookup ctx.tool_name b.permissions) [
  | none ↦
      deny boundary_violation (Message.tool_not_permitted ctx.tool_name) ctx none
        ViolationReason.tool_not_allowed
  | some permission ↦ ok permission
]

unfoldable pub check_operation : CallContext → ToolPermission → Result (Unit {0})
check_operation ctx permission =
    if not (operation_allowed permission ctx.operation)
    then deny boundary_violation (Message.operation_not_allowed ctx.operation ctx.tool_name) ctx
        ctx.operation ViolationReason.operation_blocked
    else ok tt

-- the dict `rank`
abbrev pub rank : AccessMode → ℕ
rank AccessMode.read_only = 0
rank AccessMode.write = 1
rank AccessMode.execute = 2
rank AccessMode.admin = 3

unfoldable pub check_access_mode : CallContext → ToolPermission → Result (Unit {0})
check_access_mode ctx permission =
    if ltb (rank permission.access_mode) (rank ctx.access_mode)
    then deny boundary_violation
        (Message.access_mode_exceeded ctx.access_mode permission.access_mode ctx.tool_name) ctx
        ctx.operation ViolationReason.access_mode_exceeded
    else ok tt
