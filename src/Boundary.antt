-- ===== src/Boundary.antt =====
-- src/toolboundary/boundary.py: the state of a `Boundary`, its constructor, the kill switch and
-- the permissions. `S` is the state of its rate limiter, `P` that of its provider.
pub mod Key
pub mod Action
pub mod Checks
pub mod Limits
pub mod Check
pub mod Policy
pub mod Guarantees
pub mod KillSwitch
pub mod Authorize
pub mod Execution
pub mod Budget
pub mod Reach
pub mod Token
use toolboundary.Common.{
  ℕ, String, Bool, true, false, ◌||◌, Option, none, some, List, [], ◌∷◌, ◌==◌, if◌then◌else◌,
}
use toolboundary.Common.Dict.{Dict, lookup, insert}
use toolboundary.Common.Text.{codes, strip, lower, same_codes}
use toolboundary.Enums.{AccessMode, AutonomyLevel}
use toolboundary.Exceptions.{Result, ok, raise, configuration_error, empty_agent_name}
use toolboundary.Numeric.{RawValue}
use toolboundary.Audit.{AuditTrail, Metadata}
use toolboundary.Permissions.{ToolPermission}
use toolboundary.Provider.{ProviderMode}

pub record CallContext : Type 0 where
  pub agent_name : String
  pub tool_name : String
  pub operation : Option String
  pub access_mode : AccessMode
  pub value : Option RawValue
  pub record_count : Option RawValue
  pub correlation_id : Option String
  pub metadata : Metadata

-- what a policy hook does with a call: it returns None or a reason, or it raises
pub data HookAnswer : Type 0 where
  returns : Option String → HookAnswer
  raises : String → HookAnswer

-- a hook with its `repr`
pub record PolicyHook : Type 0 where
  pub shown : String
  pub ask : CallContext → HookAnswer

-- The fields that `__init__` sets from its arguments.
pub record Settings : Type 0 where
  pub agent_name : String
  pub autonomy : AutonomyLevel
  pub permissions : Dict ToolPermission
  pub blocked_operations : List String
  pub allowed_environments : Option (List String)
  pub environment : String
  pub max_actions_per_hour : Option ℕ
  pub kill_switch : Bool
  pub kill_switch_env : Option String
  pub valid_from : Option ℕ
  pub valid_to : Option ℕ
  pub policy_hooks : List PolicyHook
  pub fail_closed_on_hook_error : Bool
  pub strict_limits : Bool
  pub provider_mode : ProviderMode
  pub policy_version : Option String

-- The whole object: the settings, and the state that calls change.
pub record Boundary (S P : Type 0) : Type 0 where
  pub settings : Settings
  pub open settings use *
  pub audit : AuditTrail
  pub rate_limiter : S
  -- `self._provider`
  pub provider : Option P

-- `{p.tool_name: p for p in permissions}`
unfoldable pub permissions_of : List ToolPermission → Dict ToolPermission → Dict ToolPermission
permissions_of [] d = d
permissions_of (p ∷ ps) d = permissions_of ps (insert p.tool_name p d)

-- `Boundary.__init__`, on the settings with an empty table and the list of permissions
unfoldable pub init :
    {S P : Type 0}
    → Settings
    → List ToolPermission
    → AuditTrail
    → S
    → Option P
    → Result (Boundary S P)
unfolding permissions_of
init settings permissions audit limiter provider =
    if settings.agent_name == ""
    then raise (configuration_error empty_agent_name)
    else ok (record {
      settings = record settings { permissions = permissions_of permissions [] };
      audit = audit;
      rate_limiter = limiter;
      provider = provider;
    })

-- `val.strip().lower() in {"1", "true", "yes", "on"}`
unfoldable pub is_truthy_setting : String → Bool
unfolding strip lower same_codes
is_truthy_setting val =
    let v = lower (strip (codes val)) in
    same_codes v (codes "1")
    || same_codes v (codes "true")
    || same_codes v (codes "yes")
    || same_codes v (codes "on")

-- `os.environ.get(name, "")`
unfoldable pub environ_get : (String → Option String) → String → String
environ_get environ name = elim (environ name) [ none ↦ "" | some val ↦ val ]

-- `kill_switch_engaged`, read in the environment of the call
unfoldable pub kill_switch_engaged : (String → Option String) → Settings → Bool
unfolding environ_get is_truthy_setting
kill_switch_engaged environ b = if b.kill_switch then true else elim b.kill_switch_env [
  | none ↦ false
  | some name ↦ if name == "" then false else is_truthy_setting (environ_get environ name)
]

module _ {S P : Type 0} where
  unfoldable pub engage_kill_switch : Boundary S P → Boundary S P
  engage_kill_switch b = record b { settings = record b.settings { kill_switch = true } }

  unfoldable pub disengage_kill_switch : Boundary S P → Boundary S P
  disengage_kill_switch b = record b { settings = record b.settings { kill_switch = false } }

  unfoldable pub add_permission : ToolPermission → Boundary S P → Boundary S P
  add_permission p b = record b {
    settings = record b.settings { permissions = insert p.tool_name p b.permissions };
  }

  unfoldable pub get_permission : String → Boundary S P → Option ToolPermission
  get_permission tool_name b = lookup tool_name b.permissions
