-- ===== src/Boundary/Policy.antt =====
-- What a boundary permits, written as statements and not as the code's tests.
pub mod Switch
pub mod Static
pub mod Amounts
pub mod Decision
use toolboundary.Common.{
  ℕ, ◌≤◌, String, ◌≡◌, ◌≢◌, ◌⊎◌, Bool, true, false, Option, none, some, List, All,
}
use toolboundary.Common.Dict.{lookup}
use toolboundary.Common.Int.{ℤ, pos, ◌≤ℤ◌}
use toolboundary.Common.Names.{In}
use toolboundary.Common.Text.{codes, strip, lower}
use toolboundary.Enums.{AccessMode, AutonomyLevel}
use toolboundary.Numeric.{
  Float, lt, above_int, is_integer, float_zero, RawValue, FloatParsing, as_finite_number,
}
use toolboundary.Permissions.{ToolPermission}
use toolboundary.Boundary.{Settings, CallContext, HookAnswer, returns, raises, PolicyHook}
use toolboundary.Boundary.Checks.{rank}
use toolboundary.Boundary.Check.{Call, Moment, context}

-- A text that switches a setting on: one of four words, in capitals or not, between spaces.
abbrev pub SaysYes : String → Type 0
SaysYes val =
    let word = lower (strip (codes val)) in
    (word ≡ codes "1") ⊎ (word ≡ codes "true") ⊎ (word ≡ codes "yes") ⊎ (word ≡ codes "on")

-- The agent is halted: by the flag, or by the environment variable that has been named for it.
pub data Halted (environ : String → Option String) (b : Settings) : Type 0 where
  by_flag : b.kill_switch ≡ true → Halted environ b
  by_variable :
      (name val : String)
      → b.kill_switch_env ≡ some name
      → name ≢ ""
      → environ name ≡ some val
      → SaysYes val
      → Halted environ b

-- The operation of a call, under one permission: never a blocked one; where operations are
-- listed, a named one of the list.
pub record OperationAllowed (p : ToolPermission) (operation : Option String) : Type 0 where
  pub unblocked : (op : String) → operation ≡ some op → ¬ (In op p.blocked_operations)
  pub listed :
      (names : List String)
      → p.allowed_operations ≡ some names
      → (op : String) × (operation ≡ some op) × In op names

-- A number within the limits that are set; a comparison with a NaN limit is false.
pub record WithinLimits (p : ToolPermission) (x : Float) : Type 0 where
  pub not_below : (low : Float) → p.min_value ≡ some low → lt x low ≡ false
  pub not_above : (high : Float) → p.max_value ≡ some high → lt high x ≡ false

-- The amount of a call: under strict limits it is there if max_value is set; if it is there and
-- a limit is set, it is a finite number within the limits.
abbrev pub ValueAllowed : FloatParsing → Bool → ToolPermission → Option RawValue → Type 0
ValueAllowed F strict p none = strict ≡ true → p.max_value ≡ none
ValueAllowed F strict p (some raw) =
    ((p.max_value ≡ none) × (p.min_value ≡ none))
    ⊎ ((x : Float) × (as_finite_number F raw ≡ some x) × WithinLimits p x)

-- The number of records: under strict limits it is there if max_records is set; if both are
-- there, it is a whole number from 0 to max_records.
abbrev pub RecordsAllowed : FloatParsing → Bool → ToolPermission → Option RawValue → Type 0
RecordsAllowed F strict p none = strict ≡ true → p.max_records ≡ none
RecordsAllowed F strict p (some raw) =
    (most : ℤ)
    → p.max_records ≡ some most
    → (x : Float) × (as_finite_number F raw ≡ some x)
      × (lt x float_zero ≡ false)
      × (is_integer x ≡ true)
      × (above_int x most ≡ false)

-- A hook lets a call go on: it gives None or an empty reason, or it raises and the boundary was
-- told not to fail closed.
abbrev pub HookAllows : Bool → HookAnswer → Type 0
HookAllows fail_closed (returns none) = Unit
HookAllows fail_closed (returns (some reason)) = reason ≡ ""
HookAllows fail_closed (raises exc) = fail_closed ≡ false

-- No human has to approve the call.
pub record NeedsNoApproval (level : AutonomyLevel) (mode : AccessMode) (p : ToolPermission)
    : Type 0 where
  pub not_asked : p.requires_approval ≡ false
  pub not_by_level : level ≢ AutonomyLevel.human_approval_required
  pub only_reads : level ≡ AutonomyLevel.recommend_only → mode ≡ AccessMode.read_only

-- Everything but the rate limits.
pub record Permits (F : FloatParsing) (m : Moment) (b : Settings) (c : Call) : Type 0 where
  pub permission : ToolPermission
  pub alive : ¬ (Halted m.environ b)
  pub active : b.autonomy ≢ AutonomyLevel.quarantined
  pub begun : (t : ℕ) → b.valid_from ≡ some t → t ≤ m.wall
  pub unexpired : (t : ℕ) → b.valid_to ≡ some t → m.wall ≤ t
  pub placed : (names : List String) → b.allowed_environments ≡ some names → In b.environment names
  pub unblocked : (op : String) → c.operation ≡ some op → ¬ (In op b.blocked_operations)
  pub listed : lookup c.tool_name b.permissions ≡ some permission
  pub operation : OperationAllowed permission c.operation
  pub access : rank c.access_mode ≤ rank permission.access_mode
  pub value : ValueAllowed F b.strict_limits permission c.value
  pub records : RecordsAllowed F b.strict_limits permission c.record_count
  pub hooks :
      All
        (λ (h : PolicyHook). HookAllows b.fail_closed_on_hook_error (h.ask (context b c)))
        b.policy_hooks
  pub unattended : NeedsNoApproval b.autonomy c.access_mode permission
