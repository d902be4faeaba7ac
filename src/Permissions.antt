-- ===== src/Permissions.antt =====
-- src/toolboundary/permissions.py: what an agent may do with one named tool.
use toolboundary.Common.{ℕ, String, Bool, true, false, Option, none, some, List, if◌then◌else◌}
use toolboundary.Common.Int.{ℤ}
use toolboundary.Common.Text.{member}
use toolboundary.Enums.{AccessMode}
use toolboundary.Numeric.{Float}

pub record ToolPermission : Type 0 where
  pub tool_name : String
  pub access_mode : AccessMode
  pub allowed_operations : Option (List String)
  pub blocked_operations : List String
  pub max_calls_per_hour : Option ℕ
  pub max_value : Option Float
  pub min_value : Option Float
  pub max_records : Option ℤ
  pub requires_approval : Bool

unfoldable pub operation_allowed : ToolPermission → Option String → Bool
operation_allowed p none = elim p.allowed_operations [ none ↦ true | some names ↦ false ]
operation_allowed p (some operation) =
    if member operation p.blocked_operations
    then false
    else elim p.allowed_operations [ none ↦ true | some names ↦ member operation names ]
