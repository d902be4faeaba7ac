-- ===== src/Exceptions.antt =====
-- src/toolboundary/exceptions.py: the exceptions as values. A message is kept as its template
-- with the values that the source formats into it, not as rendered text.
use toolboundary.Common.{ℕ, String, Option, none, some, ◌==◌, if◌then◌else◌}
use toolboundary.Common.Int.{ℤ}
use toolboundary.Enums.{AccessMode, AutonomyLevel, ViolationReason}
use toolboundary.Numeric.{Float, RawValue}

pub data Message : Type 0 where
  kill_switch_engaged agent_quarantined not_yet_valid expired : Message
  environment_not_allowed globally_blocked tool_not_permitted : String → Message
  operation_not_allowed : Option String → String → Message
  access_mode_exceeded : AccessMode → AccessMode → String → Message
  value_required : String → Message
  not_a_finite_number : RawValue → String → Message
  below_min_value above_max_value : Float → Float → String → Message
  records_required : String → Message
  not_a_count : RawValue → Message
  above_max_records : Float → ℤ → String → Message
  global_limit_exceeded : ℕ → Message
  tool_limit_exceeded : String → ℕ → Message
  hook_raised : String → String → Message
  plain : String → Message
  approval_needed : String → Option String → AutonomyLevel → Message
  empty_agent_name token_issuer_missing authorization_consumed : Message
  provider_unavailable : String → Message
  provider_denied : Option String → Message
  call_allowed : String → Option String → Message
  call_authorized : String → Option String → String → Message
  execution_recorded : String → Message
  -- `BoundaryViolation.__str__`: the message with the fields that are set
  in_context : Message → String → Option String → Option String → Option ViolationReason → Message

-- the subclasses of BoundaryViolation, and the class itself
pub data ViolationClass : Type 0 where
  boundary_violation kill_switch_active rate_limit_exceeded : ViolationClass

pub record Violation : Type 0 where
  pub class : ViolationClass
  pub message : Message
  pub agent_name : String
  pub tool_name : Option String
  pub operation : Option String
  pub rule : Option ViolationReason

-- what `if self.tool_name:` lets through
abbrev pub truthy : Option String → Option String
truthy none = none
truthy (some s) = if s == "" then none else some s

unfoldable pub violation_text : Violation → Message
violation_text v =
    in_context v.message v.agent_name (truthy v.tool_name) (truthy v.operation) v.rule

pub record Approval : Type 0 where
  pub message : Message
  pub agent_name : String
  pub tool_name : String
  pub operation : Option String
  pub approval_id : Option String

pub record ProviderFailure : Type 0 where
  pub message : Message
  pub agent_name : String
  pub tool_name : String
  pub operation : Option String
  pub provider : Option String
  pub reason : Option String

pub data Error : Type 0 where
  violation : Violation → Error
  approval_required : Approval → Error
  configuration_error : Message → Error
  denied_by_provider : ProviderFailure → Error
  unavailable_provider : ProviderFailure → Error
  consumed : Message → Error

-- what a call that may raise gives
pub data Result {ℓ} (A : Type ℓ) : Type ℓ where
  ok : A → Result A
  raise : Error → Result A
