-- ===== src/Enums.antt =====
-- src/toolboundary/enums.py: the vocabulary of autonomy levels, access modes, decisions and
-- reason codes. The enums are closed, so each is a data type with the source's members.
pub data AutonomyLevel : Type 0 where
  recommend_only human_approval_required limited_autonomous autonomous quarantined : AutonomyLevel

pub data AccessMode : Type 0 where
  read_only write execute admin : AccessMode

pub data DecisionType : Type 0 where
  allow deny approval_required : DecisionType

pub data ViolationReason : Type 0 where
  kill_switch_active agent_quarantined tool_not_allowed operation_blocked : ViolationReason
  access_mode_exceeded rate_limit_exceeded max_value_exceeded max_records_exceeded : ViolationReason
  outside_valid_period environment_not_allowed data_classification_denied : ViolationReason
  approval_required unknown_tool policy_hook_denied invalid_value : ViolationReason
  min_value_violated value_required records_required : ViolationReason
