-- ===== src/Provider.antt =====
-- src/toolboundary/provider.py: the data that an authorization passes through, and the protocol
-- of an external provider.
use toolboundary.Common.{ℕ, String, Bool, true, Option}
use toolboundary.Audit.{Metadata}
use toolboundary.Enums.{DecisionType, ViolationReason}
use toolboundary.Json.{Fields}

pub data ProviderMode : Type 0 where
  observe enforce : ProviderMode

pub record FrozenToolCall : Type 0 where
  pub agent_name : String
  pub tool_name : String
  pub operation : Option String
  pub arguments : Fields
  pub resource : Option String
  pub tool_version : Option String
  pub schema_hash : Option String
  pub manifest_hash : Option String
  pub approval_id : Option String
  pub approval_state : Option String
  pub call_digest : String

pub record LocalDecision : Type 0 where
  pub decision : DecisionType
  pub decision_id : String
  pub agent_name : String
  pub tool_name : String
  pub operation : Option String
  pub reason_code : Option ViolationReason
  pub approval_id : Option String
  pub policy_version : Option String

pub record ProviderGrant : Type 0 where
  pub allowed : Bool
  pub provider : String
  pub authorization_id : Option String
  pub attempt_id : Option String
  pub expires_at : Option ℕ
  pub reason : Option String
  pub metadata : Metadata

pub data ExecutionStatus : Type 0 where
  success error unknown : ExecutionStatus

pub record ExecutionRecord : Type 0 where
  pub call_digest : String
  pub status : ExecutionStatus
  pub started_at : ℕ
  pub finished_at : ℕ
  pub result_digest : Option String
  pub error_type : Option String
  pub error_message : Option String
  pub observed_by : String

pub record ProviderReceipt : Type 0 where
  pub recorded : Bool
  pub provider : String
  pub evidence_id : Option String
  pub signature : Option String
  pub metadata : Metadata

-- A mutable object: `mark_consumed` gives its new state. The id that `__post_init__` makes is a
-- fresh uuid, given where the object is made.
pub record AuthorizationContext : Type 0 where
  pub local_decision : LocalDecision
  pub frozen_call : FrozenToolCall
  pub provider_grant : Option ProviderGrant
  pub consumed : Bool
  pub authorization_id : String

unfoldable pub mark_consumed : AuthorizationContext → AuthorizationContext
mark_consumed a = record a { consumed = true }

-- what a call of foreign code gives: a value, or an exception with its text
pub data Attempt (A : Type 0) : Type 0 where
  returns : A → Attempt A
  raises : String → Attempt A

-- The provider is an object of its own: a call changes its state. `authorize` may give `None`
-- against its annotation, which the library tests for.
pub record EvidenceProvider : Type 1 where
  pub State : Type 0
  pub authorize : FrozenToolCall → LocalDecision → State → Attempt (Option ProviderGrant) × State
  pub record_execution : ProviderGrant → ExecutionRecord → State → Attempt ProviderReceipt × State
