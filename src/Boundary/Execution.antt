-- ===== src/Boundary/Execution.antt =====
-- `Boundary.record_execution` of src/toolboundary/boundary.py: evidence of a dispatched call.
pub mod Guarantees
use toolboundary.Common.{ℕ, String, Bool, true, false, Option, none, some, List, if◌then◌else◌}
use toolboundary.Common.Dict.{insert}
use toolboundary.Enums.{DecisionType}
use toolboundary.Exceptions.{Message, consumed, truthy, Result, ok, raise}
use toolboundary.Audit.{Metadata, MetaValue, text, Entry, Stamp, record_event}
use toolboundary.Evidence.{Hashing, PyError, ToolResult, build_execution_record}
use toolboundary.Provider.{
  ProviderGrant, ExecutionRecord, ExecutionStatus, success, error, unknown, ProviderReceipt,
  AuthorizationContext, mark_consumed, Attempt, returns, raises, EvidenceProvider,
}
use toolboundary.Boundary.{Settings, Boundary}

abbrev pub status_text : ExecutionStatus → String
status_text success = "success"
status_text error = "error"
status_text unknown = "unknown"

-- the arguments of `record_execution`, with the stamp of its audit event
pub record Dispatch : Type 0 where
  pub result : ToolResult
  pub error : Option PyError
  pub started_at : ℕ
  pub finished_at : ℕ
  pub correlation_id : Option String
  pub stamp : Stamp

-- `exec_metadata`
unfoldable pub execution_metadata : AuthorizationContext → ExecutionRecord → Metadata
execution_metadata a e =
    let base = insert "execution_status" (text (status_text e.status)) (
      insert "decision_id" (text a.local_decision.decision_id)
        (insert "call_digest" (text a.frozen_call.call_digest) List.[])) in
    let digested : Metadata = elim (truthy e.result_digest) [
      | none ↦ base
      | some digest ↦ insert "result_digest" (text digest) base
    ] in
    elim a.provider_grant [
      | none ↦ digested
      | some g ↦ insert "provider" (text g.provider) digested
    ]

abbrev pub execution_entry : Settings → Dispatch → AuthorizationContext → ExecutionRecord → Entry
execution_entry b d a e = record {
  agent_name = b.agent_name;
  decision = DecisionType.allow;
  message = Message.execution_recorded (status_text e.status);
  tool_name = some a.frozen_call.tool_name;
  operation = a.frozen_call.operation;
  access_mode = none;
  reason_code = none;
  correlation_id = d.correlation_id;
  metadata = execution_metadata a e;
}

-- the receipt that is returned when the provider raises
abbrev pub unrecorded : ProviderGrant → String → ProviderReceipt
unrecorded g exc = record {
  recorded = false;
  provider = g.provider;
  evidence_id = none;
  signature = none;
  metadata = insert "error" (text exc) List.[];
}

-- `try: return self._provider.record(…)`, `except Exception`
unfoldable pub receipt_of : ProviderGrant → Attempt ProviderReceipt → ProviderReceipt
receipt_of g (returns receipt) = receipt
receipt_of g (raises exc) = unrecorded g exc

-- the evidence of the dispatch
abbrev pub execution_of : Hashing → Dispatch → AuthorizationContext → ExecutionRecord
execution_of H d a =
    build_execution_record H a.frozen_call.call_digest d.started_at d.finished_at d.result d.error

module _ {S : Type 0} (P : EvidenceProvider) where
  -- the end of `record_execution`: the provider is asked if there is one and it gave a grant
  unfoldable pub report :
      Option ProviderGrant
      → ExecutionRecord
      → Boundary S P.State
      → Option ProviderReceipt × Boundary S P.State
  unfolding receipt_of
  report none e b = (none, b)
  report (some g) e b = elim b.provider [
    | none ↦ (none, b)
    | some p ↦
        let (attempt, p') = P.record_execution g e p in
        (some (receipt_of g attempt), record b { provider = some p' })
  ]

module _ (H : Hashing) {S : Type 0} (P : EvidenceProvider) where
  -- the result, the authorization as it is left, and the boundary
  unfoldable pub record_execution :
      Dispatch
      → AuthorizationContext
      → Boundary S P.State
      → Result (Option ProviderReceipt) × AuthorizationContext × Boundary S P.State
  unfolding mark_consumed report
  record_execution d a b =
      if a.consumed
      then (raise (consumed Message.authorization_consumed), a, b)
      else (let e = execution_of H d a in
          let (receipt, b') = report P a.provider_grant e (record b {
            audit = (record_event d.stamp (execution_entry b.settings d a e) b.audit).1;
          }) in
          (ok receipt, mark_consumed a, b'))
