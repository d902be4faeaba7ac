-- ===== src/Boundary/Execution/Guarantees.antt =====
-- What `record_execution` guarantees: one recording for each authorization, and local evidence
-- that no provider can undo.
use toolboundary.Common.{◌≡◌, refl, Bool, false, Option, none, some, map, arith, ap, if◌then◌else◌}
use toolboundary.Audit.{AuditEvent, AuditTrail, event_of, emit, record_event}
use toolboundary.Exceptions.{Message, consumed, Result, ok, raise}
use toolboundary.Evidence.{Hashing}
use toolboundary.Provider.{
  ProviderGrant, ExecutionRecord, ProviderReceipt, AuthorizationContext, mark_consumed,
  EvidenceProvider,
}
use toolboundary.Boundary.{Boundary}
use toolboundary.Boundary.Execution.{
  Dispatch, execution_of, execution_entry, report, record_execution, status_text,
}

module _ {S : Type 0} (P : EvidenceProvider) where
  report-audit :
      (o : Option ProviderGrant) (e : ExecutionRecord) (b : Boundary S P.State)
      → (report P o e b).1.audit ≡ b.audit
  unfolding report
  report-audit none e b = refl
  report-audit (some g) e b = ground arith

module _ (H : Hashing) {S : Type 0} (P : EvidenceProvider) (d : Dispatch)
    (a : AuthorizationContext) where
  -- the run of an authorization that is not consumed
  abbrev recording :
      Boundary S P.State
      → Result (Option ProviderReceipt) × AuthorizationContext × Boundary S P.State
  recording b =
      let e = execution_of H d a in
      let (receipt, b') = report P a.provider_grant e (record b {
        audit = (record_event d.stamp (execution_entry b.settings d a e) b.audit).1;
      }) in
      (ok receipt, mark_consumed a, b')

  record-fresh :
      (b : Boundary S P.State) → a.consumed ≡ false → record_execution H P d a b ≡ recording b
  unfolding record_execution
  record-fresh b fresh =
      ap
        (λ (c : Bool).
          if c then (raise (consumed Message.authorization_consumed), a, b) else recording b)
        fresh

  -- Recording an execution for an authorization that is not consumed returns, whether or not the
  -- provider raises; it consumes the authorization and hands exactly one event to each sink, with
  -- the status and the frozen call of the execution. Every later recording for that authorization
  -- raises AuthorizationConsumed and changes nothing: no event, and the provider is not asked.
  pub recorded_once :
      (b : Boundary S P.State)
      → a.consumed ≡ false
      → let (outcome, a', b') = record_execution H P d a b in
        ((receipt : Option ProviderReceipt) × (outcome ≡ ok receipt))
        × ((e : AuditEvent) × (b'.audit.sinks ≡ map (emit e) b.audit.sinks)
            × (e.message ≡ Message.execution_recorded (status_text (execution_of H d a).status))
            × (e.tool_name ≡ some a.frozen_call.tool_name)
            × (e.operation ≡ a.frozen_call.operation))
        × ((d' : Dispatch) (b'' : Boundary S P.State)
            → record_execution H P d' a' b''
              ≡ (raise (consumed Message.authorization_consumed), a', b''))
  unfolding record_event mark_consumed record_execution
  recorded_once b fresh =
      let e = execution_of H d a in
      let audited = record b {
        audit = (record_event d.stamp (execution_entry b.settings d a e) b.audit).1;
      } in
      rw (record-fresh b fresh) (
        ((report P a.provider_grant e audited).0, refl),
        (
          event_of d.stamp (execution_entry b.settings d a e),
          ap (λ (t : AuditTrail). t.sinks) (report-audit P a.provider_grant e audited),
          refl,
          refl,
          refl,
        ),
        λ d' b''. refl,
      )
