-- ===== src/Boundary/Authorize.antt =====
-- `Boundary.authorize_call` of src/toolboundary/boundary.py: the local check, the frozen call and
-- the external provider.
pub mod Answers
pub mod Binding
pub mod Guarantees
use Prim.Native.String.{◌++◌}
use toolboundary.Common.{ℕ, String, Bool, true, false, Option, none, some, List, if◌then◌else◌}
use toolboundary.Common.Dict.{insert}
use toolboundary.Enums.{DecisionType}
use toolboundary.Exceptions.{
  Message, ProviderFailure, denied_by_provider, unavailable_provider, consumed, truthy, Result, ok,
  raise,
}
use toolboundary.Audit.{Metadata, MetaValue, text, flag, Entry, Stamp, record_event}
use toolboundary.Evidence.{Hashing, PyError, ToolResult, freeze_with_digest, build_execution_record}
use toolboundary.Json.{Fields}
use toolboundary.Numeric.{FloatParsing}
use toolboundary.Provider.{
  ProviderMode, observe, enforce, FrozenToolCall, LocalDecision, ProviderGrant, ExecutionRecord,
  ExecutionStatus, success, error, unknown, ProviderReceipt, AuthorizationContext, mark_consumed,
  Attempt, returns, raises, EvidenceProvider,
}
use toolboundary.RateLimiter.Interface.{RateLimiter}
use toolboundary.Boundary.{Settings, Boundary}
use toolboundary.Boundary.Check.{Call, Moment, allow_decision, check}

-- the arguments of `authorize_call`: those that it hands to `check`, and those of the frozen call
pub record AuthorizeCall : Type 0 where
  pub call : Call
  pub open call use *
  pub arguments : Fields
  pub resource : Option String
  pub tool_version : Option String
  pub schema_hash : Option String
  pub manifest_hash : Option String
  pub approval_id : Option String
  pub approval_state : Option String

-- What the call reads: what `check` reads, with the id of the local decision; the stamp of the
-- second audit event; and the id that the authorization gets.
pub record AuthorizeMoment : Type 0 where
  pub moment : Moment
  pub stamp : Stamp
  pub authorization_id : String

abbrev pub frozen_call : Settings → AuthorizeCall → FrozenToolCall
frozen_call b a = record {
  agent_name = b.agent_name;
  tool_name = a.tool_name;
  operation = a.operation;
  arguments = a.arguments;
  resource = a.resource;
  tool_version = a.tool_version;
  schema_hash = a.schema_hash;
  manifest_hash = a.manifest_hash;
  approval_id = a.approval_id;
  approval_state = a.approval_state;
  call_digest = "";
}

abbrev pub failure :
    Settings → AuthorizeCall → Message → Option String → Option String → ProviderFailure
failure b a message provider reason = record {
  message = message;
  agent_name = b.agent_name;
  tool_name = a.tool_name;
  operation = a.operation;
  provider = provider;
  reason = reason;
}

-- the grant that stands in for an unavailable provider in observe mode
abbrev pub degraded_grant : String → ProviderGrant
degraded_grant exc = record {
  allowed = true;
  provider = "unavailable";
  authorization_id = none;
  attempt_id = none;
  expires_at = none;
  reason = some ("Provider unavailable (observe mode): " ++ exc);
  metadata = insert "evidence_degraded" (flag true) List.[];
}

-- `if x: metadata[key] = x`
abbrev pub insert_truthy : String → Option String → Metadata → Metadata
insert_truthy key v m = elim (truthy v) [ none ↦ m | some s ↦ insert key (text s) m ]

-- step 8: the metadata of the second event
unfoldable pub evidence_metadata : Metadata → String → String → Option ProviderGrant → Metadata
evidence_metadata metadata digest decision_id none =
    insert "decision_id" (text decision_id) (insert "call_digest" (text digest) metadata)
evidence_metadata metadata digest decision_id (some g) =
    insert_truthy "authorization_id" g.authorization_id (
      insert_truthy "attempt_id" g.attempt_id (
        insert "provider_decision" (text (if g.allowed then "allow" else "deny")) (
          insert "provider" (text g.provider) (
            insert "decision_id" (text decision_id)
              (insert "call_digest" (text digest) metadata)))))

abbrev pub provider_name : Option ProviderGrant → String
provider_name none = "none"
provider_name (some g) = g.provider

module _ (a : AuthorizeCall) (m : AuthorizeMoment) (frozen : FrozenToolCall) where
  -- the AuthorizationContext of steps 5 and 8
  abbrev pub authorization : Settings → Option ProviderGrant → AuthorizationContext
  authorization b grant = record {
    local_decision = allow_decision m.moment.decision_id b a.call;
    frozen_call = frozen;
    provider_grant = grant;
    consumed = false;
    authorization_id = m.authorization_id;
  }

  abbrev pub authorized_entry : Settings → Option ProviderGrant → Entry
  authorized_entry b grant = record {
    agent_name = b.agent_name;
    decision = DecisionType.allow;
    message = Message.call_authorized a.tool_name a.operation (provider_name grant);
    tool_name = some a.tool_name;
    operation = a.operation;
    access_mode = some a.access_mode;
    reason_code = none;
    correlation_id = a.correlation_id;
    metadata = evidence_metadata a.metadata frozen.call_digest m.moment.decision_id grant;
  }

module _ {S P : Type 0} (a : AuthorizeCall) (m : AuthorizeMoment) (frozen : FrozenToolCall) where
  -- step 8 and the return
  unfoldable pub conclude :
      Option ProviderGrant → Boundary S P → Result AuthorizationContext × Boundary S P
  conclude grant b = (
    ok (authorization a m frozen b.settings grant),
    record b {
      audit = (record_event m.stamp (authorized_entry a m frozen b.settings grant) b.audit).1;
    },
  )

  -- steps 6 and 7, on what the provider gave
  unfoldable pub weigh :
      ProviderMode
      → Attempt (Option ProviderGrant)
      → Boundary S P
      → Result AuthorizationContext × Boundary S P
  unfolding conclude
  weigh enforce (raises exc) b = (
    raise
        (unavailable_provider (failure b.settings a (Message.provider_unavailable exc) none none)),
    b,
  )
  weigh observe (raises exc) b = conclude (some (degraded_grant exc)) b
  weigh mode (returns none) b = conclude none b
  weigh observe (returns (some g)) b = conclude (some g) b
  weigh enforce (returns (some g)) b = if g.allowed then conclude (some g) b else (
    raise (
        denied_by_provider
          (failure b.settings a (Message.provider_denied g.reason) (some g.provider) g.reason)),
    b,
  )

module _ (H : Hashing) (F : FloatParsing) (L : RateLimiter) (P : EvidenceProvider) where
  -- steps 2 to 8, on a boundary whose `check` has passed
  unfoldable pub authorize_allowed :
      AuthorizeCall
      → AuthorizeMoment
      → Boundary L.State P.State
      → Result AuthorizationContext × Boundary L.State P.State
  authorize_allowed a m b =
      let frozen = freeze_with_digest H (frozen_call b.settings a) in
      elim b.provider [
        | none ↦ (ok (authorization a m frozen b.settings none), b)
        | some p ↦
            let (attempt, p') =
              P.authorize frozen (allow_decision m.moment.decision_id b.settings a.call) p in
            weigh a m frozen b.provider_mode attempt (record b { provider = some p' })
      ]

  unfoldable pub authorize_call :
      AuthorizeCall
      → AuthorizeMoment
      → Boundary L.State P.State
      → Result AuthorizationContext × Boundary L.State P.State
  unfolding authorize_allowed
  authorize_call a m b =
      let (outcome, b') = check F L m.moment a.call b in
      elim outcome [ raise e ↦ (raise e, b') | ok u ↦ authorize_allowed a m b' ]
