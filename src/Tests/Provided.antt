-- ===== src/Tests/Provided.antt =====
-- A boundary with a provider that allows the call or cannot be reached.
use toolboundary.Common.{◌≡◌, ◌≢◌, ◌⊎◌, refl, Bool, true, false, Option, none, some, [], map}
use toolboundary.Enums.{DecisionType}
use toolboundary.Audit.{AuditEvent, emit}
use toolboundary.Exceptions.{Message, Error, consumed, ok, raise}
use toolboundary.Evidence.{value, freeze_with_digest}
use toolboundary.Json.{null}
use toolboundary.Provider.{
  observe, enforce, ProviderGrant, ProviderReceipt, AuthorizationContext, returns, raises,
}
use toolboundary.Common.Dict.{lookup, insert}
use toolboundary.Permissions.{operation_allowed}
use toolboundary.RateLimiter.{SlidingWindow, window_of, drop_stale, check_and_record}
use toolboundary.Boundary.{Boundary, kill_switch_engaged}
use toolboundary.Boundary.Checks.{
  check_kill_switch, check_quarantine, check_validity_window, check_environment,
  check_global_blocked_operations, check_tool_permission, check_operation, check_access_mode,
}
use toolboundary.Boundary.Limits.{
  check_value_limit, check_record_limit, check_tool_rate, check_rate_limit, check_policy_hooks,
  check_requires_approval,
}
use toolboundary.Boundary.Key.{global_key, tool_key}
use toolboundary.RateLimiter.Contract.{in_memory}
use toolboundary.Boundary.Check.{context, run_checks, check}
use toolboundary.Boundary.Check.Outcomes.{decision_of, reason_of}
use toolboundary.Boundary.Policy.{Permits}
use toolboundary.Boundary.Guarantees.{check_iff}
use toolboundary.Boundary.Authorize.{
  AuthorizeCall, authorize_call, authorize_allowed, weigh, conclude, authorization, frozen_call,
}
use toolboundary.Boundary.Authorize.Answers.{RefusedBy}
use toolboundary.Boundary.Authorize.Guarantees.{
  answer_at, forbidden_is_unasked, enforce_needs_answer, observe_never_blocks, enforce_blocks,
}
use toolboundary.Boundary.Execution.{Dispatch, execution_of, record_execution, status_text}
use toolboundary.Boundary.Execution.Guarantees.{recorded_once}
use toolboundary.Tests.Data.{
  parsing, hashing, agent_settings, agent_boundary, provided, write_call, authorize_search,
  authorize_at_seven, at_seven, approving_grant, first_stamp, switched_provider,
}
use toolboundary.Tests.Local.{search_allowed, write_is_denied}

abbrev authorize_write : AuthorizeCall
authorize_write = record authorize_search { call = write_call }

write_is_forbidden : ¬ (
    Permits parsing at_seven agent_settings write_call
    × ((check_rate_limit in_memory 7 7 agent_settings
          (context agent_settings write_call)
          (record { calls = [] })).0
        ≡ ok tt))
write_is_forbidden permitted = cc (
  (check_iff parsing in_memory at_seven write_call (provided enforce true)).1 permitted,
  write_is_denied (some true),
)

forbidden_is_unasked_example :
    let (outcome, b') =
      authorize_call hashing parsing in_memory switched_provider authorize_write authorize_at_seven
        (provided enforce true) in
    (e : Error) × (event : AuditEvent) × (outcome ≡ raise e)
    × (b'.provider ≡ some true)
    × (b'.audit.sinks ≡ map (emit event) agent_boundary.audit.sinks)
    × (decision_of {A = AuthorizationContext} (raise e) ≡ some event.decision)
    × (event.decision ≢ DecisionType.allow)
    × (event.reason_code ≡ reason_of {A = AuthorizationContext} (raise e))
forbidden_is_unasked_example =
    forbidden_is_unasked hashing parsing in_memory switched_provider authorize_write
      authorize_at_seven (provided enforce true) write_is_forbidden

-- what the approving provider's grant gives
abbrev pub search_authorized : AuthorizationContext
search_authorized =
    authorization authorize_search authorize_at_seven
      (freeze_with_digest hashing (frozen_call agent_settings authorize_search)) agent_settings
      (some approving_grant)

pub search_is_authorized :
    (authorize_call hashing parsing in_memory switched_provider authorize_search authorize_at_seven
      (provided enforce true)).0
    ≡ ok search_authorized
unfolding authorize_call authorize_allowed weigh conclude check run_checks check_kill_switch
    kill_switch_engaged check_quarantine check_validity_window check_environment
    check_global_blocked_operations check_tool_permission lookup check_operation operation_allowed
    check_access_mode check_value_limit check_record_limit check_rate_limit check_and_record
    drop_stale window_of insert global_key tool_key check_tool_rate check_policy_hooks
    check_requires_approval
search_is_authorized = refl

enforce_needs_answer_example :
    let answer =
      answer_at hashing parsing in_memory switched_provider authorize_search authorize_at_seven
        (provided enforce true)
        true in
    ((g : ProviderGrant) × (answer ≡ returns (some g))
      × (g.allowed ≡ true)
      × (search_authorized.provider_grant ≡ some g))
    ⊎ ((answer ≡ returns none) × (search_authorized.provider_grant ≡ none))
enforce_needs_answer_example =
    enforce_needs_answer hashing parsing in_memory switched_provider authorize_search
      authorize_at_seven (provided enforce true) true search_authorized refl refl
      search_is_authorized

observe_never_blocks_example :
    (x : AuthorizationContext) × ((authorize_call hashing parsing in_memory switched_provider
        authorize_search authorize_at_seven
        (provided observe false)).0
      ≡ ok x)
observe_never_blocks_example =
    observe_never_blocks hashing parsing in_memory switched_provider authorize_search
      authorize_at_seven (provided observe false) refl (search_allowed observe (some false))

enforce_blocks_example :
    let unreachable = provided enforce false in
    let (outcome, b') =
      authorize_call hashing parsing in_memory switched_provider authorize_search authorize_at_seven
        unreachable in
    (e : Error) × (outcome ≡ raise e)
    × RefusedBy (raises "unreachable") e
    × (b'.audit ≡ (check parsing in_memory at_seven authorize_search.call unreachable).1.audit)
enforce_blocks_example =
    enforce_blocks hashing parsing in_memory switched_provider authorize_search authorize_at_seven
      (provided enforce false) false refl refl (search_allowed enforce (some false)) tt

abbrev dispatched : Dispatch
dispatched = record {
  result = value null;
  error = none;
  started_at = 8;
  finished_at = 9;
  correlation_id = none;
  stamp = first_stamp;
}

recorded_once_example :
    let (outcome, a', b') =
      record_execution hashing switched_provider dispatched search_authorized
        (provided enforce true) in
    ((receipt : Option ProviderReceipt) × (outcome ≡ ok receipt))
    × ((e : AuditEvent) × (b'.audit.sinks ≡ map (emit e) agent_boundary.audit.sinks)
        × (e.message
            ≡ Message.execution_recorded
                (status_text (execution_of hashing dispatched search_authorized).status))
        × (e.tool_name ≡ some search_authorized.frozen_call.tool_name)
        × (e.operation ≡ search_authorized.frozen_call.operation))
    × ((d' : Dispatch) (b'' : Boundary SlidingWindow Bool)
        → record_execution hashing switched_provider d' a' b''
          ≡ (raise (consumed Message.authorization_consumed), a', b''))
recorded_once_example =
    recorded_once hashing switched_provider dispatched search_authorized (provided enforce true)
      refl
