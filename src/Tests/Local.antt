-- ===== src/Tests/Local.antt =====
-- A boundary without a provider.
use toolboundary.Common.{
  ℕ, suc, inl, inr, ◌<◌, ◌≡◌, ◌≢◌, ◌↔◌, refl, String, eq_iff, Bool, true, Option, none, some, [],
  map, arith,
}
use toolboundary.Common.Dict.{lookup, insert}
use toolboundary.Audit.{AuditEvent, emit}
use toolboundary.Enums.{AccessMode, ViolationReason}
use toolboundary.Exceptions.{Message, Violation, violation, boundary_violation, ok, raise}
use toolboundary.Permissions.{ToolPermission, operation_allowed}
use toolboundary.Provider.{ProviderMode, enforce, LocalDecision}
use toolboundary.RateLimiter.{SlidingWindow, window_of, drop_stale, check_and_record}
use toolboundary.RateLimiter.Contract.{in_memory, in_memory_laws}
use toolboundary.Boundary.{Boundary, kill_switch_engaged}
use toolboundary.Boundary.KillSwitch.{SwitchedOff, kill_switch_iff}
use toolboundary.Boundary.Checks.{
  check_kill_switch, check_quarantine, check_validity_window, check_environment,
  check_global_blocked_operations, check_tool_permission, check_operation, check_access_mode,
}
use toolboundary.Boundary.Limits.{
  hour, check_value_limit, check_record_limit, check_tool_rate, check_rate_limit,
  check_policy_hooks, check_requires_approval,
}
use toolboundary.Boundary.Key.{global_key, tool_key}
use toolboundary.Common.Text.{strip, lower}
use toolboundary.Boundary.Check.{Moment, context, run_checks, check, evaluate}
use toolboundary.Boundary.Check.Outcomes.{decision_of, reason_of}
use toolboundary.Boundary.Policy.{SaysYes, Halted, by_variable, Permits}
use toolboundary.Boundary.Guarantees.{
  check_iff, check_audits, evaluate_agrees, early_denial_spends_nothing,
}
use toolboundary.Boundary.Budget.{allowed_within_budget, allowed_is_counted}
use toolboundary.Tests.Data.{
  parsing, agent_settings, agent_boundary, provided, search_call, write_call, at_seven,
}

-- the call is allowed, in both modes, with a provider and without
pub search_allowed :
    (mode : ProviderMode) (p : Option Bool)
    → (check parsing in_memory at_seven search_call
        (record (provided mode true) { provider = p })).0
      ≡ ok tt
unfolding check run_checks check_kill_switch kill_switch_engaged check_quarantine
    check_validity_window check_environment check_global_blocked_operations check_tool_permission
    lookup check_operation operation_allowed check_access_mode check_value_limit check_record_limit
    check_rate_limit check_and_record drop_stale window_of insert global_key tool_key
    check_tool_rate check_policy_hooks check_requires_approval
search_allowed mode p = refl

abbrev pub write_denied : Violation
write_denied = record {
  class = boundary_violation;
  message = Message.access_mode_exceeded AccessMode.write AccessMode.read_only "search";
  agent_name = "agent";
  tool_name = some "search";
  operation = none;
  rule = some ViolationReason.access_mode_exceeded;
}

pub write_is_denied :
    (p : Option Bool)
    → (check parsing in_memory at_seven write_call (record agent_boundary { provider = p })).0
      ≡ raise (violation write_denied)
unfolding check run_checks check_kill_switch kill_switch_engaged check_quarantine
    check_validity_window check_environment check_global_blocked_operations check_tool_permission
    lookup check_operation operation_allowed check_access_mode
write_is_denied p = refl

check_iff_example : ((check parsing in_memory at_seven search_call agent_boundary).0 ≡ ok tt) ↔ (
    Permits parsing at_seven agent_settings search_call
    × ((check_rate_limit in_memory 7 7 agent_settings
          (context agent_settings search_call)
          (record { calls = [] })).0
        ≡ ok tt))
check_iff_example = check_iff parsing in_memory at_seven search_call agent_boundary

check_audits_example :
    let (outcome, b') = check parsing in_memory at_seven write_call agent_boundary in
    (e : AuditEvent) × (b'.audit.sinks ≡ map (emit e) agent_boundary.audit.sinks)
    × (decision_of outcome ≡ some e.decision)
    × (e.reason_code ≡ reason_of outcome)
    × (e.agent_name ≡ "agent")
    × (e.tool_name ≡ some "search")
    × (e.operation ≡ none)
    × (e.correlation_id ≡ none)
check_audits_example = check_audits parsing in_memory at_seven write_call agent_boundary

evaluate_agrees_example :
    let (outcome, b') = check parsing in_memory at_seven write_call agent_boundary in
    (d : LocalDecision) × (evaluate parsing in_memory at_seven write_call agent_boundary
      ≡ (ok d, record agent_boundary { rate_limiter = b'.rate_limiter }))
    × (decision_of outcome ≡ some d.decision)
    × (d.reason_code ≡ reason_of outcome)
    × (d.tool_name ≡ "search")
    × (d.policy_version ≡ none)
evaluate_agrees_example = evaluate_agrees parsing in_memory at_seven write_call agent_boundary

early_denial_spends_nothing_example :
    (check parsing in_memory at_seven write_call agent_boundary).1.rate_limiter
    ≡ record { calls = [] }
early_denial_spends_nothing_example =
    early_denial_spends_nothing parsing in_memory at_seven write_call agent_boundary write_denied
      (write_is_denied none) (λ e. cc) (λ e. cc) (λ e. cc)

-- a boundary whose environment variable says " Yes "
abbrev switched : Boundary SlidingWindow Bool
switched = record agent_boundary {
  settings = record agent_settings { kill_switch_env = some "STOP" };
}

abbrev stop_set : Moment
stop_set = record at_seven { environ = λ name. some " Yes " }

says_yes : SaysYes " Yes "
unfolding strip lower
says_yes = inr (inr (inl refl))

kill_switch_iff_example :
    Halted stop_set.environ switched.settings
    ↔ SwitchedOff parsing in_memory stop_set search_call switched
kill_switch_iff_example = kill_switch_iff parsing in_memory stop_set search_call switched

not_empty_name : ◌≢◌ {A = String} "STOP" ""
not_empty_name h = cc h

-- and the side of the equivalence that holds there
switched_is_off : SwitchedOff parsing in_memory stop_set search_call switched
switched_is_off =
    (kill_switch_iff parsing in_memory stop_set search_call switched).0
      (by_variable "STOP" " Yes " refl not_empty_name refl says_yes)

pub no_calls-Valid : (in_memory_laws hour).Valid agent_boundary.rate_limiter 7
unfolding in_memory_laws window_of lookup
no_calls-Valid = λ k. omega arith

allowed_within_budget_example :
    ((all : ℕ)
      → some 5 ≡ some all
      → (in_memory_laws hour).count (global_key "agent") 7 agent_boundary.rate_limiter < all)
    × ((p : ToolPermission) (most : ℕ)
        → lookup "search" agent_settings.permissions ≡ some p
        → p.max_calls_per_hour ≡ some most
        → (in_memory_laws hour).count (tool_key "agent" "search") 7 agent_boundary.rate_limiter
          < most)
allowed_within_budget_example =
    allowed_within_budget parsing in_memory hour (in_memory_laws hour) at_seven search_call
      agent_boundary no_calls-Valid (omega arith) (search_allowed enforce none)

search-named : ◌≢◌ {A = String} "search" "__global__"
search-named h = cc ((eq_iff "search" "__global__").1 h)

allowed_is_counted_example :
    (in_memory_laws hour).count
      (global_key "agent")
      7
      (check parsing in_memory at_seven search_call agent_boundary).1.rate_limiter
    ≡ suc ((in_memory_laws hour).count (global_key "agent") 7 agent_boundary.rate_limiter)
allowed_is_counted_example =
    allowed_is_counted parsing in_memory hour (in_memory_laws hour) at_seven search_call
      agent_boundary 5 no_calls-Valid (omega arith) (omega arith) refl search-named
      (search_allowed enforce none)
