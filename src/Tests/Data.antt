-- ===== src/Tests/Data.antt =====
-- Test data: an agent that may call one tool, its boundary, a provider, and the parameters of the
-- model as concrete functions.
use toolboundary.Common.{Bool, true, false, Option, none, some, [], ◌∷◌}
use toolboundary.Common.Int.{scale}
use toolboundary.Enums.{AccessMode, AutonomyLevel}
use toolboundary.Audit.{AuditTrail, Stamp}
use toolboundary.Numeric.{finite, unit, FloatParsing}
use toolboundary.Permissions.{ToolPermission}
use toolboundary.Provider.{
  ProviderMode, enforce, ProviderGrant, Attempt, returns, raises, EvidenceProvider,
}
use toolboundary.Json.{end}
use toolboundary.Evidence.{Hashing}
use toolboundary.RateLimiter.{SlidingWindow}
use toolboundary.Boundary.{Settings, Boundary}
use toolboundary.Boundary.Check.{Call, Moment}
use toolboundary.Boundary.Authorize.{AuthorizeCall, AuthorizeMoment}

abbrev pub parsing : FloatParsing
parsing = record {
  of_integer = λ n. some (finite (scale unit n));
  of_decimal = λ s. none;
  of_text = λ s. none;
}

abbrev pub hashing : Hashing
hashing = record { dumps = λ v. "{}"; sha256 = λ s. "00" }

abbrev pub search_permission : ToolPermission
search_permission = record {
  tool_name = "search";
  access_mode = AccessMode.read_only;
  allowed_operations = none;
  blocked_operations = [];
  max_calls_per_hour = some 2;
  max_value = none;
  min_value = none;
  max_records = none;
  requires_approval = false;
}

abbrev pub agent_settings : Settings
agent_settings = record {
  agent_name = "agent";
  autonomy = AutonomyLevel.autonomous;
  permissions = ("search", search_permission) ∷ [];
  blocked_operations = [];
  allowed_environments = none;
  environment = "production";
  max_actions_per_hour = some 5;
  kill_switch = false;
  kill_switch_env = none;
  valid_from = none;
  valid_to = none;
  policy_hooks = [];
  fail_closed_on_hook_error = true;
  strict_limits = false;
  provider_mode = enforce;
  policy_version = none;
}

abbrev pub one_sink : AuditTrail
one_sink = record { sinks = record { raises = λ e. false; emitted = [] } ∷ [] }

abbrev pub agent_boundary : Boundary SlidingWindow Bool
agent_boundary = record {
  settings = agent_settings;
  audit = one_sink;
  rate_limiter = record { calls = [] };
  provider = none;
}

abbrev pub first_stamp : Stamp
first_stamp = record { event_id = "e1"; timestamp = 7 }

abbrev pub search_call : Call
search_call = record {
  tool_name = "search";
  operation = none;
  access_mode = AccessMode.read_only;
  value = none;
  record_count = none;
  correlation_id = none;
  metadata = [];
}

abbrev pub write_call : Call
write_call = record search_call { access_mode = AccessMode.write }

abbrev pub at_seven : Moment
at_seven = record {
  environ = λ name. none;
  wall = 7;
  global_now = 7;
  tool_now = 7;
  decision_id = "d1";
  stamp = first_stamp;
}

abbrev pub approving_grant : ProviderGrant
approving_grant = record {
  allowed = true;
  provider = "registry";
  authorization_id = none;
  attempt_id = none;
  expires_at = none;
  reason = none;
  metadata = [];
}

-- it allows, denies or is unreachable, as its state says
abbrev pub switched_answer : Bool → Attempt (Option ProviderGrant)
switched_answer true = returns (some approving_grant)
switched_answer false = raises "unreachable"

abbrev pub switched_provider : EvidenceProvider
switched_provider = record {
  State = Bool;
  authorize = λ call decision s. (switched_answer s, s);
  record_execution = λ grant execution s. (raises "unreachable", s);
}

abbrev pub authorize_search : AuthorizeCall
authorize_search = record {
  call = search_call;
  arguments = end;
  resource = none;
  tool_version = none;
  schema_hash = none;
  manifest_hash = none;
  approval_id = none;
  approval_state = none;
}

abbrev pub authorize_at_seven : AuthorizeMoment
authorize_at_seven = record { moment = at_seven; stamp = first_stamp; authorization_id = "a1" }

-- the boundary with a provider, in a mode
abbrev pub provided : ProviderMode → Bool → Boundary SlidingWindow Bool
provided mode state = record agent_boundary {
  settings = record agent_settings { provider_mode = mode };
  provider = some state;
}
