-- ===== src/Tests/Adapters.antt =====
-- Wrapped tools of two frameworks, and the AgentKey provider over a client that gives no ids.
use toolboundary.Common.{
  ℕ, suc, ◌≡◌, ◌⊎◌, refl, String, true, false, Option, none, some, [], ◌∷◌, if◌then◌else◌,
}
use toolboundary.Common.Dict.{Dict, lookup}
use toolboundary.Enums.{AccessMode, allow}
use toolboundary.Exceptions.{Error}
use toolboundary.Json.{null, end}
use toolboundary.Provider.{
  FrozenToolCall, LocalDecision, ProviderGrant, success, ExecutionRecord, returns, enforce,
}
use toolboundary.RateLimiter.Contract.{in_memory}
use toolboundary.Boundary.Policy.{Permits}
use toolboundary.Guarding.{Argument, Ending, returned, blocked, ended}
use toolboundary.Integrations.ToolGuard.{BaseTool, ToolGuard, default_guard}
use toolboundary.Integrations.LangChain.{Arguments, langchain_call}
use toolboundary.Integrations.LangChain
use toolboundary.Integrations.CrewAi.{Bound, plain, var_keyword}
use toolboundary.Integrations.CrewAi
use toolboundary.Integrations.Guarantees.{
  langchain_runs_only_if_permitted, crewai_runs_only_if_permitted, BoundAndGuarded,
}
use toolboundary.Integrations.AgentKey.{
  AgentKeyClient, AgentKey, AuthResponse, answers, type_error, fails, authorize, ask, invoke,
  grant_of, verdict_of,
}
use toolboundary.Integrations.AgentKey.Recording.{Pending, record_execution}
use toolboundary.Integrations.AgentKey.Entries.{told}
use toolboundary.Integrations.AgentKey.Correlation.{
  names_id, rebuilt, sent, recorded_call_is_rebuilt,
}
use toolboundary.Tests.Data.{
  parsing, hashing, agent_settings, provided, switched_provider, at_seven,
}
use toolboundary.Tests.Guarded.{guard_moment, search_arguments}

abbrev tool_guard : ToolGuard
tool_guard = default_guard AccessMode.read_only

-- it counts its calls; by name it takes one argument
abbrev search_tool : {A : Type 0} → BaseTool A ℕ
search_tool = record { name = "search"; run = λ a calls. (returned null, suc calls); arun = none }

abbrev by_name : Arguments (Unit {0})
by_name = record { args = tt; kwargs = search_arguments }

langchain_runs_only_if_permitted_example :
    let permitted =
      Permits parsing at_seven agent_settings
        (langchain_call "search" tool_guard search_arguments).call in
    let (outcome, w', b') =
      LangChain.run hashing parsing in_memory switched_provider search_tool tool_guard guard_moment
        by_name 0
        (provided enforce true) in
    let (async_outcome, w'', b'') =
      LangChain.arun hashing parsing in_memory switched_provider search_tool tool_guard guard_moment
        by_name 0
        (provided enforce true) in
    (((e : Error) × (outcome ≡ blocked e) × (w' ≡ 0))
      ⊎ (permitted × (outcome ≡ ended (returned null)) × (w' ≡ 1)))
    × (((e : Error) × (async_outcome ≡ blocked e) × (w'' ≡ 0))
        ⊎ (permitted × (async_outcome ≡ ended (returned null)) × (w'' ≡ 1)))
langchain_runs_only_if_permitted_example =
    langchain_runs_only_if_permitted hashing parsing in_memory switched_provider tool_guard
      guard_moment 0 (provided enforce true) search_tool by_name

abbrev bind_one : Dict Argument → Option (Dict Bound)
bind_one arguments = some (("extra", var_keyword arguments) ∷ [])

abbrev counted : Dict Argument → ℕ → Ending × ℕ
counted arguments calls = (returned null, suc calls)

crewai_runs_only_if_permitted_example :
    let Ends =
      BoundAndGuarded hashing parsing in_memory switched_provider tool_guard guard_moment 0
        (provided enforce true)
        bind_one
        search_tool
        counted
        search_arguments in
    Ends (
      CrewAi.run hashing parsing in_memory switched_provider bind_one search_tool tool_guard
        guard_moment search_arguments 0
        (provided enforce true))
    × Ends (
        CrewAi.arun hashing parsing in_memory switched_provider bind_one search_tool tool_guard
          counted guard_moment search_arguments 0
          (provided enforce true))
crewai_runs_only_if_permitted_example =
    crewai_runs_only_if_permitted hashing parsing in_memory switched_provider tool_guard
      guard_moment 0 (provided enforce true) bind_one search_tool counted search_arguments

abbrev bare_response : AuthResponse
bare_response = record {
  event_id = none;
  attempt_id = none;
  allowed = true;
  reason = none;
  approval_required = false;
  approval_id = none;
  metadata = [];
}

-- it wants keyword arguments, and is unreachable when it records
abbrev client : AgentKeyClient
client = record {
  State = Unit {0};
  authorize = some (record {
    with_dict = λ p s. (type_error "takes no argument", s);
    with_keywords = λ p s. (answers bare_response, s);
  });
  record_execution = some (record {
    with_dict = λ p s. (fails "unreachable", s);
    with_keywords = λ p s. (fails "unreachable", s);
  });
}

abbrev digits : ℕ → String
digits n = "012345678901"

abbrev agent_key : AgentKey client digits
agent_key = record { client = some tt; session_id = "ak-session-1"; pending_calls = []; draws = 0 }

abbrev frozen : FrozenToolCall
frozen = record {
  agent_name = "agent";
  tool_name = "search";
  operation = none;
  arguments = end;
  resource = none;
  tool_version = none;
  schema_hash = none;
  manifest_hash = none;
  approval_id = none;
  approval_state = none;
  call_digest = "00";
}

abbrev decision : LocalDecision
decision = record {
  decision = allow;
  decision_id = "d1";
  agent_name = "agent";
  tool_name = "search";
  operation = none;
  reason_code = none;
  approval_id = none;
  policy_version = none;
}

abbrev execution : ExecutionRecord
execution = record {
  call_digest = "00";
  status = success;
  started_at = 1;
  finished_at = 2;
  result_digest = none;
  error_type = none;
  error_message = none;
  observed_by = "runtime";
}

abbrev grant : ProviderGrant
grant = grant_of client digits "ak-session-1" (verdict_of client digits 0 bare_response)

granted : (authorize client digits frozen decision agent_key).0 ≡ returns (some grant)
unfolding authorize ask invoke
granted = refl

recorded_call_is_rebuilt_example :
    (pending : Pending) × (record_execution client digits grant execution
        (authorize client digits frozen decision agent_key).1
      ≡ (
        returns (sent client digits frozen decision agent_key grant execution pending).0,
        (sent client digits frozen decision agent_key grant execution pending).1,
      ))
    × ((record_execution client digits grant execution
          (authorize client digits frozen decision agent_key).1).1.client
        ≡ told client.record_execution
            (rebuilt client digits frozen decision agent_key grant execution)
            (authorize client digits frozen decision agent_key).1.client)
    × ((id : String)
        → lookup id pending ≡ (
            if names_id grant.authorization_id id
            then none
            else if names_id grant.attempt_id id
            then none
            else lookup id agent_key.pending_calls))
recorded_call_is_rebuilt_example =
    recorded_call_is_rebuilt client digits frozen decision agent_key grant execution granted
