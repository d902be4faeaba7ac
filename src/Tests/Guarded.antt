-- ===== src/Tests/Guarded.antt =====
-- A guarded function, and the metadata of its calls.
use toolboundary.Common.{◌≡◌, ◌⊎◌, refl, String, Bool, true, none, some, [], ◌∷◌, map, ℕ, suc}
use toolboundary.Common.Dict.{Dict}
use toolboundary.Common.Text.{member}
use toolboundary.Audit.{AuditEvent, emit}
use toolboundary.Enums.{AccessMode}
use toolboundary.Exceptions.{Message, Error, ok}
use toolboundary.Json.{null, string}
use toolboundary.Provider.{AuthorizationContext, enforce, returns}
use toolboundary.RateLimiter.Contract.{in_memory}
use toolboundary.Redact.{Shown, is_sensitive, redact_args}
use toolboundary.Redact.Hiding.{is_hidden, SameButHidden, redact_args-hides}
use toolboundary.Boundary.Check.{check}
use toolboundary.Boundary.Authorize.{authorize_call}
use toolboundary.Boundary.Policy.{Permits}
use toolboundary.Guarding.{Argument, Ending, returned, blocked, ended, GuardMoment}
use toolboundary.Decorators.{Guard, guarded_call, guarded_authorize_call, wrapper}
use toolboundary.Decorators.Guarantees.{runs_only_if_permitted, runs_when_allowed}
use toolboundary.Tests.Data.{
  parsing, hashing, agent_settings, provided, switched_provider, authorize_at_seven, at_seven,
  first_stamp,
}

abbrev guard : Guard
guard = record {
  tool_name = some "search";
  func_name = "find";
  operation = none;
  access_mode = AccessMode.read_only;
  value_arg = none;
  record_count_arg = none;
  correlation_id_arg = none;
  resource = none;
  tool_version = none;
  schema_hash = none;
  manifest_hash = none;
  sensitive_args = "q" ∷ [];
  log_arg_values = true;
}

abbrev pub guard_moment : GuardMoment
guard_moment = record {
  authorize = authorize_at_seven;
  started_at = 8;
  finished_at = 9;
  stamp = first_stamp;
}

-- it counts its calls
abbrev find : ℕ → Ending × ℕ
find calls = (returned null, suc calls)

abbrev pub shown_as : String → Shown
shown_as s = record { type_name = "str"; repr = returns s }

abbrev pub search_arguments : Dict Argument
search_arguments =
    ("q", record { json = string "x"; shown = shown_as "'x'"; raw = none; as_text = some "x" }) ∷ []

runs_only_if_permitted_example :
    let (outcome, w', b') =
      wrapper hashing parsing in_memory switched_provider guard guard_moment find search_arguments 0
        (provided enforce true) in
    ((e : Error) × (outcome ≡ blocked e) × (w' ≡ 0))
    ⊎ (Permits parsing at_seven agent_settings (guarded_call guard search_arguments)
        × (outcome ≡ ended (returned null))
        × (w' ≡ 1))
runs_only_if_permitted_example =
    runs_only_if_permitted hashing parsing in_memory switched_provider guard guard_moment find
      search_arguments 0 (provided enforce true)

runs_when_allowed_example :
    let boundary = provided enforce true in
    let authorized =
      authorize_call hashing parsing in_memory switched_provider
        (guarded_authorize_call guard search_arguments)
        authorize_at_seven
        boundary in
    let (outcome, w', b') =
      wrapper hashing parsing in_memory switched_provider guard guard_moment find search_arguments 0
        boundary in
    (boundary.provider ≡ none
      → (check parsing in_memory at_seven (guarded_call guard search_arguments) boundary).0 ≡ ok tt
      → (outcome ≡ ended (returned null)) × (w' ≡ 1))
    × ((p : Bool) (a : AuthorizationContext)
        → boundary.provider ≡ some p
        → authorized.0 ≡ ok a
        → (outcome ≡ ended (returned null))
          × (w' ≡ 1)
          × ((e : AuditEvent) × (b'.audit.sinks ≡ map (emit e) authorized.1.audit.sinks)
              × (e.message ≡ Message.execution_recorded "success")
              × (e.tool_name ≡ some a.frozen_call.tool_name)))
runs_when_allowed_example =
    runs_when_allowed hashing parsing in_memory switched_provider guard guard_moment find
      search_arguments 0 (provided enforce true)

-- two logins that differ in the password
abbrev login : String → Dict Shown
login password = ("user", shown_as "'u'") ∷ ("Password", shown_as password) ∷ []

password_is_hidden : is_hidden [] "Password" ≡ true
unfolding is_sensitive member
password_is_hidden = refl

logins-SameButHidden : SameButHidden [] (login "'a'") (login "'b'")
logins-SameButHidden = (refl, λ e. refl, (refl, λ e. absurd (cc (e, password_is_hidden)), tt))

redact_args-hides_example :
    redact_args [] 200 true (login "'a'") ≡ redact_args [] 200 true (login "'b'")
redact_args-hides_example =
    redact_args-hides [] 200 true (login "'a'") (login "'b'") logins-SameButHidden
