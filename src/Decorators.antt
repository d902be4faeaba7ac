-- ===== src/Decorators.antt =====
-- src/toolboundary/decorators.py: the wrapper that `guarded_tool` puts around a function. How
-- `inspect.signature` binds a call's arguments is a parameter.
pub mod Guarantees
use toolboundary.Common.{ℕ, String, Bool, Option, none, some, List, [], ◌∷◌, true}
use toolboundary.Common.Dict.{Dict, lookup, insert}
use toolboundary.Enums.{AccessMode}
use toolboundary.Exceptions.{Error, truthy, Result, ok, raise}
use toolboundary.Audit.{Metadata, Stamp, texts}
use toolboundary.Json.{Json, null, Fields, end, field}
use toolboundary.Numeric.{RawValue, FloatParsing}
use toolboundary.Evidence.{Hashing, PyError, ToolResult, value}
use toolboundary.Provider.{AuthorizationContext, ProviderReceipt, EvidenceProvider}
use toolboundary.Guarding.{
  Argument, named_argument, raw_of, text_of, json_args, Ending, Outcome, GuardMoment, Ran,
  bound_run, guarded_run,
}
use toolboundary.Redact.{Shown, redact_args}
use toolboundary.RateLimiter.Interface.{RateLimiter}
use toolboundary.Boundary.{Boundary}
use toolboundary.Boundary.Check.{Call, check}
use toolboundary.Boundary.Authorize.{AuthorizeCall, AuthorizeMoment, authorize_call}
use toolboundary.Boundary.Execution.{Dispatch, record_execution}

-- the arguments of `guarded_tool`, with the function's `__name__`
pub record Guard : Type 0 where
  pub tool_name : Option String
  pub func_name : String
  pub operation : Option String
  pub access_mode : AccessMode
  pub value_arg : Option String
  pub record_count_arg : Option String
  pub correlation_id_arg : Option String
  pub resource : Option String
  pub tool_version : Option String
  pub schema_hash : Option String
  pub manifest_hash : Option String
  pub sensitive_args : List String
  pub log_arg_values : Bool

-- `tool_name or func.__name__`
unfoldable pub resolved_tool_name : Guard → String
resolved_tool_name g = elim (truthy g.tool_name) [ none ↦ g.func_name | some name ↦ name ]

-- `call_kwargs.get("operation") or operation`
unfoldable pub resolved_operation : Guard → Dict Argument → Option String
resolved_operation g kwargs = elim (truthy (text_of (lookup "operation" kwargs))) [
  | none ↦ g.operation
  | some op ↦ some op
]

-- what `redact_args` and the frozen call see of the arguments
abbrev pub shown_args : Dict Argument → Dict Shown
shown_args [] = []
shown_args ((name, v) ∷ kwargs) = (name, v.shown) ∷ shown_args kwargs

unfoldable pub guarded_call : Guard → Dict Argument → Call
unfolding resolved_tool_name named_argument resolved_operation redact_args insert
guarded_call g kwargs = record {
  tool_name = resolved_tool_name g;
  operation = resolved_operation g kwargs;
  access_mode = g.access_mode;
  value = raw_of (named_argument g.value_arg kwargs);
  record_count = raw_of (named_argument g.record_count_arg kwargs);
  correlation_id = text_of (named_argument g.correlation_id_arg kwargs);
  metadata =
      insert "args" (texts (redact_args g.sensitive_args 200 g.log_arg_values (shown_args kwargs)))
        [];
}

unfoldable pub guarded_authorize_call : Guard → Dict Argument → AuthorizeCall
unfolding guarded_call
guarded_authorize_call g kwargs = record {
  call = guarded_call g kwargs;
  arguments = json_args kwargs;
  resource = g.resource;
  tool_version = g.tool_version;
  schema_hash = g.schema_hash;
  manifest_hash = g.manifest_hash;
  approval_id = none;
  approval_state = none;
}

module _ (H : Hashing) (F : FloatParsing) (L : RateLimiter) (P : EvidenceProvider)
    {W : Type 0} where
  -- `wrapper`, on the function in the world that it acts on
  unfoldable pub wrapper :
      Guard
      → GuardMoment
      → (W → Ending × W)
      → Dict Argument
      → W
      → Boundary L.State P.State
      → Outcome × W × Boundary L.State P.State
  unfolding guarded_authorize_call guarded_run
  wrapper g m func kwargs w b =
      guarded_run H F L P (guarded_authorize_call g kwargs) (guarded_call g kwargs).correlation_id m
        func w b

  -- `wrapper` on a call, whose arguments `sig.bind_partial` binds; the defaults are applied
  unfoldable pub decorated :
      {A : Type 0}
      → (A → Option (Dict Argument))
      → Guard
      → GuardMoment
      → (A → W → Ending × W)
      → A
      → W
      → Boundary L.State P.State
      → Ran × W × Boundary L.State P.State
  unfolding wrapper bound_run
  decorated bind_partial g m func a w b =
      bound_run (bind_partial a) (λ kwargs. wrapper g m (func a) kwargs w b) w b

-- `_safe_repr`
unfoldable pub safe_repr : ℕ → Dict Shown → Dict String
unfolding redact_args
safe_repr max_len kwargs = redact_args [] max_len true kwargs
