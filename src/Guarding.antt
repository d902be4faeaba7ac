-- ===== src/Guarding.antt =====
-- What the wrappers of src/toolboundary/decorators.py and src/toolboundary/integrations have in
-- common: the arguments of a call, and the run of the wrapped function between the check or the
-- authorization and the record of its execution.
pub mod Guarantees
use toolboundary.Common.{ℕ, String, Option, none, some, [], ◌∷◌}
use toolboundary.Common.Dict.{Dict, lookup}
use toolboundary.Exceptions.{Error, truthy, Result, ok, raise}
use toolboundary.Audit.{Stamp}
use toolboundary.Json.{Json, null, Fields, end, field}
use toolboundary.Numeric.{RawValue, FloatParsing}
use toolboundary.Evidence.{Hashing, PyError, ToolResult, value}
use toolboundary.Provider.{AuthorizationContext, ProviderReceipt, EvidenceProvider}
use toolboundary.Redact.{Shown}
use toolboundary.RateLimiter.Interface.{RateLimiter}
use toolboundary.Boundary.{Boundary}
use toolboundary.Boundary.Check.{Call, check}
use toolboundary.Boundary.Authorize.{AuthorizeCall, AuthorizeMoment, authorize_call}
use toolboundary.Boundary.Execution.{Dispatch, record_execution}

-- One bound argument: as `json.dumps` writes it, as `repr` and the type show it, as an amount (none
-- for None), and as a text (none for None).
pub record Argument : Type 0 where
  pub json : Json
  pub shown : Shown
  pub raw : Option RawValue
  pub as_text : Option String

-- `call_kwargs.get(name) if name else None`
unfoldable pub named_argument : Option String → Dict Argument → Option Argument
named_argument name kwargs = elim (truthy name) [ none ↦ none | some n ↦ lookup n kwargs ]

abbrev pub raw_of : Option Argument → Option RawValue
raw_of none = none
raw_of (some v) = v.raw

abbrev pub text_of : Option Argument → Option String
text_of none = none
text_of (some v) = v.as_text

-- the arguments as the frozen call has them
abbrev pub json_args : Dict Argument → Fields
json_args [] = end
json_args ((name, v) ∷ kwargs) = field name v.json (json_args kwargs)

-- how the decorated function ends
pub data Ending : Type 0 where
  returned : Json → Ending
  failed : PyError → Ending

-- how the wrapper ends: an exception of the library, or the function's own ending
pub data Outcome : Type 0 where
  blocked : Error → Outcome
  ended : Ending → Outcome

-- how a call of the wrapper ends: its arguments do not bind to the function's signature, or the
-- run's outcome
pub data Ran : Type 0 where
  type_error : Ran
  ran : Outcome → Ran

-- `inspect.signature(…).bind(…)` gives the bound arguments, or raises TypeError
unfoldable pub bound_run : {B W S : Type 0} → Option B → (B → Outcome × W × S) → W → S → Ran × W × S
bound_run none run w s = (type_error, w, s)
bound_run (some bound) run w s = (ran (run bound).0, (run bound).1, (run bound).2)

-- what a call reads: see `authorize_call`; and the clock around the function, with the stamp of the
-- event of its execution
pub record GuardMoment : Type 0 where
  pub authorize : AuthorizeMoment
  pub started_at : ℕ
  pub finished_at : ℕ
  pub stamp : Stamp

-- the keyword arguments of `record_execution`
unfoldable pub dispatch_of : GuardMoment → Option String → Ending → Dispatch
dispatch_of m correlation_id (returned v) = record {
  result = value v;
  error = none;
  started_at = m.started_at;
  finished_at = m.finished_at;
  correlation_id = correlation_id;
  stamp = m.stamp;
}
dispatch_of m correlation_id (failed exc) = record {
  result = value null;
  error = some exc;
  started_at = m.started_at;
  finished_at = m.finished_at;
  correlation_id = correlation_id;
  stamp = m.stamp;
}

module _ (H : Hashing) (F : FloatParsing) (L : RateLimiter) (P : EvidenceProvider)
    {W : Type 0} where
  -- `try: func(…)`, `finally: record_execution(…)`: what the latter raises takes the place of the
  -- function's ending
  unfoldable pub run_recorded :
      GuardMoment
      → Option String
      → (W → Ending × W)
      → AuthorizationContext
      → W
      → Boundary L.State P.State
      → Outcome × W × Boundary L.State P.State
  unfolding dispatch_of record_execution
  run_recorded m correlation_id func a w b =
      let (ending, w') = func w in
      let (receipt, a', b') = record_execution H P (dispatch_of m correlation_id ending) a b in
      (elim receipt [ raise e ↦ blocked e | ok r ↦ ended ending ], w', b')

  -- With a provider the call is authorized, and its execution recorded; without one it is checked.
  unfoldable pub guarded_run :
      AuthorizeCall
      → Option String
      → GuardMoment
      → (W → Ending × W)
      → W
      → Boundary L.State P.State
      → Outcome × W × Boundary L.State P.State
  unfolding run_recorded
  guarded_run q correlation_id m func w b = elim b.provider [
    | some p ↦
        let (verdict, b') = authorize_call H F L P q m.authorize b in
        elim verdict [
          | raise e ↦ (blocked e, w, b')
          | ok a ↦ run_recorded m correlation_id func a w b'
        ]
    | none ↦
        let (verdict, b') = check F L m.authorize.moment q.call b in
        elim verdict [ raise e ↦ (blocked e, w, b') | ok u ↦ (ended (func w).0, (func w).1, b') ]
  ]
