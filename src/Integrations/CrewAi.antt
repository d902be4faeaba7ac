-- ===== src/Integrations/CrewAi.antt =====
-- The wrapped tool of src/toolboundary/integrations/crewai.py.
use toolboundary.Common.{String, Option, none, [], ◌∷◌}
use toolboundary.Common.Dict.{Dict, insert}
use toolboundary.Audit.{Metadata, text}
use toolboundary.Numeric.{FloatParsing}
use toolboundary.Evidence.{Hashing}
use toolboundary.Provider.{EvidenceProvider}
use toolboundary.RateLimiter.Interface.{RateLimiter}
use toolboundary.Boundary.{Boundary}
use toolboundary.Boundary.Authorize.{AuthorizeCall}
use toolboundary.Guarding.{Argument, Ending, GuardMoment, Ran, bound_run, guarded_run}
use toolboundary.Integrations.ToolGuard.{BaseTool, ToolGuard, tool_call, tool_authorize_call}

-- an entry of `bound.arguments` after `apply_defaults`: an argument, or what `**kwargs` took
pub data Bound : Type 0 where
  plain : Argument → Bound
  var_keyword : Dict Argument → Bound

-- `dict(bound.arguments)` without the parameter of `**kwargs`
unfoldable pub plain_arguments : Dict Bound → Dict Argument
plain_arguments [] = []
plain_arguments ((name, plain v) ∷ bound) = (name, v) ∷ plain_arguments bound
plain_arguments ((name, var_keyword extra) ∷ bound) = plain_arguments bound

-- `arguments.update(extra)`
unfoldable pub update : Dict Argument → Dict Argument → Dict Argument
unfolding insert
update arguments [] = arguments
update arguments ((name, v) ∷ extra) = update (insert name v arguments) extra

unfoldable pub add_extras : Dict Argument → Dict Bound → Dict Argument
unfolding update
add_extras arguments [] = arguments
add_extras arguments ((name, plain v) ∷ bound) = add_extras arguments bound
add_extras arguments ((name, var_keyword extra) ∷ bound) = add_extras (update arguments extra) bound

-- `_arguments`, of the arguments as they are bound
unfoldable pub expand : Dict Bound → Dict Argument
unfolding plain_arguments add_extras
expand bound = add_extras (plain_arguments bound) bound

-- {"crewai_tool": tool.name}
abbrev crewai_metadata : String → Metadata
crewai_metadata label = ("crewai_tool", text label) ∷ []

-- the call of `_evaluate` and `_authorize`
unfoldable pub crewai_call : String → ToolGuard → Dict Argument → AuthorizeCall
unfolding tool_call tool_authorize_call
crewai_call label g arguments = tool_authorize_call label g (crewai_metadata label) arguments

-- `inspect.signature(tool._run).bind(…)` gives the bound arguments, or raises TypeError
module _ (H : Hashing) (F : FloatParsing) (L : RateLimiter) (P : EvidenceProvider) {A W : Type 0}
    (bind : A → Option (Dict Bound)) (tool : BaseTool A W) (g : ToolGuard) where
  -- one of the two methods, by the body that it calls
  unfoldable pub run_body :
      (A → W → Ending × W)
      → GuardMoment
      → A
      → W
      → Boundary L.State P.State
      → Ran × W × Boundary L.State P.State
  unfolding guarded_run crewai_call expand bound_run
  run_body body m a w b =
      bound_run (bind a)
        (λ bound. guarded_run H F L P (crewai_call tool.name g (expand bound)) none m (body a) w b)
        w b

  unfoldable pub run :
      GuardMoment → A → W → Boundary L.State P.State → Ran × W × Boundary L.State P.State
  unfolding run_body
  run m a w b = run_body tool.run m a w b

  -- `tool_arun` is the tool's `_arun`, which every tool of the framework has
  unfoldable pub arun :
      (A → W → Ending × W)
      → GuardMoment
      → A
      → W
      → Boundary L.State P.State
      → Ran × W × Boundary L.State P.State
  unfolding run_body
  arun tool_arun m a w b = run_body tool_arun m a w b
