-- ===== src/Integrations/LangChain.antt =====
-- The wrapped tool of src/toolboundary/integrations/langchain.py.
use toolboundary.Common.{String, none, some, [], ◌∷◌}
use toolboundary.Common.Dict.{Dict}
use toolboundary.Audit.{Metadata, text}
use toolboundary.Numeric.{FloatParsing}
use toolboundary.Evidence.{Hashing}
use toolboundary.Provider.{EvidenceProvider}
use toolboundary.RateLimiter.Interface.{RateLimiter}
use toolboundary.Boundary.{Boundary}
use toolboundary.Boundary.Authorize.{AuthorizeCall}
use toolboundary.Guarding.{Argument, Ending, Outcome, GuardMoment, guarded_run}
use toolboundary.Integrations.ToolGuard.{BaseTool, ToolGuard, tool_call, tool_authorize_call}

-- what `_run` takes: the positional arguments, and those by name
pub record Arguments (A : Type 0) : Type 0 where
  pub args : A
  pub kwargs : Dict Argument

-- {"langchain_tool": tool.name}
abbrev langchain_metadata : String → Metadata
langchain_metadata label = ("langchain_tool", text label) ∷ []

-- the call of `_evaluate` and `_authorize`, which look at the arguments by name only
unfoldable pub langchain_call : String → ToolGuard → Dict Argument → AuthorizeCall
unfolding tool_call tool_authorize_call
langchain_call label g kwargs = tool_authorize_call label g (langchain_metadata label) kwargs

-- `arun`, or `_run` for a tool without one
abbrev pub async_body : {A W : Type 0} → BaseTool (Arguments A) W → Arguments A → W → Ending × W
async_body tool = elim tool.arun [ none ↦ tool.run | some arun ↦ arun ]

module _ (H : Hashing) (F : FloatParsing) (L : RateLimiter) (P : EvidenceProvider) {A W : Type 0}
    (tool : BaseTool (Arguments A) W) (g : ToolGuard) where
  unfoldable pub run :
      GuardMoment
      → Arguments A
      → W
      → Boundary L.State P.State
      → Outcome × W × Boundary L.State P.State
  unfolding guarded_run langchain_call
  run m a w b = guarded_run H F L P (langchain_call tool.name g a.kwargs) none m (tool.run a) w b

  unfoldable pub arun :
      GuardMoment
      → Arguments A
      → W
      → Boundary L.State P.State
      → Outcome × W × Boundary L.State P.State
  unfolding guarded_run langchain_call
  arun m a w b =
      guarded_run H F L P (langchain_call tool.name g a.kwargs) none m (async_body tool a) w b
