-- ===== src/Integrations/ToolGuard.antt =====
-- What the adapters of src/toolboundary/integrations/langchain.py and crewai.py share: the
-- arguments of `guard_tool`, the call that they describe, and the overrides of `guard_tools`. A
-- framework's tool is its name and its two methods; what `BaseTool` does around them is the
-- framework's.
use toolboundary.Common.{String, Option, none, some, List, [], ◌∷◌}
use toolboundary.Common.Dict.{Dict, lookup}
use toolboundary.Enums.{AccessMode}
use toolboundary.Exceptions.{truthy}
use toolboundary.Audit.{Metadata}
use toolboundary.Boundary.Check.{Call}
use toolboundary.Boundary.Authorize.{AuthorizeCall}
use toolboundary.Guarding.{Argument, named_argument, raw_of, json_args, Ending}

-- the tool that is wrapped, in the world `W` that it acts on
pub record BaseTool (A W : Type 0) : Type 0 where
  pub name : String
  pub run : A → W → Ending × W
  pub arun : Option (A → W → Ending × W)

-- the keyword arguments of `guard_tool`
pub record ToolGuard : Type 0 where
  pub tool_name : Option String
  pub operation : Option String
  pub access_mode : AccessMode
  pub value_arg : Option String
  pub record_count_arg : Option String
  pub resource : Option String
  pub tool_version : Option String
  pub schema_hash : Option String
  pub manifest_hash : Option String

-- `tool_name or tool.name`
abbrev pub resolved_name : String → ToolGuard → String
resolved_name label g = elim (truthy g.tool_name) [ none ↦ label | some name ↦ name ]

-- the arguments of `boundary.check`
unfoldable pub tool_call : String → ToolGuard → Metadata → Dict Argument → Call
unfolding named_argument
tool_call label g metadata arguments = record {
  tool_name = resolved_name label g;
  operation = g.operation;
  access_mode = g.access_mode;
  value = raw_of (named_argument g.value_arg arguments);
  record_count = raw_of (named_argument g.record_count_arg arguments);
  correlation_id = none;
  metadata = metadata;
}

-- the arguments of `boundary.authorize_call`
unfoldable pub tool_authorize_call : String → ToolGuard → Metadata → Dict Argument → AuthorizeCall
unfolding tool_call
tool_authorize_call label g metadata arguments = record {
  call = tool_call label g metadata arguments;
  arguments = json_args arguments;
  resource = g.resource;
  tool_version = g.tool_version;
  schema_hash = g.schema_hash;
  manifest_hash = g.manifest_hash;
  approval_id = none;
  approval_state = none;
}

-- an item of the dict of a tool's overrides
pub data Override : Type 0 where
  access_mode : AccessMode → Override
  tool_name operation value_arg record_count_arg resource tool_version schema_hash manifest_hash :
      Option String → Override

unfoldable pub apply_override : Override → ToolGuard → ToolGuard
apply_override (access_mode mode) g = record g { access_mode = mode }
apply_override (tool_name name) g = record g { tool_name = name }
apply_override (operation name) g = record g { operation = name }
apply_override (value_arg name) g = record g { value_arg = name }
apply_override (record_count_arg name) g = record g { record_count_arg = name }
apply_override (resource name) g = record g { resource = name }
apply_override (tool_version version) g = record g { tool_version = version }
apply_override (schema_hash hash) g = record g { schema_hash = hash }
apply_override (manifest_hash hash) g = record g { manifest_hash = hash }

unfoldable pub apply_overrides : List Override → ToolGuard → ToolGuard
unfolding apply_override
apply_overrides [] g = g
apply_overrides (o ∷ overrides) g = apply_overrides overrides (apply_override o g)

-- the arguments that a tool gets when nothing is overridden
abbrev pub default_guard : AccessMode → ToolGuard
default_guard mode = record {
  tool_name = none;
  operation = none;
  access_mode = mode;
  value_arg = none;
  record_count_arg = none;
  resource = none;
  tool_version = none;
  schema_hash = none;
  manifest_hash = none;
}

-- `overrides.get(tool.name, {})`
abbrev pub overrides_of : String → Dict (List Override) → List Override
overrides_of label overrides = elim (lookup label overrides) [ none ↦ [] | some items ↦ items ]

-- `guard_tools`: each tool with the arguments that `guard_tool` gets for it
unfoldable pub guard_tools :
    {A W : Type 0}
    → AccessMode
    → Dict (List Override)
    → List (BaseTool A W)
    → List (BaseTool A W × ToolGuard)
unfolding apply_overrides
guard_tools mode overrides [] = []
guard_tools mode overrides (tool ∷ tools) =
    (tool, apply_overrides (overrides_of tool.name overrides) (default_guard mode))
    ∷ guard_tools mode overrides tools
