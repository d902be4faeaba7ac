-- ===== src/Boundary/Key.antt =====
-- The keys under which a boundary's calls are counted.
use Prim.Native.String.{String, ◌++◌}

-- f"{self.agent_name}::__global__"
unfoldable pub global_key : String → String
global_key agent_name = agent_name ++ "::__global__"

-- f"{self.agent_name}::{ctx.tool_name}"
unfoldable pub tool_key : String → String → String
tool_key agent_name tool_name = agent_name ++ "::" ++ tool_name
