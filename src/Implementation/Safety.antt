-- ===== src/Implementation/Safety.antt =====
-- The run of a task merges only what was cleared (runTask of src/phases/implementation.ts).
use agentic_mcp_teaming.Machine.{Machine}
use agentic_mcp_teaming.Machine.Triple.{Triple}
