-- ===== src/Gating.antt =====
-- services/shared/tool_gating.py: which tools a server registers under GBRAIN_TOOLS.
pub mod Modes
mod Tests
use public_gbrain_agentos.Base.{
  String, Bool, true, false, Option, none, some, List, [], ◌∷◌, contains, ◌=ₛ◌, ◌||◌, if◌then◌else◌,
}

abbrev pub valid_tool_sets : List String
valid_tool_sets = "core" ∷ "all" ∷ []

abbrev pub default_tool_set : String
default_tool_set = "core"

-- what a table keyed by server names gives, and the empty set for any other name
unfoldable pub core_tools : String → List String
core_tools server =
    if server =ₛ "memory_mcp"
    then "create_decision_note" ∷ "create_handoff" ∷ "append_daily_log" ∷ "supersede_decision"
      ∷ "create_runbook_note" ∷ "create_error_pattern_note" ∷ "create_external_note" ∷ "verify_note"
      ∷ []
    else if server =ₛ "recall_mcp"
    then "recall" ∷ "get" ∷ "related" ∷ "recent" ∷ "duplicate_candidates" ∷ []
    else if server =ₛ "task_mcp"
    then "task_create" ∷ "task_update" ∷ "task_get" ∷ "task_list" ∷ "task_start" ∷ "task_review"
      ∷ "task_done" ∷ "task_block" ∷ "task_reopen" ∷ "task_history" ∷ "agent_heartbeat"
      ∷ "agent_status" ∷ "agent_list" ∷ []
    else []

unfoldable pub always_on_tools : String → List String
always_on_tools server =
    if server =ₛ "swarm_mcp" then "notify" ∷ "ack" ∷ "list_my_pending" ∷ [] else []

-- `none` is the RuntimeError at start-up
unfoldable pub parse_tool_set : Option String → Option String
parse_tool_set none = some default_tool_set
parse_tool_set (some raw) =
    if raw =ₛ ""
    then some default_tool_set
    else if contains valid_tool_sets raw
    then some raw
    else none

unfoldable pub should_register_tool : String → String → String → Bool
should_register_tool server_name tool_name tool_set =
    if tool_set =ₛ "all"
    then true
    else if contains (always_on_tools server_name) tool_name
    then true
    else contains (core_tools server_name) tool_name
