-- ===== src/TaskBoard/Server/Registry.antt =====
-- The tools of services/task_mcp/server.py over the registry of agents.
use public_gbrain_agentos.Base.{
  ℕ, String, Bool, Option, none, some, List, Result, ok, err, ◌>>=◌, ◌>>◌,
}
use public_gbrain_agentos.Base.Json.{Fields, end, field, str}
use public_gbrain_agentos.TaskBoard.Agents.{Agent, heartbeat, get_agent, list_agents}
use public_gbrain_agentos.TaskBoard.Store.Rows.{TaskError, invalid_status}
use public_gbrain_agentos.TaskBoard.Server.{
  Tool, Caller, require_write, resolve_caller, json_option, logged, map_ok,
}

-- the ValueError of an unknown status
or_invalid : {A : Type 0} → Option A → Result TaskError A
or_invalid none = err invalid_status
or_invalid (some a) = ok a

-- the caller's own name is the name of the agent
unfoldable pub agent_heartbeat :
    ℕ → Bool → Caller → String → Option String → Option String → Option Fields → Tool Agent
unfolding or_invalid
agent_heartbeat now written caller status host version metadata w =
    resolve_caller caller >>= λ agent_ctx.
    require_write agent_ctx
    >> map_ok
        (λ (r, agents). (
          r,
          logged written agent_ctx.agent "agent_heartbeat"
              (field "status" (str status) (field "host" (json_option host) end))
              (record w { agents = agents }),
        ))
        (or_invalid (heartbeat now agent_ctx.agent status host version metadata w.agents))

unfoldable pub agent_status : Caller → String → Tool (Option Agent)
agent_status caller name w = resolve_caller caller >> ok (get_agent name w.agents, w)

unfoldable pub agent_list : (String → String → Bool) → Caller → Option String → Tool (List Agent)
unfolding or_invalid
agent_list collation caller status w =
    resolve_caller caller
    >> map_ok (λ r. (r, w)) (or_invalid (list_agents collation status w.agents))
