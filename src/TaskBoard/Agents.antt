-- ===== src/TaskBoard/Agents.antt =====
-- services/task_mcp/agents_store.py over the table of migrations/006_agents.sql. The order of
-- names is the collation of the database, a parameter; metadata is kept as it is sent.
pub mod Heartbeat
use public_gbrain_agentos.Base.{
  ℕ, String, Bool, true, false, Option, none, some, List, [], ◌∷◌, ◌++◌, ◌&&◌, ◌=ₛ◌, eq_iff, keep,
  Result, ok, err, ◌>>=◌, ◌>>◌, if◌then◌else◌,
}
use public_gbrain_agentos.Base.Json.{Fields, end, field, str, null}
use public_gbrain_agentos.Base.Table.{update_where, sort_by}
use public_gbrain_agentos.Base.Table.Keys.{Keyed, lookup}

pub data AgentStatus : Type 0 where
  online offline busy error maintenance : AgentStatus

-- `s in VALID_STATUSES`
abbrev pub parse_agent_status : String → Option AgentStatus
parse_agent_status s =
    if s =ₛ "online"
    then some online
    else if s =ₛ "offline"
    then some offline
    else if s =ₛ "busy"
    then some busy
    else if s =ₛ "error"
    then some error
    else if s =ₛ "maintenance"
    then some maintenance
    else none

pub record Agent : Type 0 where
  pub agent_name : String
  pub status : AgentStatus
  pub last_seen : ℕ
  pub host : Option String
  pub version : Option String
  pub metadata : Fields
  pub created_at : ℕ
  pub updated_at : ℕ

-- `agent_name text PRIMARY KEY`
abbrev pub by_agent_name : Keyed Agent String
by_agent_name = record { key = λ r. r.agent_name; same = ◌=ₛ◌; same_iff = eq_iff }

abbrev pub coalesce : Option String → Option String → Option String
coalesce none old = old
coalesce (some s) old = some s

-- `CASE WHEN EXCLUDED.metadata::text = '{}' THEN agents.metadata ELSE EXCLUDED.metadata END`
abbrev pub unless_empty : Fields → Fields → Fields
unless_empty end old = old
unless_empty (field k v fields) old = field k v fields

-- the row as it is inserted, and as a conflict updates the row that is there
abbrev pub new_agent : ℕ → String → AgentStatus → Option String → Option String → Fields → Agent
new_agent now name status host version metadata = record {
  agent_name = name;
  status = status;
  last_seen = now;
  host = host;
  version = version;
  metadata = metadata;
  created_at = now;
  updated_at = now;
}

abbrev pub seen_again : Agent → Agent → Agent
seen_again excluded r = record r {
  status = excluded.status;
  last_seen = excluded.last_seen;
  host = coalesce excluded.host r.host;
  version = coalesce excluded.version r.version;
  metadata = unless_empty excluded.metadata r.metadata;
  updated_at = excluded.updated_at;
}

-- INSERT … ON CONFLICT (agent_name) DO UPDATE … RETURNING
upsert : Agent → List Agent → Agent × List Agent
upsert excluded agents = elim (lookup by_agent_name excluded.agent_name agents) [
  | none ↦ (excluded, agents ++ excluded ∷ [])
  | some r ↦ (
    seen_again excluded r,
    update_where (λ a. (a.agent_name =ₛ excluded.agent_name) && true) (seen_again excluded) agents,
  )
]

-- `metadata or {}`
pub or_no_metadata : Option Fields → Fields
or_no_metadata none = end
or_no_metadata (some metadata) = metadata

-- `none` is the ValueError of an unknown status
unfoldable pub heartbeat :
    ℕ
    → String
    → String
    → Option String
    → Option String
    → Option Fields
    → List Agent
    → Option (Agent × List Agent)
unfolding upsert or_no_metadata
heartbeat now name status host version metadata agents = elim (parse_agent_status status) [
  | none ↦ none
  | some s ↦ some (upsert (new_agent now name s host version (or_no_metadata metadata)) agents)
]

unfoldable pub get_agent : String → List Agent → Option Agent
get_agent name agents = lookup by_agent_name name agents

abbrev same_status : AgentStatus → AgentStatus → Bool
same_status online online = true
same_status offline offline = true
same_status busy busy = true
same_status error error = true
same_status maintenance maintenance = true
same_status _ _ = false

-- `none` is the ValueError of an unknown filter
unfoldable pub list_agents :
    (String → String → Bool) → Option String → List Agent → Option (List Agent)
list_agents collation none agents =
    some (sort_by (λ a b. collation a.agent_name b.agent_name) agents)
list_agents collation (some status) agents = elim (parse_agent_status status) [
  | none ↦ none
  | some s ↦ some (
      sort_by (λ a b. collation a.agent_name b.agent_name)
        (keep (λ a. same_status a.status s) agents))
]
