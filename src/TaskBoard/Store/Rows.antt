-- ===== src/TaskBoard/Store/Rows.antt =====
-- The rows of `tasks` and `task_history`, and the errors of services/task_mcp.
use public_gbrain_agentos.Base.{
  ℕ, String, Option, none, some, List, ◌==◌, ==_iff, ◌=ₛ◌, if◌then◌else◌,
}
use public_gbrain_agentos.Base.Text.{Text}
use public_gbrain_agentos.Base.Json.{Fields}
use public_gbrain_agentos.Base.Table.Keys.{Keyed}
use public_gbrain_agentos.Auth.Errors.{AuthError}

pub data TaskStatus : Type 0 where
  new progress review done blocked : TaskStatus

pub data Priority : Type 0 where
  low medium high critical : Priority

-- `s in VALID_STATUSES`
abbrev pub parse_status : String → Option TaskStatus
parse_status s =
    if s =ₛ "new"
    then some new
    else if s =ₛ "progress"
    then some progress
    else if s =ₛ "review"
    then some review
    else if s =ₛ "done"
    then some done
    else if s =ₛ "blocked"
    then some blocked
    else none

-- `p in VALID_PRIORITIES`
abbrev pub parse_priority : String → Option Priority
parse_priority p =
    if p =ₛ "low"
    then some low
    else if p =ₛ "medium"
    then some medium
    else if p =ₛ "high"
    then some high
    else if p =ₛ "critical"
    then some critical
    else none

pub record Task : Type 0 where
  pub id : ℕ
  pub title : Text
  pub description : String
  pub status : TaskStatus
  pub assignee : Option String
  pub priority : Priority
  pub created_by : String
  pub created_at : ℕ
  pub updated_at : ℕ
  pub metadata : Fields

pub record Entry : Type 0 where
  pub id : ℕ
  pub task_id : ℕ
  pub old_status : TaskStatus
  pub new_status : TaskStatus
  pub changed_by : String
  pub note : Option String
  pub changed_at : ℕ

-- both tables, with the next values of their sequences
pub record Board : Type 0 where
  pub tasks : List Task
  pub next_id : ℕ
  pub history : List Entry
  pub next_entry : ℕ

-- the ValueErrors, and the PermissionErrors of the tools
pub data TaskError : Type 0 where
  empty_title invalid_priority no_fields not_found invalid_status not_allowed reopen_refused
        lacks_scope :
      TaskError
  unauthenticated : AuthError → TaskError

-- `id bigserial PRIMARY KEY`
abbrev pub by_task_id : Keyed Task ℕ
by_task_id = record { key = λ r. r.id; same = ◌==◌; same_iff = ==_iff }
