-- ===== src/TaskBoard/Server.antt =====
-- The tools of services/task_mcp/server.py. `caller` is the result of `_resolve_caller`; the state
-- is the board and the registry of agents beside the audit log.
pub mod Guarded
pub mod Registry
use public_gbrain_agentos.Base.{
  ℕ, String, Bool, true, not, Option, none, some, List, [], ◌∷◌, Result, ok, err, ◌>>=◌, ◌>>◌,
  raise_if, if◌then◌else◌, min, max,
}
use public_gbrain_agentos.Base.Int.{ℤ, pos, negsuc}
use public_gbrain_agentos.Base.Text.{Text}
use public_gbrain_agentos.Base.Json.{
  Json, null, int, str, arr, Items, nil, cons, Fields, end, field, obj,
}
use public_gbrain_agentos.Base.Audit.{AuditEntry, log_audit}
use public_gbrain_agentos.Auth.Errors.{AuthError}
use public_gbrain_agentos.Auth.Scopes.{AgentContext, check_write_scope}
use public_gbrain_agentos.TaskBoard.Agents.{Agent}
use public_gbrain_agentos.TaskBoard.Store.Rows.{
  Task, TaskStatus, Entry, Board, TaskError, new, progress, review, done, blocked, lacks_scope,
  unauthenticated, not_found, reopen_refused,
}
use public_gbrain_agentos.TaskBoard.Store.{
  Update, create_task, update_task, get_task, list_tasks, transition_status, list_task_history,
}

pub record Service : Type 0 where
  pub board : Board
  pub agents : List Agent
  pub audit : List AuditEntry

-- a tool raises and changes nothing, or returns beside the new state
abbrev pub Tool : Type 0 → Type 0
Tool A = Service → Result TaskError (A × Service)

abbrev pub Caller : Type 0
Caller = Result AuthError AgentContext

abbrev pub tasks_write_scope : String
tasks_write_scope = "10-tasks"

unfoldable pub require_write : AgentContext → Result TaskError Unit
require_write agent_ctx = raise_if (not (check_write_scope agent_ctx tasks_write_scope)) lacks_scope

unfoldable pub resolve_caller : Caller → Result TaskError AgentContext
resolve_caller (ok agent_ctx) = ok agent_ctx
resolve_caller (err e) = err (unauthenticated e)

-- `log_audit` of a call that succeeds
pub logged : Bool → String → String → Fields → Service → Service
unfolding log_audit
logged written agent tool args w = record w {
  audit =
      log_audit written
        (record {
          agent = agent;
          tool = tool;
          args_summary = args;
          result_status = "ok";
          latency_ms = 0;
          error = none;
        })
        w.audit;
}

audited : {A : Type 0} → Bool → String → String → Fields → Service → A × Board → A × Service
unfolding logged
audited written agent tool args w (result, board) =
    (result, logged written agent tool args (record w { board = board }))

abbrev pub map_ok : {A B : Type 0} → (A → B) → Result TaskError A → Result TaskError B
map_ok f m = m >>= λ a. ok (f a)

-- identity, write scope, the store's function, and an audit entry: the shape of every writing tool
writing :
    {A : Type 0}
    → Caller
    → Bool
    → String
    → (A → Fields)
    → (AgentContext → Board → Result TaskError (A × Board))
    → Tool A
unfolding audited
writing caller written tool args operation w = resolve_caller caller >>= λ agent_ctx.
    require_write agent_ctx
    >> map_ok (λ (r, b). audited written agent_ctx.agent tool (args r) w (r, b))
        (operation agent_ctx w.board)

reading : {A : Type 0} → Caller → (Board → Result TaskError A) → Tool A
reading caller query w = resolve_caller caller >> map_ok (λ r. (r, w)) (query w.board)

-- a `str | None` argument in the summary of a call
pub json_option : Option String → Json
json_option none = null
json_option (some s) = str s

unfoldable pub task_create :
    ℕ
    → Bool
    → Caller
    → Text
    → String
    → Option String
    → String
    → Option Fields
    → (Text → Json)
    → Tool Task
unfolding writing json_option
task_create now written caller title description assignee priority metadata quote =
    writing caller written "task_create"
      (λ r.
        field "title" (quote title)
          (field "assignee" (json_option assignee) (field "id" (int (pos r.id)) end)))
      (λ agent_ctx. create_task now agent_ctx.agent title description assignee priority metadata)

name_if : {A : Type 0} → Option A → String → Items → Items
name_if none name names = names
name_if (some a) name names = cons (str name) names

updated_names : Update → Items
unfolding name_if
updated_names u = name_if u.title "title" (
    name_if u.description "description" (
      name_if u.assignee "assignee"
        (name_if u.priority "priority" (name_if u.metadata "metadata" nil))))

unfoldable pub task_update : ℕ → Bool → Caller → ℕ → Update → Tool Task
unfolding writing updated_names
task_update now written caller task_id u =
    writing caller written "task_update"
      (λ r. field "task_id" (int (pos task_id)) (field "fields" (arr (updated_names u)) end))
      (λ agent_ctx. update_task now task_id u)

unfoldable pub task_get : Caller → ℕ → Tool (Option Task)
unfolding reading
task_get caller task_id = reading caller (λ b. ok (get_task task_id b))

-- max(1, min(limit, 500))
unfoldable pub clamp_limit : ℤ → ℕ
clamp_limit (pos limit) = max 1 (min limit 500)
clamp_limit (negsuc n) = 1

unfoldable pub task_list : Caller → Option String → Option String → ℤ → Tool (List Task)
unfolding reading
task_list caller assignee status limit =
    reading caller (list_tasks assignee status (clamp_limit limit))

transition_tool : String → String → String → ℕ → Bool → Caller → ℕ → Option String → Tool Task
unfolding writing json_option
transition_tool tool target label now written caller task_id remark =
    writing caller written tool
      (λ r. field "task_id" (int (pos task_id)) (field label (json_option remark) end))
      (λ agent_ctx. transition_status now task_id agent_ctx.agent target remark)

unfoldable pub task_start : ℕ → Bool → Caller → ℕ → Option String → Tool Task
unfolding transition_tool
task_start = transition_tool "task_start" "progress" "note"

unfoldable pub task_review : ℕ → Bool → Caller → ℕ → Option String → Tool Task
unfolding transition_tool
task_review = transition_tool "task_review" "review" "note"

unfoldable pub task_done : ℕ → Bool → Caller → ℕ → Option String → Tool Task
unfolding transition_tool
task_done = transition_tool "task_done" "done" "note"

unfoldable pub task_block : ℕ → Bool → Caller → ℕ → Option String → Tool Task
unfolding transition_tool
task_block = transition_tool "task_block" "blocked" "reason"

-- the names of the current status and of the target
reopen_target : TaskStatus → Option (String × String)
reopen_target blocked = some ("blocked", "new")
reopen_target review = some ("review", "progress")
reopen_target _ = none

-- The current status is read outside the transaction of the transition: `seen` is the board that
-- the read meets, and the transition meets the board of `w`.
unfoldable pub task_reopen : ℕ → Bool → Caller → ℕ → Option String → Board → Tool Task
unfolding audited json_option reopen_target
task_reopen now written caller task_id remark seen w = resolve_caller caller >>= λ agent_ctx.
    require_write agent_ctx >> elim (get_task task_id seen) [
      | none ↦ err not_found
      | some current ↦ elim (reopen_target current.status) [
        | none ↦ err reopen_refused
        | some (source, target) ↦
            map_ok
              (audited written agent_ctx.agent "task_reopen"
                (field "task_id" (int (pos task_id)) (
                  field "from" (str source)
                    (field "to" (str target) (field "note" (json_option remark) end))))
                w)
              (transition_status now task_id agent_ctx.agent target remark w.board)
      ]
    ]

unfoldable pub task_history : Caller → ℕ → Tool (List Entry)
unfolding reading
task_history caller task_id = reading caller (λ b. ok (list_task_history task_id b))
