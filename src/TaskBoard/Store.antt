-- ===== src/TaskBoard/Store.antt =====
-- services/task_mcp/store.py over the tables of migrations/005_tasks.sql. `now` is the time of the
-- transaction; a function that raises leaves the board alone.
pub mod Rows
pub mod Machine
pub mod Sound
pub mod Final
use Rows.{
  Task, TaskStatus, Priority, Entry, Board, TaskError, new, progress, review, done, blocked, low,
  medium, high, critical, by_task_id, parse_status, parse_priority, empty_title, invalid_priority,
  no_fields, not_found, invalid_status, not_allowed,
}
use public_gbrain_agentos.Base.{
  ℕ, suc, String, Bool, true, false, not, ◌&&◌, ◌||◌, Option, none, some, List, [], ◌∷◌, ◌++◌, leb,
  ◌==◌, ◌=ₛ◌, keep, Result, ok, err, ◌>>=◌, raise_if, if◌then◌else◌,
}
use public_gbrain_agentos.Base.Text.{Text, is_empty, strip}
use public_gbrain_agentos.Base.Json.{Fields, end}
use public_gbrain_agentos.Base.Table.{update_where, select, sort_by}
use public_gbrain_agentos.Base.Table.Keys.{lookup}

abbrev has_title : Text → Bool
has_title title = not (is_empty title || is_empty (strip title))

-- `metadata or {}`
or_empty : Option Fields → Fields
or_empty none = end
or_empty (some metadata) = metadata

insert_task : Task → Board → Task × Board
insert_task task b = (task, record b { tasks = b.tasks ++ task ∷ []; next_id = suc b.next_id })

unfoldable pub create_task :
    ℕ
    → String
    → Text
    → String
    → Option String
    → String
    → Option Fields
    → Board
    → Result TaskError (Task × Board)
unfolding insert_task or_empty
create_task now agent title description assignee priority metadata b =
    if has_title title
    then elim (parse_priority priority) [
      | none ↦ err invalid_priority
      | some p ↦ ok (
          insert_task
            (record {
              id = b.next_id;
              title = strip title;
              description = description;
              status = new;
              assignee = assignee;
              priority = p;
              created_by = agent;
              created_at = now;
              updated_at = now;
              metadata = or_empty metadata;
            })
            b)
    ]
    else err empty_title

-- the keyword arguments of `update_task` that are not None
pub record Update : Type 0 where
  pub title : Option Text
  pub description : Option String
  pub assignee : Option String
  pub priority : Option String
  pub metadata : Option Fields

abbrev is_none {ℓ} : {A : Type ℓ} → Option A → Bool
is_none none = true
is_none (some a) = false

abbrev is_no_update : Update → Bool
is_no_update u =
    is_none u.title
    && is_none u.description
    && is_none u.assignee
    && is_none u.priority
    && is_none u.metadata

check_title : Option Text → Result TaskError (Option Text)
check_title none = ok none
check_title (some title) = if has_title title then ok (some (strip title)) else err empty_title

check_priority : Option String → Result TaskError (Option Priority)
check_priority none = ok none
check_priority (some priority) = elim (parse_priority priority) [
  | none ↦ err invalid_priority
  | some p ↦ ok (some p)
]

abbrev pub given {ℓ} : {A : Type ℓ} → Option A → A → A
given none old = old
given (some value) old = value

-- the SET clause
set_fields : ℕ → Update → Option Text → Option Priority → Task → Task
set_fields now u title priority r = record r {
  title = given title r.title;
  description = given u.description r.description;
  assignee = elim u.assignee [ none ↦ r.assignee | some a ↦ some a ];
  priority = given priority r.priority;
  metadata = given u.metadata r.metadata;
  updated_at = now;
}

-- UPDATE … WHERE id = … RETURNING: the row as it is after the update
returning : ℕ → Board → Result TaskError (Task × Board)
returning task_id b = elim (lookup by_task_id task_id b.tasks) [
  | none ↦ err not_found
  | some r ↦ ok (r, b)
]

update_fields :
    ℕ → ℕ → Update → Board → Option Text → Option Priority → Result TaskError (Task × Board)
unfolding set_fields returning
update_fields now task_id u b title priority = returning task_id (record b {
  tasks = update_where (λ r. (r.id == task_id) && true) (set_fields now u title priority) b.tasks;
})

unfoldable pub update_task : ℕ → ℕ → Update → Board → Result TaskError (Task × Board)
unfolding check_title check_priority update_fields
update_task now task_id u b =
    if is_no_update u
    then err no_fields
    else check_title u.title >>= λ title.
        check_priority u.priority >>= λ priority. update_fields now task_id u b title priority

unfoldable pub get_task : ℕ → Board → Option Task
get_task task_id b = lookup by_task_id task_id b.tasks

abbrev pub newer_first : Task → Task → Bool
newer_first r s = leb s.created_at r.created_at

abbrev pub is_assigned : Option String → Task → Bool
is_assigned none r = true
is_assigned (some a) r = elim r.assignee [ none ↦ false | some b ↦ b =ₛ a ]

unfoldable pub is_status : TaskStatus → TaskStatus → Bool
is_status new new = true
is_status progress progress = true
is_status review review = true
is_status done done = true
is_status blocked blocked = true
is_status _ _ = false

unfoldable pub list_tasks : Option String → Option String → ℕ → Board → Result TaskError (List Task)
list_tasks assignee none limit b = ok (select (is_assigned assignee) newer_first limit b.tasks)
list_tasks assignee (some status) limit b = elim (parse_status status) [
  | none ↦ err invalid_status
  | some s ↦
      ok (select (λ r. is_assigned assignee r && is_status r.status s) newer_first limit b.tasks)
]

-- VALID_TRANSITIONS
unfoldable pub valid_transition : TaskStatus → TaskStatus → Bool
valid_transition new progress = true
valid_transition new blocked = true
valid_transition progress review = true
valid_transition progress blocked = true
valid_transition review done = true
valid_transition review progress = true
valid_transition blocked new = true
valid_transition blocked progress = true
valid_transition _ _ = false

-- the UPDATE and the INSERT of one transaction
pub move_task : ℕ → ℕ → String → TaskStatus → Option String → Task → Board → Task × Board
move_task now task_id agent new_status remark old b = (
  record old { status = new_status; updated_at = now },
  record b {
    tasks =
        update_where (λ r. (r.id == task_id) && true)
          (λ r. record r { status = new_status; updated_at = now }) b.tasks;
    history =
        b.history
        ++ record {
          id = b.next_entry;
          task_id = task_id;
          old_status = old.status;
          new_status = new_status;
          changed_by = agent;
          note = remark;
          changed_at = now;
        }
          ∷ [];
    next_entry = suc b.next_entry;
  },
)

unfoldable pub transition_status :
    ℕ → ℕ → String → String → Option String → Board → Result TaskError (Task × Board)
unfolding move_task
transition_status now task_id agent new_status remark b = elim (parse_status new_status) [
  | none ↦ err invalid_status
  | some s ↦ elim (lookup by_task_id task_id b.tasks) [
    | none ↦ err not_found
    | some r ↦
        if valid_transition r.status s
        then ok (move_task now task_id agent s remark r b)
        else err not_allowed
  ]
]

abbrev earlier_first : Entry → Entry → Bool
earlier_first e f = leb e.changed_at f.changed_at

unfoldable pub list_task_history : ℕ → Board → List Entry
list_task_history task_id b = sort_by earlier_first (keep (λ e. e.task_id == task_id) b.history)
