-- ===== src/TaskBoard/Store/Machine.antt =====
-- What the operations do to the board, where they return.
use mathlib.Core.Path.{subst}
use public_gbrain_agentos.Base.{
  sym, ℕ, suc, ◌≡◌, refl, String, Bool, true, false, ◌&&◌, Option, some, List, [], ◌∷◌, ◌++◌, inl,
  inr, Bool-cases, Option-cases, ◌==◌, Result, ok, err, if◌then◌else◌, ◌>>=◌,
}
use public_gbrain_agentos.Base.Text.{Text}
use public_gbrain_agentos.Base.Json.{Fields}
use public_gbrain_agentos.Base.Table.{update_where}
use public_gbrain_agentos.TaskBoard.Store.Rows.{
  Task, TaskStatus, Priority, Board, TaskError, no_fields, by_task_id, parse_status, parse_priority,
}
use public_gbrain_agentos.Base.Table.Keys.{lookup, key-lookup}
use public_gbrain_agentos.TaskBoard.Store.{
  Update, create_task, insert_task, update_task, transition_status, move_task, valid_transition,
  has_title, is_no_update, check_title, check_priority, update_fields, returning, set_fields,
}

-- A call of the store, with what it was given and the time of its transaction.
pub data Op : Type 0 where
  create : ℕ → String → Text → String → Option String → String → Option Fields → Op
  update : ℕ → ℕ → Update → Op
  transition : ℕ → ℕ → String → String → Option String → Op

unfoldable pub call : Op → Board → Result TaskError (Task × Board)
call (create now agent title description assignee priority metadata) b =
    create_task now agent title description assignee priority metadata b
call (update now task_id u) b = update_task now task_id u b
call (transition now task_id agent new_status remark) b =
    transition_status now task_id agent new_status remark b

abbrev pub keep_board : Board → Result TaskError (Task × Board) → Board
keep_board b (ok (r, b')) = b'
keep_board b (err e) = b

-- A call that raises leaves the board alone.
unfoldable pub run : List Op → Board → Board
run [] b = b
run (op ∷ ops) b = run ops (keep_board b (call op b))

-- The three ways in which a call changes a board.
pub data Change (b : Board) : Board → Type 0 where
  added :
      (r : Task)
      → r.id ≡ b.next_id
      → r.status ≡ TaskStatus.new
      → Change b (record b { tasks = b.tasks ++ r ∷ []; next_id = suc b.next_id })
  edited :
      (task_id : ℕ) (f : Task → Task)
      → ((r : Task) → (f r).id ≡ r.id)
      → ((r : Task) → (f r).status ≡ r.status)
      → Change b (record b { tasks = update_where (λ r. (r.id == task_id) && true) f b.tasks })
  moved :
      (now : ℕ) (agent : String) (remark : Option String) (r : Task) (s : TaskStatus)
      → lookup by_task_id r.id b.tasks ≡ some r
      → valid_transition r.status s ≡ true
      → Change b (move_task now r.id agent s remark r b).1
  unchanged : Change b b

create-Change :
    (now : ℕ) (agent : String) (title : Text) (description : String) (assignee : Option String)
    (priority : String) (metadata : Option Fields) (b : Board)
    → Change b (keep_board b (create_task now agent title description assignee priority metadata b))
unfolding create_task insert_task
create-Change now agent title description assignee priority metadata b =
    elim (Bool-cases (has_title title)) [
      | inl titled ↦ elim (Option-cases (parse_priority priority)) [
        | inl unknown ↦ rw (titled, unknown) unchanged
        | inr (p, known) ↦ rw (titled, known) (added _ refl refl)
      ]
      | inr untitled ↦ rw untitled unchanged
    ]

update_fields-Change :
    (now task_id : ℕ) (u : Update) (b : Board) (title : Option Text) (priority : Option Priority)
    → Change b (keep_board b (update_fields now task_id u b title priority))
unfolding update_fields returning set_fields
update_fields-Change now task_id u b title priority =
    let f = set_fields now u title priority in
    let b' : Board = record b { tasks = update_where (λ r. (r.id == task_id) && true) f b.tasks } in
    elim (Option-cases (lookup by_task_id task_id b'.tasks)) [
      | inl missing ↦ rw (missing, update_fields, returning) unchanged
      | inr (r, found) ↦
          rw (found, update_fields, returning) (edited task_id f (λ r. refl) (λ r. refl))
    ]

update-Change :
    (now task_id : ℕ) (u : Update) (b : Board)
    → Change b (keep_board b (update_task now task_id u b))
unfolding update_task
update-Change now task_id u b =
    go (is_no_update u) (check_title u.title) (check_priority u.priority)
  where
    go :
        (none_given : Bool) (title : Result TaskError (Option Text))
        (priority : Result TaskError (Option Priority))
        → Change b (
            keep_board b (
              if none_given
              then err no_fields
              else title >>= λ t. priority >>= λ p. update_fields now task_id u b t p))
    go true title priority = unchanged
    go false (err e) priority = unchanged
    go false (ok t) (err e) = unchanged
    go false (ok t) (ok p) = update_fields-Change now task_id u b t p

transition-Change :
    (now task_id : ℕ) (agent new_status : String) (remark : Option String) (b : Board)
    → Change b (keep_board b (transition_status now task_id agent new_status remark b))
unfolding transition_status
transition-Change now task_id agent new_status remark b =
    elim (Option-cases (parse_status new_status)) [
      | inl unknown ↦ rw (unknown, transition_status) unchanged
      | inr (s, known) ↦ elim (Option-cases (lookup by_task_id task_id b.tasks)) [
        | inl missing ↦ rw (known, missing, transition_status) unchanged
        | inr (r, found) ↦ elim (Bool-cases (valid_transition r.status s)) [
          | inl valid ↦
              let same : task_id ≡ r.id = sym (key-lookup by_task_id task_id b.tasks r found) in
              rw (known, found, valid, transition_status)
                (subst (λ k. Change b (move_task now k agent s remark r b).1) (sym same)
                  (moved now agent remark r s
                    (subst (λ k. lookup by_task_id k b.tasks ≡ some r) same found) valid))
          | inr refused ↦ rw (known, found, refused, transition_status) unchanged
        ]
      ]
    ]

pub call-Change : (op : Op) (b : Board) → Change b (keep_board b (call op b))
unfolding call
call-Change (create now agent title description assignee priority metadata) b =
    create-Change now agent title description assignee priority metadata b
call-Change (update now task_id u) b = update-Change now task_id u b
call-Change (transition now task_id agent new_status remark) b =
    transition-Change now task_id agent new_status remark b
