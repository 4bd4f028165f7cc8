-- ===== src/TaskBoard/Tests.antt =====
-- The task board at concrete inputs.
use public_gbrain_agentos.Base.{
  ◌≡◌, refl, false, none, some, List, [], ◌∷◌, arith, ◌=ₛ◌, if◌then◌else◌, ok,
}
use public_gbrain_agentos.Base.Int.{pos}
use public_gbrain_agentos.Base.Text.{Text, text}
use public_gbrain_agentos.Base.Json.{Json, null, end}
use public_gbrain_agentos.Base.Table.Keys.{lookup}
use public_gbrain_agentos.Base.Table.{update_where, select, sort_by, insert_by}
use public_gbrain_agentos.Auth.Scopes.{AgentContext, check_write_scope}
use public_gbrain_agentos.TaskBoard.Agents.{
  Agent, by_agent_name, heartbeat, new_agent, seen_again, online, busy, get_agent,
}
use public_gbrain_agentos.TaskBoard.Agents.Heartbeat.{heartbeat_effect}
use public_gbrain_agentos.Base.Table.Keys.{Distinct}
use public_gbrain_agentos.TaskBoard.Store.Rows.{Task, Entry, Board, new, progress, done, medium}
use public_gbrain_agentos.TaskBoard.Store.{Update, list_tasks, is_status, valid_transition}
use public_gbrain_agentos.TaskBoard.Store.Machine.{Op, create, transition, run}
use public_gbrain_agentos.TaskBoard.Store.Sound.{IsSound, replay, run-IsSound}
use public_gbrain_agentos.TaskBoard.Store.Final.{IsDone, run-IsDone}
use public_gbrain_agentos.TaskBoard.Server.{
  Service, tasks_write_scope, clamp_limit, resolve_caller, task_list,
}

abbrev task : Task
task = record {
  id = 1;
  title = text "Write it down";
  description = "";
  status = progress;
  assignee = some "bob";
  priority = medium;
  created_by = "ann";
  created_at = 10;
  updated_at = 20;
  metadata = end;
}

abbrev started : Entry
started = record {
  id = 1;
  task_id = 1;
  old_status = new;
  new_status = progress;
  changed_by = "bob";
  note = none;
  changed_at = 20;
}

abbrev board : Board
board = record { tasks = task ∷ []; next_id = 2; history = started ∷ []; next_entry = 2 }

board-IsSound : IsSound board
unfolding lookup replay is_status valid_transition
board-IsSound = record {
  ids = (refl, tt);
  sequence = (omega arith, tt);
  entries = (omega arith, tt);
  replayed = (refl, tt);
}

abbrev ops : List Op
ops =
    transition 30 1 "bob" "review" none
    ∷ transition 40 1 "ann" "done" (some "fine")
    ∷ transition 50 1 "bob" "progress" none
    ∷ create 60 "ann" (text "Next") "" none "high" none
    ∷ []

run-IsSound_example : IsSound (run ops board)
run-IsSound_example = run-IsSound ops board board-IsSound

abbrev closed_board : Board
closed_board = record board { tasks = record task { status = done } ∷ [] }

closed-IsDone : IsDone 1 closed_board
unfolding lookup
closed-IsDone = (record task { status = done }, refl, refl)

run-IsDone_example : IsDone 1 (run ops closed_board)
run-IsDone_example = run-IsDone ops 1 closed_board closed-IsDone

abbrev reader : AgentContext
reader = record { agent = "eve"; write_scopes = "20-daily" ∷ []; read_scopes = "*" ∷ [] }

reader_lacks : check_write_scope reader tasks_write_scope ≡ false
unfolding check_write_scope
reader_lacks = refl

abbrev service : Service
service = record { board = board; agents = []; audit = [] }

abbrev no_update : Update
no_update = record {
  title = none;
  description = none;
  assignee = none;
  priority = none;
  metadata = none;
}

abbrev quote : Text → Json
quote title = null

listed :
    task_list (ok reader) (some "bob") (some "progress") (pos 9000) service
    ≡ ok (task ∷ [], service)
unfolding task_list list_tasks resolve_caller clamp_limit select sort_by insert_by is_status
listed = refl

abbrev registered : Agent
registered = new_agent 5 "bob" online (some "alpha") none end

abbrev registry : List Agent
registry = registered ∷ new_agent 6 "ann" busy none none end ∷ []

abbrev seen : Agent
seen = seen_again (new_agent 9 "bob" busy none (some "2.0") end) registered

registry-Distinct : Distinct by_agent_name registry
unfolding lookup
registry-Distinct = (refl, (refl, tt))

heartbeat_effect_example :
    Distinct by_agent_name (seen ∷ new_agent 6 "ann" busy none none end ∷ [])
    × (get_agent "ann" (seen ∷ new_agent 6 "ann" busy none none end ∷ [])
        ≡ (if "bob" =ₛ "ann" then some seen else get_agent "ann" registry))
    × (seen.last_seen ≡ 9)
unfolding heartbeat lookup update_where
heartbeat_effect_example =
    heartbeat_effect 9 "bob" "busy" none (some "2.0") none registry
      (seen ∷ new_agent 6 "ann" busy none none end ∷ []) seen "ann" registry-Distinct refl
