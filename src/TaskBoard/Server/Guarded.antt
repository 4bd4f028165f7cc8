-- ===== src/TaskBoard/Server/Guarded.antt =====
-- What the reading tools of the task board return.
use public_gbrain_agentos.Base.{
  ℕ, ◌≤◌, ◌≡◌, ◌∙◌, refl, String, Bool, true, ◌&&◌, Option, none, some, List, arith, All, All-map,
  inl, inr, Option-cases, Result, ok, err, length,
}
use public_gbrain_agentos.Base.Int.{ℤ, pos, negsuc}
use public_gbrain_agentos.Base.Table.{select, All-true}
use public_gbrain_agentos.Base.Table.Subsets.{All-select}
use public_gbrain_agentos.Base.Table.Counts.{length-select}
use public_gbrain_agentos.TaskBoard.Store.Rows.{Task, TaskStatus, Board, TaskError, parse_status}
use public_gbrain_agentos.TaskBoard.Store.{list_tasks, newer_first, is_assigned, is_status}
use public_gbrain_agentos.TaskBoard.Server.{
  Service, Caller, resolve_caller, reading, map_ok, clamp_limit, task_list,
}

clamp_bounds : (limit : ℤ) → (1 ≤ clamp_limit limit) × (clamp_limit limit ≤ 500)
unfolding clamp_limit
clamp_bounds (pos n) = (omega arith, omega arith)
clamp_bounds (negsuc n) = (omega arith, omega arith)

-- the filter by status, where the name is valid or absent
abbrev pub HasStatus : Option String → Task → Type 0
HasStatus none r = Unit
HasStatus (some status) r =
    (s : TaskStatus) × (parse_status status ≡ some s) × (is_status r.status s ≡ true)

list_tasks-matches :
    (assignee status : Option String) (limit : ℕ) (b : Board) (tasks : List Task)
    → list_tasks assignee status limit b ≡ ok tasks
    → All (λ r. (is_assigned assignee r ≡ true) × HasStatus status r) tasks × (length tasks ≤ limit)
unfolding list_tasks
list_tasks-matches assignee none limit b tasks h =
    let same : tasks ≡ select (is_assigned assignee) newer_first limit b.tasks = ground arith in
    rw same (
      All-map _ _ (λ r k. (k.1, tt)) _
          (All-select (λ _. Unit) (is_assigned assignee) newer_first limit b.tasks
            (All-true _ (λ _. tt) b.tasks)),
      omega (arith, length-select (is_assigned assignee) newer_first limit b.tasks),
    )
list_tasks-matches assignee (some status) limit b tasks h =
    elim (Option-cases (parse_status status)) [
      | inl unknown ↦ absurd (ground (arith, unknown))
      | inr (s, known) ↦
          let p : Task → Bool = λ r. is_assigned assignee r && is_status r.status s in
          let same : tasks ≡ select p newer_first limit b.tasks = ground (arith, known) in
          rw same (
            All-map _ _ (λ r k. (ground arith, (s, known, ground arith))) _
                (All-select (λ _. Unit) p newer_first limit b.tasks (All-true _ (λ _. tt) b.tasks)),
            omega (arith, length-select p newer_first limit b.tasks),
          )
    ]

-- For every limit, negative and huge ones too, `task_list` returns at most 500 tasks, each with the
-- assignee and the status asked for, and changes nothing.
pub task_list_bounded :
    (caller : Caller) (assignee status : Option String) (limit : ℤ) (w w' : Service)
    (tasks : List Task)
    → task_list caller assignee status limit w ≡ ok (tasks, w')
    → All (λ r. (is_assigned assignee r ≡ true) × HasStatus status r) tasks
      × (length tasks ≤ 500)
      × (w' ≡ w)
unfolding task_list reading resolve_caller
task_list_bounded (err e) assignee status limit w w' tasks h = absurd (ground arith)
task_list_bounded (ok agent_ctx) assignee status limit w w' tasks h =
    go (list_tasks assignee status (clamp_limit limit) w.board) refl h
  where
    go :
        (listed : Result TaskError (List Task))
        → list_tasks assignee status (clamp_limit limit) w.board ≡ listed
        → map_ok {B = List Task × Service} (λ r. (r, w)) listed ≡ ok (tasks, w')
        → All (λ r. (is_assigned assignee r ≡ true) × HasStatus status r) tasks
          × (length tasks ≤ 500)
          × (w' ≡ w)
    go (err e) listing k = absurd (ground arith)
    go (ok rows) listing k =
        let (matching, short) =
          list_tasks-matches assignee status (clamp_limit limit) w.board tasks
            (listing ∙ ground arith) in
        (matching, omega (arith, clamp_bounds limit), ground arith)
