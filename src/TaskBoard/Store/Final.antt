-- ===== src/TaskBoard/Store/Final.antt =====
-- What no call takes back.
use mathlib.Core.Option.{some-injective}
use public_gbrain_agentos.Base.{
  sym, ap, ◌∙◌, ℕ, ◌≡◌, ◌≢◌, refl, true, some, List, [], ◌∷◌, arith, inl, inr, Bool-cases, ◌==◌,
  ==_iff,
}
use public_gbrain_agentos.Base.Table.Keys.{lookup, lookup-append, lookup-update}
use public_gbrain_agentos.TaskBoard.Store.Rows.{Task, TaskStatus, Board, by_task_id, done}
use public_gbrain_agentos.TaskBoard.Store.{valid_transition, move_task}
use public_gbrain_agentos.TaskBoard.Store.Machine.{
  Op, Change, added, edited, moved, unchanged, call, call-Change, run, keep_board,
}

done_ends : (s t : TaskStatus) → valid_transition s t ≡ true → s ≢ done
unfolding valid_transition
done_ends s t h e = ground arith

-- the task `k` is there, and done
abbrev pub IsDone : ℕ → Board → Type 0
IsDone k b = (r : Task) × (lookup by_task_id k b.tasks ≡ some r) × (r.status ≡ done)

Change-IsDone : (k : ℕ) (b b' : Board) → Change b b' → IsDone k b → IsDone k b'
Change-IsDone k b _ (added r e fresh) (s, found, closed) =
    (s, ground (arith, lookup-append by_task_id k b.tasks (r ∷ [])), closed)
Change-IsDone k b _ (edited task_id f ids statuses) (s, found, closed) =
    elim (Bool-cases (task_id == k)) [
      | inl same ↦ (
        f s,
        ground (arith, lookup-update by_task_id task_id k (λ _. true) f ids b.tasks),
        ground (arith, statuses s),
      )
      | inr other ↦
          (s, ground (arith, lookup-update by_task_id task_id k (λ _. true) f ids b.tasks), closed)
    ]
Change-IsDone k b _ (moved now agent remark r t there valid) (s, found, closed) =
    elim (Bool-cases (r.id == k)) [
      | inl same ↦
          let key : k ≡ r.id = ground (arith, ==_iff r.id k) in
          let it : r ≡ s =
            some-injective r s
              (sym there ∙ ap (λ i. lookup by_task_id i b.tasks) (sym key) ∙ found) in
          absurd (done_ends r.status t valid (ap (λ (u : Task). u.status) it ∙ closed))
      | inr other ↦ (
        s,
        unfold move_task in
            ground (
              arith,
              lookup-update by_task_id r.id k (λ _. true)
                  (λ u. record u { status = t; updated_at = now }) (λ _. refl) b.tasks,
            ),
        closed,
      )
    ]
Change-IsDone k b _ unchanged h = h

-- A task that is done stays, and stays done, through any sequence of calls.
pub run-IsDone : (ops : List Op) (k : ℕ) (b : Board) → IsDone k b → IsDone k (run ops b)
unfolding run
run-IsDone [] k b h = h
run-IsDone (op ∷ ops) k b h =
    run-IsDone ops k (keep_board b (call op b)) (Change-IsDone k b _ (call-Change op b) h)
