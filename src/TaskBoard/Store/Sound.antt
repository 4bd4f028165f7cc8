-- ===== src/TaskBoard/Store/Sound.antt =====
-- The history against the board: any sequence of calls keeps them in step.
use mathlib.Core.Option.{some-injective}
use public_gbrain_agentos.Base.{
  ℕ, suc, ◌<◌, ◌≡◌, ◌≢◌, refl, sym, ap, ◌∙◌, String, Bool, true, false, ◌&&◌, Option, none, some,
  List, [], ◌∷◌, ◌++◌, arith, inl, inr, Bool-cases, Option-cases, All, All-map, All-zip, All-append,
  ◌==◌, ==_iff, if◌then◌else◌,
}
use public_gbrain_agentos.Base.Table.{update_where, All-update, All-update_to}
use public_gbrain_agentos.Base.Table.Keys.{
  All-lookup, lookup, Distinct, Distinct-update, Distinct-append_one, lookup_self,
}
use public_gbrain_agentos.TaskBoard.Store.Rows.{
  Task, TaskStatus, Entry, Board, by_task_id, new, done,
}
use public_gbrain_agentos.TaskBoard.Store.{valid_transition, move_task, is_status}
use public_gbrain_agentos.TaskBoard.Store.Machine.{
  Op, Change, added, edited, moved, unchanged, call, call-Change, run, keep_board,
}

-- one entry of a task's history, from the status before it
abbrev replay_one : TaskStatus → Entry → Option TaskStatus
replay_one s e =
    if is_status e.old_status s && valid_transition s e.new_status then some e.new_status else none

abbrev replay_own : Bool → TaskStatus → Entry → Option TaskStatus
replay_own true s e = replay_one s e
replay_own false s e = some s

-- The status of the task `k` by its history: each entry starts at the status that the one before it
-- reached, and makes a valid transition.
unfoldable pub replay : ℕ → TaskStatus → List Entry → Option TaskStatus
replay k s [] = some s
replay k s (e ∷ es) = elim (replay_own (e.task_id == k) s e) [
  | none ↦ none
  | some t ↦ replay k t es
]

pub record IsSound (b : Board) : Type 0 where
  pub ids : Distinct by_task_id b.tasks
  pub sequence : All (λ r. r.id < b.next_id) b.tasks
  pub entries : All (λ e. e.task_id < b.next_id) b.history
  pub replayed : All (λ r. replay r.id new b.history ≡ some r.status) b.tasks

replay-append :
    (k : ℕ) (s t : TaskStatus) (es : List Entry) (e : Entry)
    → replay k s es ≡ some t
    → replay k s (es ++ e ∷ []) ≡ replay_own (e.task_id == k) t e
unfolding replay
replay-append k s t [] e h =
    rw (some-injective s t h, replay) (last (replay_own (e.task_id == k) t e))
  where
    last : (o : Option TaskStatus) → (elim o [ none ↦ none | some u ↦ replay k u [] ]) ≡ o
    last none = refl
    last (some u) = refl
replay-append k s t (d ∷ es) e h = elim (Option-cases (replay_own (d.task_id == k) s d)) [
  | inl broken ↦ absurd (ground (arith, broken))
  | inr (u, next) ↦ rw (next, replay) (replay-append k u t es e (ground (arith, next)))
]

replay_none :
    (k : ℕ) (s : TaskStatus) (es : List Entry)
    → All (λ e. e.task_id ≢ k) es
    → replay k s es ≡ some s
unfolding replay
replay_none k s [] h = refl
replay_none k s (e ∷ es) h = elim (Bool-cases (e.task_id == k)) [
  | inl same ↦ absurd (h.0 (ground (arith, ==_iff e.task_id k)))
  | inr other ↦ rw (other, replay) (replay_none k s es h.1)
]

unused_id :
    (n : ℕ) (tasks : List Task) → All (λ r. r.id < n) tasks → lookup by_task_id n tasks ≡ none
unfolding lookup
unused_id n [] h = refl
unused_id n (r ∷ rs) h = ground (arith, unused_id n rs h.1)

added-IsSound :
    (b : Board) (r : Task)
    → r.id ≡ b.next_id
    → r.status ≡ new
    → IsSound b
    → IsSound (record b { tasks = b.tasks ++ r ∷ []; next_id = suc b.next_id })
added-IsSound b r e fresh h = record {
  ids =
      Distinct-append_one by_task_id b.tasks r h.ids
        (ground (arith, unused_id b.next_id b.tasks h.sequence));
  sequence =
      All-append (λ s. s.id < suc b.next_id) b.tasks (r ∷ [])
        (All-map (λ s. s.id < b.next_id) _ (λ s lt. omega arith) b.tasks h.sequence)
        (omega arith, tt);
  entries = All-map (λ f. f.task_id < b.next_id) _ (λ f lt. omega arith) b.history h.entries;
  replayed =
      All-append (λ s. replay s.id new b.history ≡ some s.status) b.tasks (r ∷ []) h.replayed
        (
          rw
              (
                fresh,
                replay_none r.id new b.history (
                    All-map (λ f. f.task_id < b.next_id) _ (λ f lt same. omega arith) b.history
                      h.entries),
              )
              refl,
          tt,
        );
}

edited-IsSound :
    (b : Board) (p : Task → Bool) (f : Task → Task)
    → ((r : Task) → (f r).id ≡ r.id)
    → ((r : Task) → (f r).status ≡ r.status)
    → IsSound b
    → IsSound (record b { tasks = update_where p f b.tasks })
edited-IsSound b p f ids statuses h = record {
  ids = Distinct-update by_task_id p f ids b.tasks h.ids;
  sequence =
      All-update (λ r. r.id < b.next_id) p f (λ r lt _. ground (arith, ids r)) b.tasks h.sequence;
  entries = h.entries;
  replayed =
      All-update (λ r. replay r.id new b.history ≡ some r.status) p f
        (λ r k _. rw (ids r, statuses r) k) b.tasks h.replayed;
}

is_status_refl : (s : TaskStatus) → is_status s s ≡ true
unfolding is_status
is_status_refl new = refl
is_status_refl TaskStatus.progress = refl
is_status_refl TaskStatus.review = refl
is_status_refl done = refl
is_status_refl TaskStatus.blocked = refl

replay-own :
    (k : ℕ) (t : TaskStatus) (es : List Entry) (e : Entry)
    → e.task_id ≡ k
    → e.old_status ≡ t
    → valid_transition t e.new_status ≡ true
    → replay k new es ≡ some t
    → replay k new (es ++ e ∷ []) ≡ some e.new_status
replay-own k t es e same before valid h =
    rw (replay-append k new t es e h)
      (ground (arith, before, valid, is_status_refl t, ==_iff e.task_id k))

replay-other :
    (k : ℕ) (t : TaskStatus) (es : List Entry) (e : Entry)
    → e.task_id ≢ k
    → replay k new es ≡ some t
    → replay k new (es ++ e ∷ []) ≡ some t
replay-other k t es e other h =
    rw (replay-append k new t es e h) (ground (arith, ==_iff e.task_id k))

moved-IsSound :
    (b : Board) (now : ℕ) (agent : String) (remark : Option String) (r : Task) (s : TaskStatus)
    → lookup by_task_id r.id b.tasks ≡ some r
    → valid_transition r.status s ≡ true
    → IsSound b
    → IsSound (move_task now r.id agent s remark r b).1
unfolding move_task
moved-IsSound b now agent remark r s found valid h = record {
  ids = Distinct-update by_task_id _ _ (λ _. refl) b.tasks h.ids;
  sequence = All-update (λ t. t.id < b.next_id) _ _ (λ t lt _. lt) b.tasks h.sequence;
  entries =
      All-append (λ f. f.task_id < b.next_id) b.history _ h.entries
        (All-lookup by_task_id (λ t. t.id < b.next_id) r.id b.tasks r h.sequence found, tt);
  replayed =
      All-update_to
        (λ t.
          (replay t.id new b.history ≡ some t.status) × (lookup by_task_id t.id b.tasks ≡ some t))
        _ _ _
        (λ t k taken.
          let same : t.id ≡ r.id = ground (arith, ==_iff t.id r.id) in
          let it : t ≡ r =
            some-injective t r (sym k.1 ∙ ap (λ i. lookup by_task_id i b.tasks) same ∙ found) in
          replay-own t.id r.status b.history _ (sym same) refl valid
            (k.0 ∙ ap (λ (u : Task). some u.status) it))
        (λ t k passed.
          replay-other t.id t.status b.history _ (λ same. ground (arith, ==_iff t.id r.id)) k.0)
        b.tasks (All-zip _ _ b.tasks h.replayed (lookup_self by_task_id b.tasks h.ids));
}

pub Change-IsSound : (b b' : Board) → Change b b' → IsSound b → IsSound b'
Change-IsSound b _ (added r e fresh) h = added-IsSound b r e fresh h
Change-IsSound b _ (edited task_id f ids statuses) h = edited-IsSound b _ f ids statuses h
Change-IsSound b _ (moved now agent remark r s found valid) h =
    moved-IsSound b now agent remark r s found valid h
Change-IsSound b _ unchanged h = h

-- Any sequence of calls of the store, failing or not, keeps the board sound: task ids differ and
-- stay behind the sequence, and the history of each task replays, by valid transitions only, from
-- "new" to the status that the task has.
pub run-IsSound : (ops : List Op) (b : Board) → IsSound b → IsSound (run ops b)
unfolding run
run-IsSound [] b h = h
run-IsSound (op ∷ ops) b h =
    run-IsSound ops (keep_board b (call op b)) (Change-IsSound b _ (call-Change op b) h)
