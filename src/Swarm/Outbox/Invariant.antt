-- ===== src/Swarm/Outbox/Invariant.antt =====
-- The constraints of the table (a primary key, a unique task_id, a sequence ahead of every id) hold
-- after every query.
use public_gbrain_agentos.Base.{
  ℕ, suc, ◌<◌, String, ◌≡◌, refl, Bool, Option, none, List, [], ◌∷◌, ◌++◌, arith, All, All-map,
  All-append, inl, inr, Option-cases, leb, Bool-cases,
}
use public_gbrain_agentos.Base.Json.{Fields}
use public_gbrain_agentos.Base.Table.{update_where, All-update}
use public_gbrain_agentos.Base.Table.Keys.{lookup, Distinct, Distinct-update, Distinct-append_one}
use public_gbrain_agentos.Swarm.Outbox.Rows.{Row, Outbox, by_task_id, by_id}
use public_gbrain_agentos.Swarm.Outbox.{
  insert_row, enqueue, mark_sent, mark_acked, mark_retry, mark_deferred, sweep_ack_missing,
}

pub record IsWellFormed (t : Outbox) : Type 0 where
  pub task_ids : Distinct by_task_id t.rows
  pub ids : Distinct by_id t.rows
  pub sequence : All (λ r. r.id < t.next_id) t.rows

-- An UPDATE that leaves both keys alone keeps the constraints.
pub update-IsWellFormed :
    (p : Row → Bool) (f : Row → Row)
    → ((r : Row) → (f r).id ≡ r.id)
    → ((r : Row) → (f r).task_id ≡ r.task_id)
    → (t : Outbox) → IsWellFormed t
    → IsWellFormed (record t { rows = update_where p f t.rows })
update-IsWellFormed p f ids task_ids t h = record {
  task_ids = Distinct-update by_task_id p f task_ids t.rows h.task_ids;
  ids = Distinct-update by_id p f ids t.rows h.ids;
  sequence =
      All-update (λ r. r.id < t.next_id) p f (λ r lt _. ground (arith, ids r)) t.rows h.sequence;
}

unused_id : (n : ℕ) (rows : List Row) → All (λ r. r.id < n) rows → lookup by_id n rows ≡ none
unfolding lookup
unused_id n [] h = refl
unused_id n (r ∷ rs) h = ground (arith, unused_id n rs h.1)

insert_new-IsWellFormed :
    (r : Row) (t : Outbox)
    → r.id ≡ t.next_id
    → lookup by_task_id r.task_id t.rows ≡ none
    → IsWellFormed t
    → IsWellFormed (record { rows = t.rows ++ r ∷ []; next_id = suc t.next_id })
insert_new-IsWellFormed r t e new h = record {
  task_ids = Distinct-append_one by_task_id t.rows r h.task_ids new;
  ids =
      Distinct-append_one by_id t.rows r h.ids
        (ground (arith, unused_id t.next_id t.rows h.sequence));
  sequence =
      All-append (λ s. s.id < suc t.next_id) t.rows (r ∷ [])
        (All-map (λ s. s.id < t.next_id) (λ s. s.id < suc t.next_id) (λ s lt. omega arith) t.rows
          h.sequence)
        (omega arith, tt);
}

next_id-IsWellFormed :
    (t : Outbox) → IsWellFormed t → IsWellFormed (record t { next_id = suc t.next_id })
next_id-IsWellFormed t h = record {
  task_ids = h.task_ids;
  ids = h.ids;
  sequence =
      All-map (λ s. s.id < t.next_id) (λ s. s.id < suc t.next_id) (λ s lt. omega arith) t.rows
        h.sequence;
}

insert_row-IsWellFormed :
    (now : ℕ) (r : Row) (t : Outbox)
    → r.id ≡ t.next_id
    → IsWellFormed t
    → IsWellFormed (insert_row now r t)
unfolding insert_row
insert_row-IsWellFormed now r t e h = elim (Option-cases (lookup by_task_id r.task_id t.rows)) [
  | inl new ↦ rw (new, insert_row) (insert_new-IsWellFormed r t e new h)
  | inr (s, old) ↦
      rw (old, insert_row)
        (next_id-IsWellFormed (record t { rows = update_where _ _ t.rows })
          (update-IsWellFormed _ _ (λ r. refl) (λ r. refl) t h))
]

module _ (t : Outbox) (h : IsWellFormed t) where
  pub enqueue-IsWellFormed :
      (now : ℕ) (nonce from_agent to_agent : String) (payload : Fields) (task_id : Option String)
      (max_attempts : ℕ)
      → IsWellFormed (enqueue now nonce from_agent to_agent payload task_id max_attempts t).1
  unfolding enqueue
  enqueue-IsWellFormed now nonce from_agent to_agent payload task_id max_attempts =
      insert_row-IsWellFormed now _ t refl h

  pub mark_sent-IsWellFormed : (now : ℕ) (k : String) → IsWellFormed (mark_sent now k t).1
  unfolding mark_sent
  mark_sent-IsWellFormed now k = update-IsWellFormed _ _ (λ r. refl) (λ r. refl) t h

  pub mark_acked-IsWellFormed : (now : ℕ) (k : String) → IsWellFormed (mark_acked now k t).1
  unfolding mark_acked
  mark_acked-IsWellFormed now k = update-IsWellFormed _ _ (λ r. refl) (λ r. refl) t h

  pub sweep-IsWellFormed : (now timeout : ℕ) → IsWellFormed (sweep_ack_missing now timeout t).1
  unfolding sweep_ack_missing
  sweep-IsWellFormed now timeout = update-IsWellFormed _ _ (λ r. refl) (λ r. refl) t h

  pub mark_deferred-IsWellFormed : (now i delay : ℕ) → IsWellFormed (mark_deferred now i delay t).1
  unfolding mark_deferred
  mark_deferred-IsWellFormed now i delay = update-IsWellFormed _ _ (λ r. refl) (λ r. refl) t h

  pub mark_retry-IsWellFormed : (now i n m : ℕ) → IsWellFormed (mark_retry now i n m t).1
  unfolding mark_retry
  mark_retry-IsWellFormed now i n m = elim (Bool-cases (leb m n)) [
    | inl e ↦ rw e (update-IsWellFormed _ _ (λ r. refl) (λ r. refl) t h)
    | inr e ↦ rw e (update-IsWellFormed _ _ (λ r. refl) (λ r. refl) t h)
  ]
