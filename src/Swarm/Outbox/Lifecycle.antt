-- ===== src/Swarm/Outbox/Lifecycle.antt =====
-- Each query moves letters along the state machine, or not at all.
use public_gbrain_agentos.Base.{
  ℕ, ◌≤◌, String, ◌≡◌, Option, List, [], ◌∷◌, ◌++◌, arith, All, inl, inr, ==_iff, Option-cases, leb,
  Bool-cases, All-map,
}
use public_gbrain_agentos.Base.Json.{Fields}
use public_gbrain_agentos.Base.Table.{All-true}
use public_gbrain_agentos.Base.Table.Keys.{lookup, lookup-append}
use public_gbrain_agentos.Swarm.Outbox.Rows.{Row, Outbox, by_task_id, pending}
use public_gbrain_agentos.Swarm.Outbox.Steps.{Advances, Advances-update, RowStep-refl}
use public_gbrain_agentos.Swarm.Outbox.{
  insert_row, enqueue, mark_sent, mark_acked, mark_retry, mark_deferred, sweep_ack_missing,
}

-- A new row hides no old one.
Advances-append : (xs ys : List Row) → Advances xs (xs ++ ys)
Advances-append xs ys k r h = (r, ground (arith, lookup-append by_task_id k xs ys), RowStep-refl r)

insert_row-Advances : (now : ℕ) (r : Row) (t : Outbox) → Advances t.rows (insert_row now r t).rows
unfolding insert_row
insert_row-Advances now r t = elim (Option-cases (lookup by_task_id r.task_id t.rows)) [
  | inl new ↦ rw (new, insert_row) (Advances-append t.rows (r ∷ []))
  | inr (s, old) ↦
      rw (old, insert_row)
        (Advances-update _ _ t.rows (All-true _ (λ s taken. ground (arith, RowStep-refl s)) t.rows))
]

module _ (t : Outbox) where
  pub enqueue-Advances :
      (now : ℕ) (nonce from_agent to_agent : String) (payload : Fields) (task_id : Option String)
      (max_attempts : ℕ)
      → Advances t.rows
          (enqueue now nonce from_agent to_agent payload task_id max_attempts t).1.rows
  unfolding enqueue
  enqueue-Advances now nonce from_agent to_agent payload task_id max_attempts =
      insert_row-Advances now _ t

  pub mark_sent-Advances : (now : ℕ) (k : String) → Advances t.rows (mark_sent now k t).1.rows
  unfolding mark_sent
  mark_sent-Advances now k = Advances-update _ _ t.rows (All-true _ (λ r h. ground arith) t.rows)

  pub mark_acked-Advances : (now : ℕ) (k : String) → Advances t.rows (mark_acked now k t).1.rows
  unfolding mark_acked
  mark_acked-Advances now k = Advances-update _ _ t.rows (All-true _ (λ r h. ground arith) t.rows)

  pub sweep-Advances : (now timeout : ℕ) → Advances t.rows (sweep_ack_missing now timeout t).1.rows
  unfolding sweep_ack_missing
  sweep-Advances now timeout = Advances-update _ _ t.rows (All-true _ (λ r h. ground arith) t.rows)

  pub mark_deferred-Advances :
      (now i delay : ℕ) → Advances t.rows (mark_deferred now i delay t).1.rows
  unfolding mark_deferred
  mark_deferred-Advances now i delay =
      Advances-update _ _ t.rows (All-true _ (λ r h. ground (arith, RowStep-refl r)) t.rows)

  -- `mark_retry` has no test of the status: that it may write `failed` is up to its caller.
  pub mark_retry-Advances :
      (now i n m : ℕ)
      → All (λ r. r.id ≡ i → (r.status ≡ pending) × (r.attempts ≤ n)) t.rows
      → Advances t.rows (mark_retry now i n m t).1.rows
  unfolding mark_retry
  mark_retry-Advances now i n m h = elim (Bool-cases (leb m n)) [
    | inl e ↦ rw e (
        Advances-update _ _ t.rows
          (All-map _ _ (λ r k taken. ground (arith, k, ==_iff r.id i)) t.rows h))
    | inr e ↦ rw e (
        Advances-update _ _ t.rows
          (All-map _ _ (λ r k taken. ground (arith, k, ==_iff r.id i)) t.rows h))
  ]
