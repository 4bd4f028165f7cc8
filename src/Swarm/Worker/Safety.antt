-- ===== src/Swarm/Worker/Safety.antt =====
-- One poll, and any run of the worker, against the table's constraints and the state machine.
use mathlib.Core.Option
use mathlib.Core.Path.{subst}
use public_gbrain_agentos.Base.{
  ℕ, suc, ◌%◌, ◌≡◌, refl, Bool, Option, some, List, [], ◌∷◌, arith, ◌==◌, Bool-cases, Option-cases,
  inl, inr,
}
use public_gbrain_agentos.Base.Text.{Text, starts_with}
use public_gbrain_agentos.Swarm.Outbox.Rows.{Row, Outbox}
use public_gbrain_agentos.Swarm.Outbox.Steps.{Advances, Advances-refl, Advances-trans}
use public_gbrain_agentos.Swarm.Outbox.Invariant.{
  IsWellFormed, update-IsWellFormed, mark_sent-IsWellFormed, mark_deferred-IsWellFormed,
  mark_retry-IsWellFormed, sweep-IsWellFormed,
}
use public_gbrain_agentos.Swarm.Outbox.Lifecycle.{sweep-Advances}
use public_gbrain_agentos.Swarm.Outbox.{fetch_due, sweep_ack_missing, ack_timeout_sec}
use public_gbrain_agentos.Swarm.Deliver.{Verdict, delivered, retry, failed, no_gateway_prefix}
use public_gbrain_agentos.Swarm.Worker.{
  settle, process_batch, poll, Turn, turn, run, batch_size, sweep_every,
}
use public_gbrain_agentos.Swarm.Worker.Batch.{fetch_due-IsQueued, process_batch-Advances}

settle-IsWellFormed :
    (now : ℕ) (b : Row) (v : Verdict) (e : Text) (t : Outbox)
    → IsWellFormed t
    → IsWellFormed (settle now b v e t)
unfolding settle
settle-IsWellFormed now b delivered e t h = mark_sent-IsWellFormed t h now b.task_id
settle-IsWellFormed now b failed e t h = update-IsWellFormed _ _ (λ r. refl) (λ r. refl) t h
settle-IsWellFormed now b retry e t h = elim (Bool-cases (starts_with e no_gateway_prefix)) [
  | inl gone ↦ rw gone (mark_deferred-IsWellFormed t h now b.id _)
  | inr tried ↦ rw tried (mark_retry-IsWellFormed t h now b.id _ b.max_attempts)
]

module _ (deliver : Row → Option (Verdict × Text)) (now : ℕ) where
  process_batch-IsWellFormed :
      (bs : List Row) (t t' : Outbox)
      → IsWellFormed t
      → process_batch deliver now bs t ≡ some t'
      → IsWellFormed t'
  unfolding process_batch
  process_batch-IsWellFormed [] t t' h e = subst IsWellFormed (Option.some-injective t t' e) h
  process_batch-IsWellFormed (b ∷ bs) t t' h e = elim (Option-cases (deliver b)) [
    | inl raised ↦ absurd (ground arith)
    | inr ((v, msg), answered) ↦
        process_batch-IsWellFormed bs (settle now b v msg t) t'
          (settle-IsWellFormed now b v msg t h) (ground arith)
  ]

  pub poll-IsWellFormed :
      (locked : ℕ → Bool) (t : Outbox) → IsWellFormed t → IsWellFormed (poll deliver now locked t)
  unfolding poll
  poll-IsWellFormed locked t h =
      elim (Option-cases (process_batch deliver now (fetch_due now locked batch_size t) t)) [
        | inl raised ↦ rw (raised, poll) h
        | inr (t', done) ↦ rw (done, poll) (process_batch-IsWellFormed _ t t' h done)
      ]

  -- However the deliveries of a poll end, raising included, each letter stays or takes legal steps,
  -- and no letter is lost.
  pub poll-Advances :
      (locked : ℕ → Bool) (t : Outbox)
      → IsWellFormed t
      → Advances t.rows (poll deliver now locked t).rows
  unfolding poll
  poll-Advances locked t h =
      elim (Option-cases (process_batch deliver now (fetch_due now locked batch_size t) t)) [
        | inl raised ↦ rw (raised, poll) (Advances-refl t.rows)
        | inr (t', done) ↦
            rw (done, poll)
              (process_batch-Advances now deliver _ t t'
                (fetch_due-IsQueued now locked batch_size t h) done)
      ]

abbrev pub IsGood : List Row → ℕ × Outbox → Type 0
IsGood rows s = IsWellFormed s.1 × Advances rows s.1.rows

pub turn_safe :
    (e : Turn) (rows : List Row) (s : ℕ × Outbox) → IsGood rows s → IsGood rows (turn e s)
unfolding turn
turn_safe e rows (tick, t) h = elim (Bool-cases (suc tick % sweep_every == 0)) [
  | inl due ↦ rw due (
      then_poll (sweep_ack_missing e.sweep_now ack_timeout_sec t).1 (
        sweep-IsWellFormed t h.0 e.sweep_now ack_timeout_sec,
        Advances-trans rows t.rows _ h.1 (sweep-Advances t e.sweep_now ack_timeout_sec),
      ))
  | inr not_due ↦ rw not_due (then_poll t h)
]
  where
    then_poll :
        (u : Outbox)
        → IsGood rows (suc tick, u)
        → IsGood rows (suc tick, poll e.deliver e.now e.locked u)
    then_poll u k = (
      poll-IsWellFormed e.deliver e.now e.locked u k.0,
      Advances-trans rows u.rows _ k.1 (poll-Advances e.deliver e.now e.locked u k.0),
    )

run-IsGood :
    (es : List Turn) (rows : List Row) (s : ℕ × Outbox) → IsGood rows s → IsGood rows (run es s)
unfolding run
run-IsGood [] rows s h = h
run-IsGood (e ∷ es) rows s h = run-IsGood es rows (turn e s) (turn_safe e rows s h)

-- Whatever the turns of the worker meet (times, locks, answers and exceptions), the constraints of
-- the table hold afterwards, and every letter is still there, moved only along the state machine.
pub run_safe :
    (es : List Turn) (tick : ℕ) (t : Outbox)
    → IsWellFormed t
    → IsWellFormed (run es (tick, t)).1 × Advances t.rows (run es (tick, t)).1.rows
run_safe es tick t h = run-IsGood es t.rows (tick, t) (h, Advances-refl t.rows)
