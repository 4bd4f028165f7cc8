-- ===== src/Swarm/Worker.antt =====
-- `run` of services/swarm_mcp/worker.py: one turn of its loop, and the loop over the turns that it
-- makes before it is told to stop.
pub mod Batch
pub mod Safety
pub mod Effects
pub mod Attempts
pub mod Answered
use public_gbrain_agentos.Base.{
  ℕ, suc, ◌+◌, ◌%◌, ◌/◌, max, Bool, true, ◌&&◌, Option, none, some, List, [], ◌∷◌, ◌==◌,
  if◌then◌else◌,
}
use public_gbrain_agentos.Base.Text.{Text, starts_with}
use public_gbrain_agentos.Base.Table.{update_where}
use public_gbrain_agentos.Swarm.Outbox.Rows.{Row, Outbox}
use public_gbrain_agentos.Swarm.Outbox.Rows
use public_gbrain_agentos.Swarm.Outbox.{
  fetch_due, mark_sent, mark_retry, mark_deferred, sweep_ack_missing, ack_timeout_sec,
}
use public_gbrain_agentos.Swarm.Deliver.{Verdict, delivered, retry, failed, no_gateway_prefix}

abbrev pub poll_interval_sec : ℕ
poll_interval_sec = 5

abbrev pub batch_size : ℕ
batch_size = 20

abbrev pub defer_no_gateway_sec : ℕ
defer_no_gateway_sec = 300

abbrev pub sweep_every : ℕ
sweep_every = max 1 (60 / poll_interval_sec)

-- the UPDATE that `run` writes itself, for a permanent failure
unfoldable pub fail_row : ℕ → ℕ → ℕ → Outbox → Outbox
fail_row now row_id attempts t = record t {
  rows =
      update_where (λ r. (r.id == row_id) && true)
        (λ r. record r { status = Rows.Status.failed; attempts = attempts; updated_at = now })
        t.rows;
}

-- what is written for a row, by the transport's verdict
unfoldable pub settle : ℕ → Row → Verdict → Text → Outbox → Outbox
unfolding fail_row
settle now row delivered last_error t = (mark_sent now row.task_id t).1
settle now row failed last_error t = fail_row now row.id (row.attempts + 1) t
settle now row retry last_error t =
    if starts_with last_error no_gateway_prefix
    then (mark_deferred now row.id defer_no_gateway_sec t).1
    else (mark_retry now row.id (row.attempts + 1) row.max_attempts t).1

-- `deliver` is `_deliver_one` with its settings; `none` is an exception.
module _ (deliver : Row → Option (Verdict × Text)) (now : ℕ) where
  -- the loop over the rows of a batch, inside the transaction
  unfoldable pub process_batch : List Row → Outbox → Option Outbox
  process_batch [] t = some t
  process_batch (row ∷ rows) t = elim (deliver row) [
    | none ↦ none
    | some (verdict, last_error) ↦ process_batch rows (settle now row verdict last_error t)
  ]

  -- An exception rolls the transaction back; the loop logs it and goes on.
  unfoldable pub poll : (ℕ → Bool) → Outbox → Outbox
  poll locked t = elim (process_batch (fetch_due now locked batch_size t) t) [
    | none ↦ t
    | some t' ↦ t'
  ]

-- What a turn of the loop meets: the time of the sweep and of the batch, the rows that other
-- transactions hold, and how deliveries end.
pub record Turn : Type 0 where
  pub sweep_now : ℕ
  pub now : ℕ
  pub locked : ℕ → Bool
  pub deliver : Row → Option (Verdict × Text)

-- The counter `tick`, and the table.
unfoldable pub turn : Turn → ℕ × Outbox → ℕ × Outbox
turn e (tick, t) =
    let tick' = suc tick in
    let t' =
      if tick' % sweep_every == 0 then (sweep_ack_missing e.sweep_now ack_timeout_sec t).1 else t in
    (tick', poll e.deliver e.now e.locked t')

unfoldable pub run : List Turn → ℕ × Outbox → ℕ × Outbox
run [] s = s
run (e ∷ es) s = run es (turn e s)
