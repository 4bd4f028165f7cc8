-- ===== src/Swarm/Outbox.antt =====
-- services/swarm_mcp/outbox.py: the table `delivery_outbox` and its queries. `now` is the
-- transaction's time in seconds. The proofs are in the modules below.
pub mod Rows
pub mod Steps
pub mod Invariant
pub mod Lifecycle
pub mod Queries
use Rows.{
  Row, Status, Outbox, by_task_id, pending, sent, ack_missing, acked, failed, is_status, statuses,
}
use public_gbrain_agentos.Base.{
  ℕ, zero, suc, ◌+◌, ◌-◌, ◌*◌, ◌^◌, String, Bool, ◌&&◌, ◌||◌, Option, none, some, List, [], ◌∷◌,
  ◌++◌, ltb, leb, not, true, map, keep, ◌==◌, ◌=ₛ◌, ◌+ₛ◌, if◌then◌else◌, min,
}
use public_gbrain_agentos.Base.Json.{Fields}
use public_gbrain_agentos.Base.Table.{update_where, count_where, select}
use public_gbrain_agentos.Base.Table.Keys.{lookup}

abbrev pub backoff_base_sec : ℕ
backoff_base_sec = 10

abbrev pub backoff_cap_sec : ℕ
backoff_cap_sec = 300

abbrev pub ack_timeout_sec : ℕ
ack_timeout_sec = 1800

-- `attempts` is a column that starts at 0 and is only raised, so `attempts <= 0` is `zero`
unfoldable pub compute_backoff_seconds : ℕ → ℕ
compute_backoff_seconds zero = 0
compute_backoff_seconds (suc n) = min (backoff_base_sec * 2 ^ n) backoff_cap_sec

-- the nonce is `secrets.token_hex(8)`
unfoldable pub make_task_id : String → String → String → String
make_task_id from_agent to_agent nonce = from_agent +ₛ "::" +ₛ to_agent +ₛ "::" +ₛ nonce

abbrev pub touch : ℕ → Row → Row
touch now r = record r { updated_at = now }

abbrev pub set_status : ℕ → Status → Row → Row
set_status now s r = record r { status = s; updated_at = now }

abbrev pub fresh_row : ℕ → ℕ → String → String → String → Fields → ℕ → Row
fresh_row now id task_id from_agent to_agent payload max_attempts = record {
  id = id;
  task_id = task_id;
  from_agent = from_agent;
  to_agent = to_agent;
  payload = payload;
  status = pending;
  attempts = 0;
  max_attempts = max_attempts;
  next_retry_at = now;
  created_at = now;
  updated_at = now;
}

-- INSERT … ON CONFLICT (task_id) DO UPDATE SET updated_at = now(). The sequence moves on even
-- where the row was there already.
insert_row : ℕ → Row → Outbox → Outbox
insert_row now r t = elim (lookup by_task_id r.task_id t.rows) [
  | none ↦ record { rows = t.rows ++ r ∷ []; next_id = suc t.next_id }
  | some _ ↦ record {
    rows = update_where (λ s. (s.task_id =ₛ r.task_id) && true) (touch now) t.rows;
    next_id = suc t.next_id;
  }
]

-- `task_id or make_task_id(…)`, for the nonce that is drawn if none is given
unfoldable pub choose_task_id : Option String → String → String → String → String
unfolding make_task_id
choose_task_id none from_agent to_agent nonce = make_task_id from_agent to_agent nonce
choose_task_id (some task_id) from_agent to_agent nonce = task_id

unfoldable pub enqueue :
    ℕ → String → String → String → Fields → Option String → ℕ → Outbox → String × Outbox
unfolding choose_task_id insert_row
enqueue now nonce from_agent to_agent payload task_id max_attempts t =
    let tid = choose_task_id task_id from_agent to_agent nonce in
    (tid, insert_row now (fresh_row now t.next_id tid from_agent to_agent payload max_attempts) t)

abbrev pub is_due : ℕ → (ℕ → Bool) → Row → Bool
is_due now locked r = is_status r.status pending && leb r.next_retry_at now && not (locked r.id)

abbrev pub older_first : Row → Row → Bool
older_first r s = leb r.created_at s.created_at

abbrev pub newer_first : Row → Row → Bool
newer_first r s = leb s.created_at r.created_at

-- FOR UPDATE SKIP LOCKED: `locked` tells the rows that another transaction holds
unfoldable pub fetch_due : ℕ → (ℕ → Bool) → ℕ → Outbox → List Row
fetch_due now locked limit t = select (is_due now locked) older_first limit t.rows

-- An UPDATE gives the row count that the command tag reports, and the new table.
abbrev run_update : (Row → Bool) → (Row → Row) → Outbox → ℕ × Outbox
run_update p f t = (count_where p t.rows, record t { rows = update_where p f t.rows })

abbrev pub touched : ℕ × Outbox → Bool × Outbox
touched (n, t) = (ltb 0 n, t)

unfoldable pub mark_sent : ℕ → String → Outbox → Bool × Outbox
mark_sent now task_id t =
    touched (
      run_update (λ r. (r.task_id =ₛ task_id) && is_status r.status pending) (set_status now sent)
        t)

-- `updated_at < now() - timeout`
unfoldable pub sweep_ack_missing : ℕ → ℕ → Outbox → ℕ × Outbox
sweep_ack_missing now timeout_sec =
    run_update (λ r. is_status r.status sent && ltb (r.updated_at + timeout_sec) now)
      (set_status now ack_missing)

abbrev pub is_open : Status → Bool
is_open s = is_status s pending || is_status s sent || is_status s ack_missing

unfoldable pub mark_acked : ℕ → String → Outbox → Bool × Outbox
mark_acked now task_id t =
    touched (run_update (λ r. (r.task_id =ₛ task_id) && is_open r.status) (set_status now acked) t)

-- The two UPDATEs of `mark_retry`. `last_error` is only logged.
unfoldable pub mark_retry : ℕ → ℕ → ℕ → ℕ → Outbox → Status × Outbox
mark_retry now row_id attempts max_attempts t =
    if leb max_attempts attempts
    then (
      failed,
      record t {
        rows =
            update_where (λ r. (r.id == row_id) && true)
              (λ r. record (set_status now failed r) { attempts = attempts }) t.rows;
      },
    )
    else (
      pending,
      record t {
        rows =
            update_where (λ r. (r.id == row_id) && true)
              (λ r. record (touch now r) {
                attempts = attempts;
                next_retry_at = now + compute_backoff_seconds attempts;
              })
              t.rows;
      },
    )

unfoldable pub mark_deferred : ℕ → ℕ → ℕ → Outbox → Status × Outbox
mark_deferred now row_id delay_seconds t = (
  pending,
  record t {
    rows =
        update_where (λ r. (r.id == row_id) && true)
          (λ r. record (touch now r) { next_retry_at = now + delay_seconds }) t.rows;
  },
)

-- SELECT status, count(*) … GROUP BY status: the groups that have a row
unfoldable pub get_stats : Outbox → List (Status × ℕ)
get_stats t =
    keep (λ g. ltb 0 g.1) (map (λ s. (s, count_where (λ r. is_status r.status s) t.rows)) statuses)

-- An empty filter is falsy in the source, as `None` is.
unfoldable pub list_recent : ℕ → Option Status → Outbox → List Row
list_recent limit none t = select (λ _. true) newer_first limit t.rows
list_recent limit (some s) t = select (λ r. is_status r.status s) newer_first limit t.rows

unfoldable pub list_pending_for : String → ℕ → Outbox → List Row
list_pending_for to_agent limit t =
    select (λ r. (r.to_agent =ₛ to_agent) && is_status r.status pending) older_first limit t.rows

unfoldable pub get_row : String → Outbox → Option Row
get_row task_id t = lookup by_task_id task_id t.rows
