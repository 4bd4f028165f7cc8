-- ===== src/Swarm/Outbox/Rows.antt =====
-- The rows of `delivery_outbox` (migrations/001_initial_schema.sql) and the states of a letter.
use public_gbrain_agentos.Base.{
  ℕ, String, Bool, true, false, List, [], ◌∷◌, ◌==◌, ==_iff, ◌=ₛ◌, eq_iff,
}
use public_gbrain_agentos.Base.Json.{Fields}
use public_gbrain_agentos.Base.Table.Keys.{Keyed}

pub data Status : Type 0 where
  pending sent ack_missing acked failed : Status

abbrev pub statuses : List Status
statuses = pending ∷ sent ∷ ack_missing ∷ acked ∷ failed ∷ []

-- `status = s`
abbrev pub is_status : Status → Status → Bool
is_status pending pending = true
is_status sent sent = true
is_status ack_missing ack_missing = true
is_status acked acked = true
is_status failed failed = true
is_status _ _ = false

pub record Row : Type 0 where
  pub id : ℕ
  pub task_id : String
  pub from_agent : String
  pub to_agent : String
  pub payload : Fields
  pub status : Status
  pub attempts : ℕ
  pub max_attempts : ℕ
  pub next_retry_at : ℕ
  pub created_at : ℕ
  pub updated_at : ℕ

-- the table, and the next value of its `bigserial` sequence
pub record Outbox : Type 0 where
  pub rows : List Row
  pub next_id : ℕ

-- `task_id text NOT NULL UNIQUE`
abbrev pub by_task_id : Keyed Row String
by_task_id = record { key = λ r. r.task_id; same = ◌=ₛ◌; same_iff = eq_iff }

-- `id bigserial PRIMARY KEY`
abbrev pub by_id : Keyed Row ℕ
by_id = record { key = λ r. r.id; same = ◌==◌; same_iff = ==_iff }
