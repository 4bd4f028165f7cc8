-- ===== src/Swarm/Server.antt =====
-- The tools of services/swarm_mcp/server.py. `caller` is the result of `_resolve_caller`, `s` the
-- settings that a tool reads, and the state is the outbox beside the audit log.
pub mod History
pub mod Answers
unfoldable pub use public_gbrain_agentos.Base.Json.Dicts.{set_key}
use public_gbrain_agentos.Base.{
  ℕ, suc, ◌+◌, ◌-◌, String, Bool, true, false, Option, none, some, List, [], ◌∷◌, ◌++◌, ltb, length,
  Result, ok, err, ◌=ₛ◌, if◌then◌else◌,
}
use public_gbrain_agentos.Base.Int.{pos}
use public_gbrain_agentos.Base.Text.{Text}
use public_gbrain_agentos.Base.Json.{
  Json, bool, int, str, arr, Items, nil, cons, Fields, end, field,
}
use public_gbrain_agentos.Base.Audit.{AuditEntry, log_audit}
use public_gbrain_agentos.Auth.Errors.{AuthError}
use public_gbrain_agentos.Swarm.Outbox.Rows.{Row, Status, Outbox}
use public_gbrain_agentos.Swarm.Outbox.{
  enqueue, mark_acked, get_row, get_stats, list_recent, list_pending_for,
}
use public_gbrain_agentos.Swarm.Render.{Unicode, measure_payload_body, render_body_limit}

pub record Swarm : Type 0 where
  pub outbox : Outbox
  pub audit : List AuditEntry

pub record Setting : Type 0 where
  pub now : ℕ
  pub body_limit : Option Text
  pub unicode : Unicode
  pub audit_written : Bool

-- A tool raises before it has written anything, or returns beside the new state.
abbrev pub Tool : Type 0 → Type 0
Tool A = Swarm → Result AuthError (A × Swarm)

abbrev as_caller : {A : Type 0} → Result AuthError String → (String → Swarm → A × Swarm) → Tool A
as_caller (ok agent) f w = ok (f agent w)
as_caller (err e) f w = err e

audited : Setting → String → String → Fields → Swarm → Swarm
unfolding log_audit
audited s agent tool args w = record w {
  audit =
      log_audit s.audit_written
        (record {
          agent = agent;
          tool = tool;
          args_summary = args;
          result_status = "ok";
          latency_ms = 0;
          error = none;
        })
        w.audit;
}

pub record Notified : Type 0 where
  pub task_id : String
  pub status : String
  pub body_chars : ℕ
  pub body_limit : ℕ
  pub truncated : Bool

unfoldable pub notify :
    Setting → Result AuthError String → String → String → Fields → Option String → ℕ → Tool Notified
unfolding audited
notify s caller nonce to_agent payload task_id max_attempts = as_caller caller λ from_agent w.
    let (tid, outbox) =
      enqueue s.now nonce from_agent to_agent payload task_id max_attempts w.outbox in
    let body_chars = (measure_payload_body s.body_limit s.unicode payload).1 in
    let limit = render_body_limit s.body_limit in
    let truncated = ltb limit body_chars in
    let cut =
      if truncated then field "truncated_chars" (int (pos (body_chars - limit))) end else end in
    (
      record {
        task_id = tid;
        status = "pending";
        body_chars = body_chars;
        body_limit = limit;
        truncated = truncated;
      },
      audited s from_agent "notify" (field "to" (str to_agent) (field "task_id" (str tid) cut))
          (record w { outbox = outbox }),
    )

pub record Acked : Type 0 where
  pub task_id : String
  pub acked : Bool
  -- given where nothing was changed: the row's status, or `none` for "not_found"
  pub status : Option (Option Status)

ack_status : Bool → Option Row → Option (Option Status)
ack_status true row = none
ack_status false none = some none
ack_status false (some row) = some (some row.status)

unfoldable pub ack : Setting → Result AuthError String → String → Tool Acked
unfolding audited ack_status
ack s caller task_id = as_caller caller λ agent w.
    let (changed, outbox) = mark_acked s.now task_id w.outbox in
    (
      record {
        task_id = task_id;
        acked = changed;
        status = ack_status changed (get_row task_id outbox);
      },
      audited s agent "ack" (field "task_id" (str task_id) (field "ok" (bool changed) end))
          (record w { outbox = outbox }),
    )

-- `task_ids[to] = tid`
assign : String → String → List (String × String) → List (String × String)
assign k v [] = (k, v) ∷ []
assign k v ((j, u) ∷ d) = if j =ₛ k then (k, v) ∷ d else (j, u) ∷ assign k v d

-- the loop of `broadcast`: a fresh nonce for each recipient
unfoldable pub enqueue_all :
    ℕ
    → String
    → Fields
    → ℕ
    → List (String × String)
    → List (String × String)
    → Outbox
    → List (String × String) × Outbox
unfolding assign
enqueue_all now from_agent payload max_attempts [] task_ids t = (task_ids, t)
enqueue_all now from_agent payload max_attempts ((to, nonce) ∷ rest) task_ids t =
    let (tid, t') = enqueue now nonce from_agent to payload none max_attempts t in
    enqueue_all now from_agent payload max_attempts rest (assign to tid task_ids) t'

agent_items : List (String × String) → Items
agent_items [] = nil
agent_items ((to, nonce) ∷ rest) = cons (str to) (agent_items rest)

pub record Broadcasted : Type 0 where
  pub task_ids : List (String × String)
  pub body_chars : ℕ
  pub body_limit : ℕ
  pub truncated : Bool

-- `recipients` are the agents, each with the nonce drawn for it
unfoldable pub broadcast :
    Setting → Result AuthError String → List (String × String) → Fields → ℕ → Tool Broadcasted
unfolding audited agent_items
broadcast s caller recipients payload max_attempts = as_caller caller λ from_agent w.
    let (task_ids, outbox) =
      enqueue_all s.now from_agent payload max_attempts recipients [] w.outbox in
    let body_chars = (measure_payload_body s.body_limit s.unicode payload).1 in
    let limit = render_body_limit s.body_limit in
    (
      record {
        task_ids = task_ids;
        body_chars = body_chars;
        body_limit = limit;
        truncated = ltb limit body_chars;
      },
      audited s from_agent "broadcast"
          (field "agents" (arr (agent_items recipients))
            (field "n" (int (pos (length recipients))) end))
          (record w { outbox = outbox }),
    )

pub record Escalated : Type 0 where
  pub task_id : String
  pub status : String
  pub priority : String

unfoldable pub escalate :
    Setting → Result AuthError String → String → String → Fields → String → Tool Escalated
unfolding audited set_key
escalate s caller nonce to_agent payload reason = as_caller caller λ from_agent w.
    let enriched =
      set_key "_escalation_reason" (str reason) (set_key "_priority" (str "high") payload) in
    let (tid, outbox) = enqueue s.now nonce from_agent to_agent enriched none 10 w.outbox in
    (
      record { task_id = tid; status = "pending"; priority = "high" },
      audited s from_agent "escalate"
          (field "to" (str to_agent) (field "reason" (str reason) (field "task_id" (str tid) end)))
          (record w { outbox = outbox }),
    )

abbrev reading : {A : Type 0} → Result AuthError String → (String → Outbox → A) → Tool A
reading caller f = as_caller caller (λ agent w. (f agent w.outbox, w))

unfoldable pub stats : Result AuthError String → Tool (List (Status × ℕ))
stats caller = reading caller (λ agent. get_stats)

unfoldable pub get_delivery : Result AuthError String → String → Tool (Option Row)
get_delivery caller task_id = reading caller (λ agent. get_row task_id)

unfoldable pub list_recent_deliveries :
    Result AuthError String → ℕ → Option Status → Tool (List Row)
list_recent_deliveries caller limit status_filter =
    reading caller (λ agent. list_recent limit status_filter)

unfoldable pub list_my_pending : Result AuthError String → ℕ → Tool (List Row)
list_my_pending caller limit = reading caller (λ me. list_pending_for me limit)
