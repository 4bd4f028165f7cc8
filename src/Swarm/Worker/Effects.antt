-- ===== src/Swarm/Worker/Effects.antt =====
-- What a poll does to each letter, exactly: the batch is settled row by row, and nothing else moves.
use mathlib.Core.Option
use public_gbrain_agentos.Base.{
  ℕ, ◌+◌, String, ◌≡◌, ◌≢◌, refl, ap, sym, ◌∙◌, Bool, true, ◌&&◌, Option, some, none, List, [], ◌∷◌,
  ◌++◌, arith, All, All-map, All-zip, ◌==◌, ==_iff, ◌=ₛ◌, eq_iff, leb, Bool-cases, Option-cases,
  inl, inr, if◌then◌else◌,
}
use public_gbrain_agentos.Base.Text.{Text, starts_with}
use public_gbrain_agentos.Base.Table.{update_where}
use public_gbrain_agentos.Base.Table.Keys.{lookup, updated, lookup-update}
use public_gbrain_agentos.Swarm.Outbox.Rows.{
  Row, Status, Outbox, by_task_id, pending, sent, is_status,
}
use public_gbrain_agentos.Swarm.Outbox.{
  fetch_due, mark_sent, mark_retry, mark_deferred, compute_backoff_seconds,
}
use public_gbrain_agentos.Swarm.Deliver.{Verdict, delivered, retry, failed, no_gateway_prefix}
use public_gbrain_agentos.Swarm.Worker.{
  settle, process_batch, poll, defer_no_gateway_sec, batch_size,
}
use public_gbrain_agentos.Swarm.Worker.Batch.{
  IsReady, IsQueued, settle-IsReady-All, fetch_due-IsQueued, fetched_row, fetched-Pairs,
}
use public_gbrain_agentos.Swarm.Outbox.Invariant.{IsWellFormed}
use public_gbrain_agentos.Base.Table.Subsets.{Pairs}

-- A letter after its delivery was attempted: the specification of `settle`.
unfoldable pub settled : ℕ → Row → Verdict → Text → Row
settled now b delivered e = record b { status = sent; updated_at = now }
settled now b failed e = record b {
  status = Status.failed;
  attempts = b.attempts + 1;
  updated_at = now;
}
settled now b retry e =
    if starts_with e no_gateway_prefix
    then record b { next_retry_at = now + defer_no_gateway_sec; updated_at = now }
    else if leb b.max_attempts (b.attempts + 1)
    then record b { status = Status.failed; attempts = b.attempts + 1; updated_at = now }
    else record b {
      attempts = b.attempts + 1;
      next_retry_at = now + compute_backoff_seconds (b.attempts + 1);
      updated_at = now;
    }

-- The id and the task_id of a batch's row name the same row, so an UPDATE may go by either.
update_by_id :
    (b : Row) (f : Row → Row) (rows : List Row)
    → All (IsReady b) rows
    → update_where (λ r. (r.id == b.id) && true) f rows
      ≡ update_where (λ r. (r.task_id =ₛ b.task_id) && true) f rows
unfolding update_where
update_by_id b f [] h = refl
update_by_id b f (r ∷ rs) h = ground (
  arith,
  h.0.owner,
  h.0.named,
  ==_iff r.id b.id,
  eq_iff r.task_id b.task_id,
  update_by_id b f rs h.1,
)

module _ (now : ℕ) (b : Row) (t : Outbox) (ready : All (IsReady b) t.rows) where
  lookup-update_by_id :
      (f : Row → Row) (j : String)
      → ((r : Row) → (f r).task_id ≡ r.task_id)
      → lookup by_task_id j (update_where (λ r. (r.id == b.id) && true) f t.rows) ≡ (
          if b.task_id =ₛ j
          then updated (λ _. true) f (lookup by_task_id j t.rows)
          else lookup by_task_id j t.rows)
  lookup-update_by_id f j keeps =
      rw (update_by_id b f t.rows ready)
        (lookup-update by_task_id b.task_id j (λ _. true) f keeps t.rows)

  -- An UPDATE by the id of `b` changes what is found under its task_id, and nothing else.
  self_by_id :
      (f : Row → Row)
      → ((r : Row) → (f r).task_id ≡ r.task_id)
      → lookup by_task_id b.task_id t.rows ≡ some b
      → lookup by_task_id b.task_id (update_where (λ r. (r.id == b.id) && true) f t.rows)
        ≡ some (f b)
  self_by_id f keeps here =
      rw (lookup-update_by_id f b.task_id keeps) (ground (arith, here, eq_iff b.task_id b.task_id))

  other_by_id :
      (f : Row → Row) (j : String)
      → ((r : Row) → (f r).task_id ≡ r.task_id)
      → b.task_id ≢ j
      → lookup by_task_id j (update_where (λ r. (r.id == b.id) && true) f t.rows)
        ≡ lookup by_task_id j t.rows
  other_by_id f j keeps other =
      rw (lookup-update_by_id f j keeps) (ground (arith, eq_iff b.task_id j))

  settle_self :
      lookup by_task_id b.task_id t.rows ≡ some b
      → b.status ≡ pending
      → (v : Verdict) (e : Text)
      → lookup by_task_id b.task_id (settle now b v e t).rows ≡ some (settled now b v e)
  unfolding settle settled mark_sent mark_retry mark_deferred
  settle_self here waiting delivered e = ground (
    arith,
    eq_iff b.task_id b.task_id,
    lookup-update by_task_id b.task_id b.task_id (λ r. is_status r.status pending)
        (λ r. record r { status = sent; updated_at = now }) (λ r. refl) t.rows,
  )
  settle_self here waiting failed e = self_by_id _ (λ r. refl) here
  settle_self here waiting retry e = elim (Bool-cases (starts_with e no_gateway_prefix)) [
    | inl gone ↦ rw gone (self_by_id _ (λ r. refl) here)
    | inr tried ↦ rw tried (elim (Bool-cases (leb b.max_attempts (b.attempts + 1))) [
      | inl spent ↦ rw spent (self_by_id _ (λ r. refl) here)
      | inr left ↦ rw left (self_by_id _ (λ r. refl) here)
    ])
  ]

  settle_other :
      (v : Verdict) (e : Text) (j : String)
      → b.task_id ≢ j
      → lookup by_task_id j (settle now b v e t).rows ≡ lookup by_task_id j t.rows
  unfolding settle mark_sent mark_retry mark_deferred
  settle_other delivered e j other = ground (
    arith,
    eq_iff b.task_id j,
    lookup-update by_task_id b.task_id j (λ r. is_status r.status pending)
        (λ r. record r { status = sent; updated_at = now }) (λ r. refl) t.rows,
  )
  settle_other failed e j other = other_by_id _ j (λ r. refl) other
  settle_other retry e j other = elim (Bool-cases (starts_with e no_gateway_prefix)) [
    | inl gone ↦ rw gone (other_by_id _ j (λ r. refl) other)
    | inr tried ↦ rw tried (elim (Bool-cases (leb b.max_attempts (b.attempts + 1))) [
      | inl spent ↦ rw spent (other_by_id _ j (λ r. refl) other)
      | inr left ↦ rw left (other_by_id _ j (λ r. refl) other)
    ])
  ]

-- Rows of the table that are pending, no two under one task_id.
abbrev IsFetched : List Row → List Row → Type 0
IsFetched rows bs =
    All (λ b. (lookup by_task_id b.task_id rows ≡ some b) × (b.status ≡ pending)) bs
    × Pairs (λ b c. b.task_id ≢ c.task_id) bs

-- The answer to a row's delivery, where the row was settled by it.
abbrev pub IsSettled : (Row → Option (Verdict × Text)) → ℕ → List Row → Row → Type 0
IsSettled deliver now rows b =
    (v : Verdict) × (e : Text) × (deliver b ≡ some (v, e))
    × (lookup by_task_id b.task_id rows ≡ some (settled now b v e))

module _ (deliver : Row → Option (Verdict × Text)) (now : ℕ) where
  process_batch_total :
      (bs : List Row) (t : Outbox)
      → All (λ b. deliver b ≢ none) bs
      → (t' : Outbox) × (process_batch deliver now bs t ≡ some t')
  unfolding process_batch
  process_batch_total [] t h = (t, refl)
  process_batch_total (b ∷ bs) t h = elim (Option-cases (deliver b)) [
    | inl raised ↦ absurd (h.0 raised)
    | inr ((v, msg), answered) ↦
        let (t', done) = process_batch_total bs (settle now b v msg t) h.1 in (t', ground arith)
  ]

  process_batch_raises :
      (before : List Row) (b : Row) (after : List Row) (t : Outbox)
      → deliver b ≡ none
      → process_batch deliver now (before ++ b ∷ after) t ≡ none
  unfolding process_batch
  process_batch_raises [] b after t h = ground arith
  process_batch_raises (c ∷ cs) b after t h = elim (Option-cases (deliver c)) [
    | inl raised ↦ ground arith
    | inr ((v, msg), answered) ↦
        ground (arith, process_batch_raises cs b after (settle now c v msg t) h)
  ]

  process_batch_others :
      (bs : List Row) (t t' : Outbox)
      → IsQueued bs t.rows
      → process_batch deliver now bs t ≡ some t'
      → (j : String) → All (λ b. b.task_id ≢ j) bs
      → lookup by_task_id j t'.rows ≡ lookup by_task_id j t.rows
  unfolding process_batch
  process_batch_others [] t t' h e j other =
      ap (λ (u : Outbox). lookup by_task_id j u.rows) (sym (Option.some-injective t t' e))
  process_batch_others (b ∷ bs) t t' h e j other = elim (Option-cases (deliver b)) [
    | inl raised ↦ absurd (ground arith)
    | inr ((v, msg), answered) ↦
        process_batch_others bs (settle now b v msg t) t'
          (h.0.1, settle-IsReady-All now b t v msg bs h.0.0 h.1.0 h.1.1) (ground arith) j other.1
        ∙ settle_other now b t h.1.0 v msg j other.0
  ]

  process_batch_each :
      (bs : List Row) (t t' : Outbox)
      → IsQueued bs t.rows
      → IsFetched t.rows bs
      → process_batch deliver now bs t ≡ some t'
      → All (IsSettled deliver now t'.rows) bs
  unfolding process_batch
  process_batch_each [] t t' h f e = tt
  process_batch_each (b ∷ bs) t t' h f e = elim (Option-cases (deliver b)) [
    | inl raised ↦ absurd (ground arith)
    | inr ((v, msg), answered) ↦
        let u = settle now b v msg t in
        let queued = settle-IsReady-All now b t v msg bs h.0.0 h.1.0 h.1.1 in
        let rest : process_batch deliver now bs u ≡ some t' = ground arith in
        (
          (
            v,
            msg,
            answered,
            process_batch_others bs u t' (h.0.1, queued) rest b.task_id
                  (All-map (λ c. b.task_id ≢ c.task_id) (λ c. c.task_id ≢ b.task_id)
                    (λ c differ same. differ (sym same)) bs f.1.0)
                ∙ settle_self now b t h.1.0 f.0.0.0 f.0.0.1 v msg,
          ),
          process_batch_each bs u t' (h.0.1, queued)
              (
                All-map
                    (λ c.
                      ((lookup by_task_id c.task_id t.rows ≡ some c) × (c.status ≡ pending))
                      × (b.task_id ≢ c.task_id))
                    _ (λ c k. (settle_other now b t h.1.0 v msg c.task_id k.1 ∙ k.0.0, k.0.1)) bs
                    (All-zip
                      (λ c. (lookup by_task_id c.task_id t.rows ≡ some c) × (c.status ≡ pending))
                      (λ c. b.task_id ≢ c.task_id) bs f.0.1 f.1.0),
                f.1.1,
              )
              rest,
        )
  ]

  module _ (locked : ℕ → Bool) (t : Outbox) where
    pub poll_effect :
        IsWellFormed t
        → All (λ b. deliver b ≢ none) (fetch_due now locked batch_size t)
        → All
            (IsSettled deliver now (poll deliver now locked t).rows)
            (fetch_due now locked batch_size t)
          × ((j : String)
              → All (λ b. b.task_id ≢ j) (fetch_due now locked batch_size t)
              → lookup by_task_id j (poll deliver now locked t).rows ≡ lookup by_task_id j t.rows)
    unfolding poll
    poll_effect h answered =
        let bs = fetch_due now locked batch_size t in
        let queued = fetch_due-IsQueued now locked batch_size t h in
        let (t', done) = process_batch_total bs t answered in
        rw (done, poll)
          (
            process_batch_each bs t t' queued
                (fetched_row now locked batch_size t h, fetched-Pairs now locked batch_size t h)
                done,
            process_batch_others bs t t' queued done,
          )

    -- One delivery that raises undoes the whole batch, whatever the gateways of the other letters
    -- answered: the table is what it was.
    pub poll_rollback :
        (before : List Row) (b : Row) (after : List Row)
        → fetch_due now locked batch_size t ≡ before ++ b ∷ after
        → deliver b ≡ none
        → poll deliver now locked t ≡ t
    unfolding poll
    poll_rollback before b after split raised =
        rw (split, process_batch_raises before b after t raised, poll)
