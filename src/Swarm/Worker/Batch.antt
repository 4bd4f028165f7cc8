-- ===== src/Swarm/Worker/Batch.antt =====
-- A batch only touches rows that were pending when it was fetched, each at most once: so that
-- `mark_retry` and the worker's own UPDATE, which do not test the status, are safe.
use public_gbrain_agentos.Base.{
  ℕ, ◌+◌, ◌≤◌, ◌≡◌, ◌≢◌, refl, Bool, true, ◌&&◌, Option, some, none, List, [], ◌∷◌, arith, All,
  All-map, All-zip, Option-cases, ◌==◌, ==_iff, eq_iff, leb, Bool-cases, inl, inr, sym, ap,
}
use public_gbrain_agentos.Base.Text.{Text, starts_with}
use public_gbrain_agentos.Base.Table.{update_where, All-update_to}
use public_gbrain_agentos.Base.Table.Keys.{lookup, lookup_self, Distinct}
use public_gbrain_agentos.Base.Table.Subsets.{Pairs, Pairs-select, All-select}
use public_gbrain_agentos.Swarm.Outbox.Rows.{Row, Outbox, by_id, by_task_id, pending}
use public_gbrain_agentos.Swarm.Outbox.Steps.{
  Advances, Advances-refl, Advances-trans, Advances-update,
}
use public_gbrain_agentos.Swarm.Outbox.Invariant.{IsWellFormed}
use public_gbrain_agentos.Swarm.Outbox.Lifecycle.{
  mark_sent-Advances, mark_retry-Advances, mark_deferred-Advances,
}
use public_gbrain_agentos.Swarm.Outbox.{
  fetch_due, mark_sent, mark_retry, mark_deferred, older_first,
}
use public_gbrain_agentos.Swarm.Deliver.{Verdict, delivered, retry, failed, no_gateway_prefix}
use public_gbrain_agentos.Swarm.Worker.{settle, fail_row, process_batch}

-- The row of a batch is still pending in the table, with no more attempts than were read, and its
-- two keys name the same row.
pub record IsReady (b r : Row) : Type 0 where
  pub status : r.id ≡ b.id → r.status ≡ pending
  pub attempts : r.id ≡ b.id → r.attempts ≤ b.attempts
  pub owner : r.task_id ≡ b.task_id → r.id ≡ b.id
  pub named : r.id ≡ b.id → r.task_id ≡ b.task_id

abbrev pub Differ : Row → Row → Type 0
Differ b c = b.id ≢ c.id

abbrev pub IsQueued : List Row → List Row → Type 0
IsQueued bs rows = Pairs Differ bs × All (λ b. All (IsReady b) rows) bs

module _ (now : ℕ) (b : Row) (t : Outbox) where
  fail_row-Advances :
      All (IsReady b) t.rows → Advances t.rows (fail_row now b.id (b.attempts + 1) t).rows
  unfolding fail_row
  fail_row-Advances h = Advances-update _ _ t.rows (
      All-map (IsReady b) _ (λ r k taken. ground (arith, k.status, k.attempts, ==_iff r.id b.id))
        t.rows h)

  -- Whatever the verdict, the letter takes a legal step and no other letter moves.
  pub settle-Advances :
      (v : Verdict) (e : Text) → All (IsReady b) t.rows → Advances t.rows (settle now b v e t).rows
  unfolding settle
  settle-Advances delivered e h = mark_sent-Advances t now b.task_id
  settle-Advances failed e h = fail_row-Advances h
  settle-Advances retry e h = elim (Bool-cases (starts_with e no_gateway_prefix)) [
    | inl gone ↦ rw gone (mark_deferred-Advances t now b.id _)
    | inr tried ↦ rw tried (
        mark_retry-Advances t now b.id (b.attempts + 1) b.max_attempts
          (All-map (IsReady b) _ (λ r k e. (k.status e, ground (arith, k.attempts e))) t.rows h))
  ]

  module _ (c : Row) (differ : Differ b c) where
    -- An UPDATE of the row `b` alone leaves `c` as it was.
    IsReady-update :
        (p : Row → Bool) (f : Row → Row)
        → ((r : Row) → (f r).id ≡ r.id)
        → ((r : Row) → (f r).task_id ≡ r.task_id)
        → ((r : Row) → IsReady b r → p r ≡ true → r.id ≡ b.id)
        → All (IsReady b) t.rows
        → All (IsReady c) t.rows
        → All (IsReady c) (update_where p f t.rows)
    IsReady-update p f ids task_ids only hb hc =
        All-update_to (λ r. IsReady b r × IsReady c r) (IsReady c) p f
          (λ r k taken. record {
            status = λ e. absurd (differ (ground (arith, only r k.0 taken, ids r)));
            attempts = λ e. absurd (differ (ground (arith, only r k.0 taken, ids r)));
            owner = λ e. ground (arith, k.1.owner, ids r, task_ids r);
            named = λ e. absurd (differ (ground (arith, only r k.0 taken, ids r)));
          })
          (λ r k _. k.1) t.rows (All-zip (IsReady b) (IsReady c) t.rows hb hc)

    by_id_only : (r : Row) → IsReady b r → ((r.id == b.id) && true) ≡ true → r.id ≡ b.id
    by_id_only r k taken = ground (arith, ==_iff r.id b.id)

    -- The other rows of the batch are not touched.
    pub settle-IsReady :
        (v : Verdict) (e : Text)
        → All (IsReady b) t.rows
        → All (IsReady c) t.rows
        → All (IsReady c) (settle now b v e t).rows
    unfolding settle mark_sent mark_deferred mark_retry
    settle-IsReady delivered e hb hc =
        IsReady-update _ _ (λ r. refl) (λ r. refl)
          (λ r k taken. ground (arith, k.owner, eq_iff r.task_id b.task_id)) hb hc
    settle-IsReady failed e hb hc = IsReady-update _ _ (λ r. refl) (λ r. refl) by_id_only hb hc
    settle-IsReady retry e hb hc = elim (Bool-cases (starts_with e no_gateway_prefix)) [
      | inl gone ↦ rw gone (IsReady-update _ _ (λ r. refl) (λ r. refl) by_id_only hb hc)
      | inr tried ↦ rw tried (elim (Bool-cases (leb b.max_attempts (b.attempts + 1))) [
        | inl spent ↦ rw spent (IsReady-update _ _ (λ r. refl) (λ r. refl) by_id_only hb hc)
        | inr left ↦ rw left (IsReady-update _ _ (λ r. refl) (λ r. refl) by_id_only hb hc)
      ])
    ]

module _ (now : ℕ) where
  pub settle-IsReady-All :
      (b : Row) (t : Outbox) (v : Verdict) (e : Text) (bs : List Row)
      → All (Differ b) bs
      → All (IsReady b) t.rows
      → All (λ c. All (IsReady c) t.rows) bs
      → All (λ c. All (IsReady c) (settle now b v e t).rows) bs
  settle-IsReady-All b t v e [] differ hb h = tt
  settle-IsReady-All b t v e (c ∷ cs) differ hb h =
      (settle-IsReady now b t c differ.0 v e hb h.0, settle-IsReady-All b t v e cs differ.1 hb h.1)

  pub process_batch-Advances :
      (deliver : Row → Option (Verdict × Text)) (bs : List Row) (t t' : Outbox)
      → IsQueued bs t.rows
      → process_batch deliver now bs t ≡ some t'
      → Advances t.rows t'.rows
  unfolding process_batch
  process_batch-Advances deliver [] t t' h e = ground (arith, Advances-refl t.rows)
  process_batch-Advances deliver (b ∷ bs) t t' h e = elim (Option-cases (deliver b)) [
    | inl raised ↦ absurd (ground arith)
    | inr ((v, msg), answered) ↦
        let t₁ = settle now b v msg t in
        Advances-trans t.rows t₁.rows t'.rows (settle-Advances now b t v msg h.1.0) (
          process_batch-Advances deliver bs t₁ t'
            (h.0.1, settle-IsReady-All b t v msg bs h.0.0 h.1.0 h.1.1) (ground arith))
  ]

-- A row that the table holds is the only one under its keys.
abbrev IsOnly : List Row → Row → Type 0
IsOnly rows b = All (λ r. (r.id ≡ b.id → r ≡ b) × (r.task_id ≡ b.task_id → r ≡ b)) rows

absent_id :
    (b : Row) (rows : List Row) → lookup by_id b.id rows ≡ none → All (λ r. b.id ≢ r.id) rows
unfolding lookup
absent_id b [] h = tt
absent_id b (r ∷ rs) h = (ground (arith, ==_iff r.id b.id), absent_id b rs (ground arith))

absent_task_id :
    (b : Row) (rows : List Row)
    → lookup by_task_id b.task_id rows ≡ none
    → All (λ r. b.task_id ≢ r.task_id) rows
unfolding lookup
absent_task_id b [] h = tt
absent_task_id b (r ∷ rs) h =
    (ground (arith, eq_iff r.task_id b.task_id), absent_task_id b rs (ground arith))

ids-Pairs : (rows : List Row) → Distinct by_id rows → Pairs Differ rows
ids-Pairs [] h = tt
ids-Pairs (r ∷ rs) h = (absent_id r rs h.0, ids-Pairs rs h.1)

task_ids-Pairs :
    (rows : List Row) → Distinct by_task_id rows → Pairs (λ r s. r.task_id ≢ s.task_id) rows
task_ids-Pairs [] h = tt
task_ids-Pairs (r ∷ rs) h = (absent_task_id r rs h.0, task_ids-Pairs rs h.1)

IsOnly-All :
    (rows : List Row)
    → Pairs Differ rows
    → Pairs (λ r s. r.task_id ≢ s.task_id) rows
    → All (IsOnly rows) rows
IsOnly-All [] h k = tt
IsOnly-All (r ∷ rs) h k = (
  (
    ((λ _. refl), (λ _. refl)),
    All-map (λ s. Differ r s × (r.task_id ≢ s.task_id)) _
        (λ s d. ((λ e. absurd (d.0 (sym e))), (λ e. absurd (d.1 (sym e))))) rs
        (All-zip (Differ r) (λ s. r.task_id ≢ s.task_id) rs h.0 k.0),
  ),
  All-map (λ s. IsOnly rs s × (Differ r s × (r.task_id ≢ s.task_id))) (IsOnly (r ∷ rs))
      (λ s d. (((λ e. absurd (d.1.0 e)), (λ e. absurd (d.1.1 e))), d.0)) rs
      (All-zip (IsOnly rs) (λ s. Differ r s × (r.task_id ≢ s.task_id)) rs (IsOnly-All rs h.1 k.1)
        (All-zip (Differ r) (λ s. r.task_id ≢ s.task_id) rs h.0 k.0)),
)

IsReady-of_only :
    (rows : List Row) (b : Row) → IsOnly rows b → b.status ≡ pending → All (IsReady b) rows
IsReady-of_only rows b only e =
    All-map (λ r. (r.id ≡ b.id → r ≡ b) × (r.task_id ≡ b.task_id → r ≡ b)) (IsReady b)
      (λ r h. record {
        status = λ same. rw (h.0 same) e;
        attempts = λ same. rw (h.0 same) (omega arith);
        owner = λ same. ap (λ (s : Row). s.id) (h.1 same);
        named = λ same. ap (λ (s : Row). s.task_id) (h.0 same);
      })
      rows only

-- What a query fetches from a well-formed table may be settled there.
pub fetch_due-IsQueued :
    (now : ℕ) (locked : ℕ → Bool) (limit : ℕ) (t : Outbox)
    → IsWellFormed t
    → IsQueued (fetch_due now locked limit t) t.rows
unfolding fetch_due
fetch_due-IsQueued now locked limit t h = (
  Pairs-select Differ (λ r s d e. d (sym e)) _ older_first limit t.rows (ids-Pairs t.rows h.ids),
  All-map (λ b. IsOnly t.rows b × _) (λ b. All (IsReady b) t.rows)
      (λ b k. IsReady-of_only t.rows b k.0 (ground arith)) _
      (All-select (IsOnly t.rows) _ older_first limit t.rows
        (IsOnly-All t.rows (ids-Pairs t.rows h.ids) (task_ids-Pairs t.rows h.task_ids))),
)

-- A row fetched from a well-formed table is the row of the table under its task_id, and pending.
pub fetched_row :
    (now : ℕ) (locked : ℕ → Bool) (limit : ℕ) (t : Outbox)
    → IsWellFormed t
    → All
        (λ b. (lookup by_task_id b.task_id t.rows ≡ some b) × (b.status ≡ pending))
        (fetch_due now locked limit t)
unfolding fetch_due
fetched_row now locked limit t h =
    All-map (λ b. (lookup by_task_id b.task_id t.rows ≡ some b) × _) _ (λ b k. (k.0, ground arith))
      _
      (All-select (λ b. lookup by_task_id b.task_id t.rows ≡ some b) _ older_first limit t.rows
        (lookup_self by_task_id t.rows h.task_ids))

pub fetched-Pairs :
    (now : ℕ) (locked : ℕ → Bool) (limit : ℕ) (t : Outbox)
    → IsWellFormed t
    → Pairs (λ b c. b.task_id ≢ c.task_id) (fetch_due now locked limit t)
unfolding fetch_due
fetched-Pairs now locked limit t h =
    Pairs-select (λ b c. b.task_id ≢ c.task_id) (λ r s d e. d (sym e)) _ older_first limit t.rows
      (task_ids-Pairs t.rows h.task_ids)
