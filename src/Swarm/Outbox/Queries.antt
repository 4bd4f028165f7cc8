-- ===== src/Swarm/Outbox/Queries.antt =====
-- What the queries of the outbox return and write, row by row.
use public_gbrain_agentos.Base.{
  ℕ, zero, suc, ◌+◌, ◌^◌, ◌≤◌, String, ◌≡◌, refl, Bool, true, false, ◌&&◌, Option, some, List, [],
  ◌∷◌, arith, All, length, ltb, min, inl, inr, Option-cases, ◌=ₛ◌, eq_iff, if◌then◌else◌, keep, map,
}
use public_gbrain_agentos.Base.Json.{Fields}
use public_gbrain_agentos.Base.Table.{count_where, select}
use public_gbrain_agentos.Base.Table.Keys.{
  lookup, lookup-append, lookup-update, lookup_self, or_else, updated,
}
use public_gbrain_agentos.Base.Table.Order.{IsOrdered}
use public_gbrain_agentos.Base.Table.Subsets.{All-select}
use public_gbrain_agentos.Base.Table.Counts.{length-select, select-IsOrdered, count_by_key, test}
use public_gbrain_agentos.Swarm.Outbox.Rows.{
  Row, Status, Outbox, by_task_id, pending, acked, is_status, statuses,
}
use public_gbrain_agentos.Swarm.Outbox.Invariant.{IsWellFormed}
use public_gbrain_agentos.Swarm.Outbox.{
  compute_backoff_seconds, insert_row, enqueue, choose_task_id, fresh_row, touch, set_status,
  is_due, is_open, older_first, fetch_due, list_pending_for, mark_acked, get_stats,
}

power_pos : (n : ℕ) → 1 ≤ 2 ^ n
power_pos zero = omega arith
power_pos (suc n) = omega (arith, power_pos n)

power_mono : (m n : ℕ) → m ≤ n → 2 ^ m ≤ 2 ^ n
power_mono zero n h = power_pos n
power_mono (suc m) zero h = absurd (omega arith)
power_mono (suc m) (suc n) h = omega (arith, power_mono m n (omega arith))

-- The pause after a failed attempt never shrinks with more attempts, is at least 10 seconds after
-- the first, never over 300, and is 300 from the sixth attempt on.
pub backoff_grows :
    (m n : ℕ)
    → m ≤ n
    → (compute_backoff_seconds m ≤ compute_backoff_seconds n)
      × (10 ≤ compute_backoff_seconds (suc m))
      × (compute_backoff_seconds m ≤ 300)
      × (compute_backoff_seconds (suc (5 + m)) ≡ 300)
unfolding compute_backoff_seconds
backoff_grows zero zero h = (omega arith, omega arith, omega arith, omega arith)
backoff_grows zero (suc n) h = (omega arith, omega arith, omega arith, omega arith)
backoff_grows (suc m) zero h = absurd (omega arith)
backoff_grows (suc m) (suc n) h = (
  omega (arith, power_mono m n (omega arith)),
  omega (arith, power_pos m),
  omega arith,
  omega (arith, power_mono 5 (5 + suc m) (omega arith)),
)

insert_row-lookup :
    (now : ℕ) (r : Row) (t : Outbox) (j : String)
    → lookup by_task_id j (insert_row now r t).rows ≡ (
        if r.task_id =ₛ j
        then or_else (updated (λ _. true) (touch now) (lookup by_task_id j t.rows)) (some r)
        else lookup by_task_id j t.rows)
unfolding insert_row
insert_row-lookup now r t j = elim (Option-cases (lookup by_task_id r.task_id t.rows)) [
  | inl new ↦
      rw (new, insert_row, lookup-append by_task_id j t.rows (r ∷ []))
        (unfold lookup in ground (arith, new, eq_iff r.task_id j))
  | inr (s, old) ↦
      rw
        (
          old,
          insert_row,
          lookup-update by_task_id r.task_id j (λ _. true) (touch now) (λ _. refl) t.rows,
        )
        (ground (arith, old, eq_iff r.task_id j))
]

-- `enqueue` answers with the task_id, adds a pending letter where that is new, only moves
-- `updated_at` of the letter where it is known, and leaves every other letter alone.
pub enqueue_effect :
    (now : ℕ) (nonce from_agent to_agent : String) (payload : Fields) (task_id : Option String)
    (max_attempts : ℕ) (t : Outbox) (j : String)
    → let k = choose_task_id task_id from_agent to_agent nonce in
      let old = lookup by_task_id j t.rows in
      let (tid, t') = enqueue now nonce from_agent to_agent payload task_id max_attempts t in
      (tid ≡ k)
      × (lookup by_task_id j t'.rows ≡ (
          if k =ₛ j
          then or_else
              (updated (λ _. true) (touch now) old)
              (some (fresh_row now t.next_id k from_agent to_agent payload max_attempts))
          else old))
unfolding enqueue
enqueue_effect now nonce from_agent to_agent payload task_id max_attempts t j =
    let k = choose_task_id task_id from_agent to_agent nonce in
    (
      refl,
      insert_row-lookup now (fresh_row now t.next_id k from_agent to_agent payload max_attempts) t
          j,
    )

-- the sum of the counts
abbrev total : List (Status × ℕ) → ℕ
total [] = 0
total ((s, n) ∷ groups) = n + total groups

total-keep : (groups : List (Status × ℕ)) → total (keep (λ g. ltb 0 g.1) groups) ≡ total groups
total-keep [] = refl
total-keep ((s, n) ∷ groups) = ground (arith, total-keep groups)

counts : List Row → ℕ
counts rows = total (map (λ s. (s, count_where (λ r. is_status r.status s) rows)) statuses)

counts-cons : (r : Row) (rows : List Row) → counts (r ∷ rows) ≡ suc (counts rows)
unfolding counts count_where
counts-cons r rows = ground arith

counts_all : (rows : List Row) → counts rows ≡ length rows
counts_all [] = unfold counts count_where in refl
counts_all (r ∷ rows) = omega (arith, counts-cons r rows, counts_all rows)

-- `get_stats` groups every letter under its one status: the counts sum to the number of letters.
total-get_stats : (t : Outbox) → total (get_stats t) ≡ length t.rows
unfolding get_stats counts
total-get_stats t =
    rw (total-keep (map (λ s. (s, count_where (λ r. is_status r.status s) t.rows)) statuses))
      (counts_all t.rows)

-- What `list_pending_for` and `fetch_due` share: rows of the table, oldest first, none left out
-- below the limit.
abbrev pub IsListing : (Row → Bool) → ℕ → List Row → List Row → Type 0
IsListing p limit rows listed =
    All (λ r. (lookup by_task_id r.task_id rows ≡ some r) × (p r ≡ true)) listed
    × IsOrdered older_first listed
    × (length listed ≡ min limit (count_where p rows))

older_first-total : (r s : Row) → older_first r s ≡ false → older_first s r ≡ true
older_first-total r s h = ground arith

older_first_trans :
    (r s t : Row) → older_first r s ≡ true → older_first s t ≡ true → older_first r t ≡ true
older_first_trans r s t h k = ground arith

module _ (t : Outbox) (h : IsWellFormed t) where
  listing :
      (p : Row → Bool) (limit : ℕ) → IsListing p limit t.rows (select p older_first limit t.rows)
  listing p limit = (
    All-select (λ r. lookup by_task_id r.task_id t.rows ≡ some r) p older_first limit t.rows
        (lookup_self by_task_id t.rows h.task_ids),
    select-IsOrdered older_first older_first-total older_first_trans p limit t.rows,
    length-select p older_first limit t.rows,
  )

  -- In a well-formed table, `list_pending_for` returns the pending letters addressed to the agent,
  -- oldest first, and all of them unless there are more than the limit.
  pub list_pending_for_lem :
      (to_agent : String) (limit : ℕ)
      → IsListing
          (λ r. (r.to_agent =ₛ to_agent) && is_status r.status pending)
          limit
          t.rows
          (list_pending_for to_agent limit t)
  unfolding list_pending_for
  list_pending_for_lem to_agent limit = listing _ limit

  -- In a well-formed table, a batch holds the letters that are pending, due and not held by another
  -- transaction, oldest first, and all of them unless there are more than the limit.
  pub fetch_due_lem :
      (now : ℕ) (locked : ℕ → Bool) (limit : ℕ)
      → IsListing (is_due now locked) limit t.rows (fetch_due now locked limit t)
  unfolding fetch_due
  fetch_due_lem now locked limit = listing _ limit

  -- In a well-formed table, `mark_acked` reports success exactly where the letter exists and is
  -- still open; it closes that letter then, and in no case touches another one.
  pub mark_acked_effect :
      (now : ℕ) (k j : String)
      → ((mark_acked now k t).0 ≡ test (λ r. is_open r.status) (lookup by_task_id k t.rows))
        × (lookup by_task_id j (mark_acked now k t).1.rows ≡ (
            if k =ₛ j
            then updated (λ r. is_open r.status) (set_status now acked) (lookup by_task_id j t.rows)
            else lookup by_task_id j t.rows))
  unfolding mark_acked
  mark_acked_effect now k j = (
    count_by_key by_task_id k (λ r. is_open r.status) t.rows h.task_ids,
    lookup-update by_task_id k j (λ r. is_open r.status) (set_status now acked) (λ _. refl) t.rows,
  )
