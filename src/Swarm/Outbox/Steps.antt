-- ===== src/Swarm/Outbox/Steps.antt =====
-- The state machine of a letter: which states may follow a state, and what a step leaves alone.
use public_gbrain_agentos.Base.{
  ◌≤◌, String, ◌≡◌, refl, Bool, true, false, some, List, [], ◌∷◌, arith, All, Bool-cases, inl, inr,
  ◌=ₛ◌,
}
use public_gbrain_agentos.Base.Table.{Pointwise, Pointwise-update, update_where}
use public_gbrain_agentos.Base.Table.Keys.{lookup}
use public_gbrain_agentos.Swarm.Outbox.Rows.{
  Row, Status, pending, sent, ack_missing, acked, failed, by_task_id,
}

-- pending → sent → ack_missing; an ack closes any of the three; a pending letter may fail; nothing
-- leaves `acked` or `failed`, and nothing comes back to `pending`
abbrev pub may_become : Status → Status → Bool
may_become pending s = true
may_become sent sent = true
may_become sent ack_missing = true
may_become sent acked = true
may_become ack_missing ack_missing = true
may_become ack_missing acked = true
may_become acked acked = true
may_become failed failed = true
may_become _ _ = false

pub record RowStep (r s : Row) : Type 0 where
  pub id : s.id ≡ r.id
  pub task_id : s.task_id ≡ r.task_id
  pub from_agent : s.from_agent ≡ r.from_agent
  pub to_agent : s.to_agent ≡ r.to_agent
  pub payload : s.payload ≡ r.payload
  pub created_at : s.created_at ≡ r.created_at
  pub max_attempts : s.max_attempts ≡ r.max_attempts
  pub attempts : r.attempts ≤ s.attempts
  pub status : may_become r.status s.status ≡ true

may_become_refl : (s : Status) → may_become s s ≡ true
may_become_refl pending = refl
may_become_refl sent = refl
may_become_refl ack_missing = refl
may_become_refl acked = refl
may_become_refl failed = refl

may_become_trans :
    (r s t : Status) → may_become r s ≡ true → may_become s t ≡ true → may_become r t ≡ true
may_become_trans r s t h k = ground arith

pub RowStep-refl : (r : Row) → RowStep r r
RowStep-refl r = ground (arith, may_become_refl r.status)

pub RowStep-trans : (r s t : Row) → RowStep r s → RowStep s t → RowStep r t
RowStep-trans r s t h k = ground (arith, may_become_trans r.status s.status t.status)

-- Every letter of the first table is in the second, one step or more on.
abbrev pub Advances : List Row → List Row → Type 0
Advances xs ys =
    (k : String) (r : Row)
    → lookup by_task_id k xs ≡ some r
    → (s : Row) × (lookup by_task_id k ys ≡ some s) × RowStep r s

pub Advances-refl : (xs : List Row) → Advances xs xs
Advances-refl xs k r h = (r, h, RowStep-refl r)

pub Advances-trans : (xs ys zs : List Row) → Advances xs ys → Advances ys zs → Advances xs zs
Advances-trans xs ys zs h k id r e =
    let (s, es, rs) = h id r e in let (t, et, st) = k id s es in (t, et, RowStep-trans r s t rs st)

pub Advances-of_Pointwise : (xs ys : List Row) → Pointwise RowStep xs ys → Advances xs ys
unfolding lookup
Advances-of_Pointwise [] ys h k r e = absurd (ground arith)
Advances-of_Pointwise (x ∷ xs) [] h k r e = absurd h
Advances-of_Pointwise (x ∷ xs) (y ∷ ys) h k r e = elim (Bool-cases (x.task_id =ₛ k)) [
  | inl here ↦ (y, ground arith, ground arith)
  | inr there ↦
      let (s, es, step) = Advances-of_Pointwise xs ys h.1 k r (ground arith) in
      (s, ground arith, step)
]

pub Advances-update :
    (p : Row → Bool) (f : Row → Row) (rows : List Row)
    → All (λ r. p r ≡ true → RowStep r (f r)) rows
    → Advances rows (update_where p f rows)
Advances-update p f rows h =
    Advances-of_Pointwise rows (update_where p f rows)
      (Pointwise-update RowStep p f RowStep-refl rows h)
