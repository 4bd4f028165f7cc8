-- ===== src/Auth/Scopes/Restrict.antt =====
-- The scopes that `restrict_read_scopes` lets through.
use public_gbrain_agentos.Base.{
  String, ◌≡◌, refl, true, Option, List, [], ◌∷◌, All, All-map, keep, contains, eq_iff, ok, arith,
  Bool-cases, inl, inr, ◌⊎◌, ◌≢◌,
}
use public_gbrain_agentos.Base.Table.{All-true, All-keep}
use public_gbrain_agentos.Auth.Errors.{AuthError, no_read_scopes, scopes_denied}
use public_gbrain_agentos.Auth.Scopes.{
  AgentContext, check_read_scope, is_default, requested, non_empty, restrict_read_scopes,
}

contains_self : (xs : List String) → All (λ s. contains xs s ≡ true) xs
contains_self [] = tt
contains_self (x ∷ xs) = (
  ground (arith, eq_iff x x),
  All-map (λ s. contains xs s ≡ true) (λ s. contains (x ∷ xs) s ≡ true) (λ s h. ground arith) xs
      (contains_self xs),
)

non_empty-ok :
    (e : AuthError) (xs ys : List String) → non_empty e xs ≡ ok ys → (ys ≡ xs) × (ys ≢ [])
non_empty-ok e [] ys h = absurd (ground arith)
non_empty-ok e (x ∷ xs) ys h = (ground arith, λ k. ground arith)

module _ (agent_ctx : AgentContext) where
  All-readable :
      contains agent_ctx.read_scopes "*" ≡ true
      → (scopes : List String) → All (λ s. check_read_scope agent_ctx s ≡ true) scopes
  unfolding check_read_scope
  All-readable wild scopes = All-true _ (λ s. rw wild refl) scopes

  each_readable :
      (scopes : List String)
      → All (λ s. contains agent_ctx.read_scopes s ≡ true) scopes
      → All (λ s. check_read_scope agent_ctx s ≡ true) scopes
  unfolding check_read_scope
  each_readable scopes h = All-map _ _ (λ s k. ground arith) scopes h

-- Whatever a caller asks for, every scope that comes back is one that the agent may read; and
-- without a wildcard token something comes back, so that a filter by it is no filter by nothing.
pub restricted_readable :
    (agent_ctx : AgentContext) (requested_scopes : Option (List String)) (scopes : List String)
    → restrict_read_scopes agent_ctx requested_scopes ≡ ok scopes
    → All (λ s. check_read_scope agent_ctx s ≡ true) scopes
      × ((contains agent_ctx.read_scopes "*" ≡ true) ⊎ (scopes ≢ []))
unfolding restrict_read_scopes
restricted_readable agent_ctx requested_scopes scopes h =
    elim (Bool-cases (contains agent_ctx.read_scopes "*")) [
      | inl wild ↦ (All-readable agent_ctx wild scopes, inl wild)
      | inr strict ↦ elim (Bool-cases (is_default requested_scopes)) [
        | inl default ↦
            let (same, some_left) =
              non_empty-ok no_read_scopes agent_ctx.read_scopes scopes (ground arith) in
            (
              each_readable agent_ctx scopes (rw same (contains_self agent_ctx.read_scopes)),
              inr some_left,
            )
        | inr chosen ↦
            let kept = keep (λ s. contains agent_ctx.read_scopes s) (requested requested_scopes) in
            let (same, some_left) = non_empty-ok scopes_denied kept scopes (ground arith) in
            (
              each_readable agent_ctx scopes
                  (rw same (All-keep _ _ (λ s k. k) (requested requested_scopes))),
              inr some_left,
            )
      ]
    ]
