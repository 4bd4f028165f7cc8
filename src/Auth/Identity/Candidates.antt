-- ===== src/Auth/Identity/Candidates.antt =====
-- The loop over the candidates against a plain search, and its cost.
use public_gbrain_agentos.Base.{
  ℕ, suc, ◌+◌, ◌≡◌, refl, Bool, true, false, ◌&&◌, Option, none, some, List, [], ◌∷◌, arith, inl,
  inr, Bool-cases, length, max, keep, ◌==◌, ok, if◌then◌else◌, String,
}
use public_gbrain_agentos.Base.Int.{ℤ}
use public_gbrain_agentos.Base.Text.{Text, Bytes, is_empty}
use public_gbrain_agentos.Auth.Scopes.{AgentContext}
use public_gbrain_agentos.Auth.Identity.{
  TokenRow, Crypto, Attempt, context_of, is_match, is_some, is_candidate, usable_secret, match_rows,
  validate_timestamp, authenticate_hmac, match_candidates, attempt, matched_or_raise,
}

abbrev pub first_match : (TokenRow → Bool) → List TokenRow → Option AgentContext
first_match p [] = none
first_match p (row ∷ rows) =
    let rest = first_match p rows in if p row then some (context_of row) else rest

-- the row's own secret is known, and signs the body as the request is signed
abbrev pub accepts : Attempt → TokenRow → Bool
accepts a row =
    is_match a row && is_some a.provided && is_some (usable_secret a.crypto a.secrets row)

match_rows-found :
    (a : Attempt) (rows : List TokenRow) (agent_ctx : AgentContext) (n : ℕ)
    → match_rows a rows (some agent_ctx, n) ≡ (some agent_ctx, length rows + n)
unfolding match_rows
match_rows-found a [] agent_ctx n = ground arith
match_rows-found a (row ∷ rows) agent_ctx n =
    ground (arith, match_rows-found a rows agent_ctx (suc n))

and_true : (b : Bool) → (b && true) ≡ b
and_true true = refl
and_true false = refl

match_rows-first :
    (a : Attempt) (rows : List TokenRow) (n : ℕ)
    → match_rows a rows (none, n) ≡ (first_match (accepts a) rows, length rows + n)
unfolding match_rows
match_rows-first a [] n = ground arith
match_rows-first a (row ∷ rows) n = elim (Bool-cases (accepts a row)) [
  | inl taken ↦
      rw (and_true (is_match a row), taken, match_rows-found a rows (context_of row) (suc n))
        (ground arith)
  | inr passed ↦
      rw (and_true (is_match a row), passed, match_rows-first a rows (suc n)) (ground arith)
]

work :
    {A : Type 0} (rows : List A)
    → (if length rows == 0 then suc (length rows + 0) else length rows + 0) ≡ max 1 (length rows)
work [] = omega arith
work (r ∷ rows) = ground arith

-- The constant-work loop is a search: with a timestamp in the window, `authenticate_hmac` answers
-- with the first candidate (with an HMAC secret, not revoked) whose secret signs the body as the
-- request is signed, and it computes one HMAC per candidate, or one if there is none, whatever the
-- signature, the secrets and the match.
pub authenticate_hmac-first :
    (c : Crypto) (secrets : List (String × Bytes)) (signature timestamp : Text) (body : Bytes)
    (tolerance now ts : ℤ) (table : List TokenRow)
    → is_empty signature ≡ false
    → is_empty timestamp ≡ false
    → validate_timestamp timestamp tolerance now ≡ ok ts
    → authenticate_hmac c secrets signature timestamp body tolerance now table ≡ (
      matched_or_raise
          (first_match (accepts (attempt c secrets ts body signature)) (keep is_candidate table)),
      max 1 (length (keep is_candidate table)),
    )
unfolding authenticate_hmac match_candidates
authenticate_hmac-first c secrets signature timestamp body tolerance now ts table signed dated
      fresh =
    let rows = keep is_candidate table in
    rw
      (
        signed,
        dated,
        fresh,
        match_rows-first (attempt c secrets ts body signature) rows 0,
        work rows,
      )
      refl
