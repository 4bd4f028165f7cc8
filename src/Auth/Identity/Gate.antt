-- ===== src/Auth/Identity/Gate.antt =====
-- What the gate in front of every tool never lets through.
use public_gbrain_agentos.Base.{
  ◌≡◌, refl, Bool, true, false, not, List, [], ◌∷◌, arith, keep, drop, String, Result, err,
}
use public_gbrain_agentos.Base.Int.{ℤ}
use public_gbrain_agentos.Base.Text.{Text, Bytes, utf8}
use public_gbrain_agentos.Auth.Errors.{AuthError, hmac_disabled}
use public_gbrain_agentos.Auth.Scopes.{AgentContext}
use public_gbrain_agentos.Auth.Identity.{
  TokenRow, Crypto, AuthValue, authorization, hmac_auth, no_auth, is_candidate, find_token,
  authenticate, authenticate_hmac, authenticate_captured,
}

-- the answer with HMAC refused
abbrev pub without_hmac : AuthValue → Result AuthError AgentContext → Result AuthError AgentContext
without_hmac (authorization value) answer = answer
without_hmac (hmac_auth signature timestamp body) answer = err hmac_disabled
without_hmac no_auth answer = answer

module _ (c : Crypto) (secrets : List (String × Bytes)) (tolerance now : ℤ) where
  -- With the kill switch off, every HMAC request is refused as disabled, and every other request
  -- gets the answer that it gets with the switch on.
  pub kill_switch :
      (value : AuthValue) (table : List TokenRow)
      → authenticate_captured c secrets false tolerance now value table
        ≡ without_hmac value (authenticate_captured c secrets true tolerance now value table)
  unfolding authenticate_captured
  kill_switch (authorization value) table = refl
  kill_switch (hmac_auth signature timestamp body) table = refl
  kill_switch no_auth table = refl

  find_token-active :
      (h : Text) (table : List TokenRow)
      → find_token h (keep (λ row. not row.revoked) table) ≡ find_token h table
  unfolding find_token
  find_token-active h [] = refl
  find_token-active h (row ∷ table) = ground (arith, find_token-active h table)

  candidates-active :
      (table : List TokenRow)
      → keep is_candidate (keep (λ row. not row.revoked) table) ≡ keep is_candidate table
  candidates-active [] = refl
  candidates-active (row ∷ table) = ground (arith, candidates-active table)

  authenticate-active :
      (token : Text) (table : List TokenRow)
      → authenticate c token (keep (λ row. not row.revoked) table) ≡ authenticate c token table
  unfolding authenticate
  authenticate-active token table =
      rw (find_token-active (c.sha256 (utf8 token)) table, authenticate) refl

  authenticate_hmac-active :
      (signature timestamp : Text) (body : Bytes) (table : List TokenRow)
      → authenticate_hmac c secrets signature timestamp body tolerance now
          (keep (λ row. not row.revoked) table)
        ≡ authenticate_hmac c secrets signature timestamp body tolerance now table
  unfolding authenticate_hmac
  authenticate_hmac-active signature timestamp body table =
      rw (candidates-active table, authenticate_hmac) refl

  -- A revoked token is as good as a deleted one, on either path: every request gets the answer that
  -- it would get if the revoked rows were not there.
  pub revoked_absent :
      (enabled : Bool) (value : AuthValue) (table : List TokenRow)
      → authenticate_captured c secrets enabled tolerance now value
          (keep (λ row. not row.revoked) table)
        ≡ authenticate_captured c secrets enabled tolerance now value table
  unfolding authenticate_captured
  revoked_absent enabled (authorization value) table =
      rw (authenticate-active (drop 7 value) table) refl
  revoked_absent enabled (hmac_auth signature timestamp body) table =
      rw (authenticate_hmac-active signature timestamp body table) refl
  revoked_absent enabled no_auth table = refl
