-- ===== src/Auth/Identity/Signed.antt =====
-- What `sign_request` signs, `authenticate_hmac` attributes to its agent.
use public_gbrain_agentos.Base.{
  ℕ, zero, suc, ◌+◌, ◌*◌, ◌≡◌, refl, Bool, true, false, ◌&&◌, some, List, [], ◌∷◌, ◌++◌, arith, All,
  length, keep, leb, String, ok,
}
use public_gbrain_agentos.Base.Int.{ℤ, pos}
use public_gbrain_agentos.Base.Text.{Text, Bytes, text, is_empty, decimal_ℤ, int_of}
use public_gbrain_agentos.Base.Text.Decimal.{strip_solid, int_of-decimal_ℤ}
use public_gbrain_agentos.Auth.Signing.{
  scheme_prefix, compute_digest, sign_request, is_hex, distance,
}
use public_gbrain_agentos.Auth.Signing.RoundTrip.{
  IsHexdigest, is_lower_hex, get_header, lower_hex, hex-IsSolid, text_eq_self,
}
use public_gbrain_agentos.Auth.Identity.{
  TokenRow, Crypto, context_of, is_candidate, usable_secret, attempt, is_ascii_space, from_hex,
  hex_value, parse_signature, validate_timestamp, expected_signature, authenticate_hmac,
}
use public_gbrain_agentos.Auth.Identity.Candidates.{first_match, accepts, authenticate_hmac-first}

hex_solid : (a : ℕ) → is_lower_hex a ≡ true → is_ascii_space a ≡ false
hex_solid a h = ground arith

hex_pair : (a b : ℕ) → is_lower_hex a ≡ true → is_lower_hex b ≡ true → (is_hex a && is_hex b) ≡ true
hex_pair a b h k = ground arith

-- an even number of lower-case digits decodes
from_hex_total :
    (n : ℕ) (s : Text)
    → length s ≡ n + n
    → All (λ c. is_lower_hex c ≡ true) s
    → (bytes : Bytes) × (from_hex s ≡ some bytes)
unfolding from_hex
from_hex_total zero [] e h = ([], refl)
from_hex_total zero (a ∷ s) e h = absurd (omega arith)
from_hex_total (suc n) [] e h = absurd (omega arith)
from_hex_total (suc n) (a ∷ []) e h = absurd (omega arith)
from_hex_total (suc n) (a ∷ b ∷ s) e h =
    let (bytes, decoded) = from_hex_total n s (omega arith) h.1.1 in
    let solid : is_ascii_space a ≡ false = hex_solid a h.0 in
    let pair : (is_hex a && is_hex b) ≡ true = hex_pair a b h.0 h.1.0 in
    ((hex_value a * 16 + hex_value b) ∷ bytes, rw (solid, pair, decoded, from_hex) refl)

parse_signature-signed :
    (d : Text)
    → length d ≡ 64
    → All (λ c. is_lower_hex c ≡ true) d
    → parse_signature (scheme_prefix ++ d) ≡ from_hex d
unfolding parse_signature
parse_signature-signed d n h = rw (strip_solid d (hex-IsSolid d h), lower_hex d h, n) refl

dated : (s : Text) (n : ℤ) → int_of s ≡ some n → is_empty s ≡ false
unfolding int_of
dated [] n h = absurd (ground arith)
dated (c ∷ s) n h = refl

first_match-append :
    (p : TokenRow → Bool) (before : List TokenRow) (row : TokenRow) (after : List TokenRow)
    → All (λ r. p r ≡ false) before
    → p row ≡ true
    → first_match p (before ++ row ∷ after) ≡ some (context_of row)
first_match-append p [] row after h taken = rw taken refl
first_match-append p (r ∷ before) row after h taken =
    rw (h.0) (first_match-append p before row after h.1 taken)

module _ (c : Crypto) (form : IsHexdigest c.hexdigest) where
  accepts-signed :
      (secrets : List (String × Bytes)) (row : TokenRow) (secret body : Bytes) (ts : ℤ)
      → usable_secret c secrets row ≡ some secret
      → accepts
          (attempt c secrets ts body (scheme_prefix ++ compute_digest c.hexdigest secret body ts))
          row
        ≡ true
  unfolding compute_digest expected_signature
  accepts-signed secrets row secret body ts usable =
      let d = c.hexdigest secret ((decimal_ℤ ts ++ text ".") ++ body) in
      let shape = form secret ((decimal_ℤ ts ++ text ".") ++ body) in
      let (bytes, decoded) = from_hex_total 32 d shape.0 shape.1 in
      rw (usable, parse_signature-signed d shape.0 shape.1, decoded, text_eq_self bytes) refl

  -- A request that an agent signs with its secret, fresh by the server's clock, is answered with the
  -- context of that agent's row, if the row is an active candidate whose secret the server knows
  -- and no candidate before it accepts the request. `hexdigest` has the form of SHA-256 digests.
  pub authenticate_hmac-sign :
      (secrets : List (String × Bytes)) (row : TokenRow) (secret body : Bytes) (ts now : ℤ)
      (tolerance : ℕ) (table before after : List TokenRow)
      → usable_secret c secrets row ≡ some secret
      → leb (distance now ts) tolerance ≡ true
      → keep is_candidate table ≡ before ++ row ∷ after
      → All
          (λ r.
            accepts
              (attempt c secrets ts body
                (scheme_prefix ++ compute_digest c.hexdigest secret body ts))
              r
            ≡ false)
          before
      → let headers = sign_request c.hexdigest secret body ts in
        (authenticate_hmac c secrets
          (get_header (text "X-Hermes-Signature") headers)
          (get_header (text "X-Hermes-Timestamp") headers)
          body
          (pos tolerance)
          now
          table).0
        ≡ ok (context_of row)
  unfolding sign_request validate_timestamp
  authenticate_hmac-sign secrets row secret body ts now tolerance table before after usable recent
        split others =
      let signature = scheme_prefix ++ compute_digest c.hexdigest secret body ts in
      let valid : validate_timestamp (decimal_ℤ ts) (pos tolerance) now ≡ ok ts =
        rw (int_of-decimal_ℤ ts, recent, validate_timestamp) refl in
      rw
        (
          authenticate_hmac-first c secrets signature (decimal_ℤ ts) body (pos tolerance) now ts
              table refl (dated (decimal_ℤ ts) ts (int_of-decimal_ℤ ts)) valid,
          split,
          first_match-append (accepts (attempt c secrets ts body signature)) before row after others
              (accepts-signed secrets row secret body ts usable),
        )
        refl
