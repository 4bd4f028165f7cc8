-- ===== src/Auth/Signing.antt =====
-- services/shared/hmac_sign.py. The cryptography is a parameter: `hexdigest secret message` stands
-- for `hmac.new(secret, message, hashlib.sha256).hexdigest()`.
pub mod RoundTrip
use public_gbrain_agentos.Base.{
  ℕ, zero, suc, ◌+◌, ◌-◌, ◌≤◌, String, Bool, true, false, not, ◌&&◌, ◌||◌, Option, none, some, List,
  [], ◌∷◌, ◌++◌, ltb, leb, ◌==◌, length, drop, if◌then◌else◌,
}
use public_gbrain_agentos.Base.Int.{ℤ, pos, negsuc, pos_part, neg_part, ltb_ℤ}
use public_gbrain_agentos.Base.Text.{
  Text, Bytes, text, text_eq, strip, lower, starts_with, decimal_ℤ, int_of, is_digit,
}

abbrev pub Hexdigest : Type 0
Hexdigest = Bytes → Bytes → Text

abbrev pub scheme_prefix : Text
scheme_prefix = text "sha256="

-- header names and values
abbrev pub Headers : Type 0
Headers = List (Text × Text)

unfoldable pub compute_digest : Hexdigest → Bytes → Bytes → ℤ → Text
compute_digest hexdigest secret body timestamp =
    hexdigest secret ((decimal_ℤ timestamp ++ text ".") ++ body)

unfoldable pub compute_digest_github : Hexdigest → Bytes → Bytes → Text
compute_digest_github hexdigest secret body = hexdigest secret body

unfoldable pub sign_request_github : Hexdigest → Bytes → Bytes → Headers
sign_request_github hexdigest secret body =
    (text "X-Hub-Signature-256", scheme_prefix ++ compute_digest_github hexdigest secret body) ∷ []

-- `timestamp` is the argument, or else what the time provider returns
unfoldable pub sign_request : Hexdigest → Bytes → Bytes → ℤ → Headers
sign_request hexdigest secret body timestamp =
    (text "X-Hermes-Signature", scheme_prefix ++ compute_digest hexdigest secret body timestamp)
    ∷ (text "X-Hermes-Timestamp", decimal_ℤ timestamp)
    ∷ []

abbrev pub is_hex : ℕ → Bool
is_hex c = is_digit c || (leb b'a' c && leb c b'f') || (leb b'A' c && leb c b'F')

-- the hexadecimal digits of `int(s, 16)`, with single underscores between them
hex_digits : Text → Bool
hex_digits [] = false
hex_digits (c ∷ []) = is_hex c
hex_digits (c ∷ d ∷ s) =
    let more = hex_digits (d ∷ s) in
    let past = hex_digits s in if is_hex c then (if d == b'_' then past else more) else false

after_prefix : Text → Text
after_prefix (z ∷ x ∷ u ∷ s) =
    if z == b'0' && (x == b'x' || x == b'X')
    then (if u == b'_' then s else u ∷ s)
    else z ∷ x ∷ u ∷ s
after_prefix s = s

after_sign : Text → Text
after_sign [] = []
after_sign (c ∷ s) = if c == b'-' || c == b'+' then s else c ∷ s

-- whether `int(s, 16)` returns, for a stripped `s`; only the ASCII digits are read
unfoldable pub is_int16 : Text → Bool
unfolding hex_digits after_prefix after_sign
is_int16 s = hex_digits (after_prefix (after_sign s))

unfoldable pub parse_signature_header : Text → Option Text
parse_signature_header header =
    if not (starts_with header scheme_prefix)
    then none
    else let digest = lower (strip (drop 7 header)) in
      if not (length digest == 64) then none else if is_int16 digest then some digest else none

-- |a - b|
abbrev pub distance : ℤ → ℤ → ℕ
distance a b =
    (pos_part a + neg_part b - (pos_part b + neg_part a))
    + (pos_part b + neg_part a - (pos_part a + neg_part b))

-- abs(now - ts) <= tolerance, for a tolerance that is not negative
abbrev pub is_fresh : ℤ → ℤ → ℤ → Bool
is_fresh (pos tolerance) now ts = leb (distance now ts) tolerance
is_fresh (negsuc n) now ts = false

check_digest : Hexdigest → Bytes → Bytes → ℤ → ℤ → Text → Option ℤ → Bool
check_digest hexdigest secret body tolerance now parsed none = false
check_digest hexdigest secret body tolerance now parsed (some ts) =
    is_fresh tolerance now ts && text_eq (compute_digest hexdigest secret body ts) parsed

check_parsed : Hexdigest → Bytes → Bytes → Text → ℤ → ℤ → Option Text → Bool
unfolding check_digest
check_parsed hexdigest secret body timestamp_header tolerance now none = false
check_parsed hexdigest secret body timestamp_header tolerance now (some parsed) =
    check_digest hexdigest secret body tolerance now parsed (int_of timestamp_header)

unfoldable pub verify_signature : Hexdigest → Bytes → Bytes → Text → Text → ℤ → ℤ → Bool
unfolding check_parsed
verify_signature hexdigest secret body signature_header timestamp_header tolerance now =
    check_parsed hexdigest secret body timestamp_header tolerance now
      (parse_signature_header signature_header)
