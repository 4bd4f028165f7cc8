-- ===== src/Auth/Signing/RoundTrip.antt =====
-- What `sign_request` signs, `verify_signature` accepts while it is fresh.
use public_gbrain_agentos.Base.{
  ℕ, ◌≡◌, refl, Bool, true, false, ◌&&◌, ◌||◌, some, [], ◌∷◌, ◌++◌, arith, All, All-map, length,
  leb, ◌==◌, if◌then◌else◌, Bool-cases, inl, inr,
}
use public_gbrain_agentos.Base.Int.{ℤ, pos}
use public_gbrain_agentos.Base.Text.{
  Text, Bytes, text, text_eq, lower, is_digit, is_space, decimal_ℤ,
}
use public_gbrain_agentos.Base.Text.Decimal.{IsSolid, strip_solid, int_of-decimal_ℤ}
use public_gbrain_agentos.Auth.Signing.{
  Hexdigest, Headers, scheme_prefix, compute_digest, sign_request, is_int16, hex_digits,
  after_prefix, after_sign, parse_signature_header, verify_signature, distance,
}

abbrev pub is_lower_hex : ℕ → Bool
is_lower_hex c = is_digit c || (leb b'a' c && leb c b'f')

-- The documented form of `hexdigest()` of SHA-256: 64 lower-case hexadecimal digits.
abbrev pub IsHexdigest : Hexdigest → Type 0
IsHexdigest hexdigest =
    (secret message : Bytes)
    → (length (hexdigest secret message) ≡ 64)
      × All (λ c. is_lower_hex c ≡ true) (hexdigest secret message)

-- `headers[name]`, or the empty text
abbrev pub get_header : Text → Headers → Text
get_header name [] = []
get_header name ((k, v) ∷ headers) = if text_eq k name then v else get_header name headers

pub lower_hex : (s : Text) → All (λ c. is_lower_hex c ≡ true) s → lower s ≡ s
unfolding lower
lower_hex [] h = refl
lower_hex (c ∷ s) h = ground (arith, lower_hex s h.1)

pub hex-IsSolid : (s : Text) → All (λ c. is_lower_hex c ≡ true) s → IsSolid s
hex-IsSolid s h =
    All-map (λ c. is_lower_hex c ≡ true) (λ c. is_space c ≡ false) (λ c k. ground arith) s h

hex_digits_lower :
    (c : ℕ) (s : Text)
    → is_lower_hex c ≡ true
    → All (λ d. is_lower_hex d ≡ true) s
    → hex_digits (c ∷ s) ≡ true
unfolding hex_digits
hex_digits_lower c [] h k = ground arith
hex_digits_lower c (d ∷ s) h k = ground (arith, hex_digits_lower d s k.0 k.1)

after_sign_lower : (a : ℕ) (s : Text) → is_lower_hex a ≡ true → after_sign (a ∷ s) ≡ a ∷ s
unfolding after_sign
after_sign_lower a s h = ground arith

not_x : (b : ℕ) → is_lower_hex b ≡ true → (b == b'x' || b == b'X') ≡ false
not_x b h = ground arith

after_prefix_lower :
    (a b c : ℕ) (s : Text) → is_lower_hex b ≡ true → after_prefix (a ∷ b ∷ c ∷ s) ≡ a ∷ b ∷ c ∷ s
unfolding after_prefix
after_prefix_lower a b c s h = elim (Bool-cases (a == b'0')) [
  | inl z ↦ rw (z, not_x b h)
  | inr nz ↦ rw nz
]

is_int16_lower : (s : Text) → length s ≡ 64 → All (λ c. is_lower_hex c ≡ true) s → is_int16 s ≡ true
unfolding is_int16
is_int16_lower [] n h = absurd (omega arith)
is_int16_lower (a ∷ []) n h = absurd (omega arith)
is_int16_lower (a ∷ b ∷ []) n h = absurd (omega arith)
is_int16_lower (a ∷ b ∷ c ∷ s) n h =
    rw (after_sign_lower a (b ∷ c ∷ s) h.0)
      (rw (after_prefix_lower a b c s h.1.0) (hex_digits_lower a (b ∷ c ∷ s) h.0 h.1))

pub text_eq_self : (s : Text) → text_eq s s ≡ true
text_eq_self [] = refl
text_eq_self (c ∷ s) = ground (arith, text_eq_self s)

pub parse-signed :
    (d : Text)
    → length d ≡ 64
    → All (λ c. is_lower_hex c ≡ true) d
    → parse_signature_header (scheme_prefix ++ d) ≡ some d
unfolding parse_signature_header
parse-signed d n h = rw (strip_solid d (hex-IsSolid d h), lower_hex d h, n, is_int16_lower d n h)

-- A verifier that holds the secret accepts a signed request exactly while its clock is within the
-- tolerance of the request's timestamp, on either side. `hexdigest` has the form of SHA-256 digests.
pub verify-sign :
    (hexdigest : Hexdigest)
    → IsHexdigest hexdigest
    → (secret body : Bytes) (timestamp now : ℤ) (tolerance : ℕ)
    → let headers = sign_request hexdigest secret body timestamp in
      verify_signature hexdigest secret body
        (get_header (text "X-Hermes-Signature") headers)
        (get_header (text "X-Hermes-Timestamp") headers)
        (pos tolerance)
        now
      ≡ leb (distance now timestamp) tolerance
unfolding sign_request verify_signature compute_digest
verify-sign hexdigest form secret body timestamp now tolerance =
    let digest = hexdigest secret ((decimal_ℤ timestamp ++ text ".") ++ body) in
    let shape = form secret ((decimal_ℤ timestamp ++ text ".") ++ body) in
    rw (parse-signed digest shape.0 shape.1, int_of-decimal_ℤ timestamp, text_eq_self digest)
      (ground arith)
