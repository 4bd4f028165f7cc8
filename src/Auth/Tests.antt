-- ===== src/Auth/Tests.antt =====
-- Identities and scopes at concrete inputs.
use public_gbrain_agentos.Base.{
  ◌≡◌, ◌≢◌, ◌⊎◌, refl, String, true, false, some, List, [], ◌∷◌, ◌++◌, All, keep, max, length,
  contains, ok,
}
use public_gbrain_agentos.Base.Int.{pos}
use public_gbrain_agentos.Base.Text.{Text, Bytes, text, int_of}
use public_gbrain_agentos.Base.{ℕ, zero, suc, arith}
use public_gbrain_agentos.Base.Text.{lower}
use public_gbrain_agentos.Auth.Signing.{sign_request}
use public_gbrain_agentos.Auth.Signing.RoundTrip.{IsHexdigest, get_header, is_lower_hex}
use public_gbrain_agentos.Auth.Identity.{usable_secret, context_of, no_auth}
use public_gbrain_agentos.Auth.Identity.Signed.{authenticate_hmac-sign}
use public_gbrain_agentos.Auth.Capture.{
  Message, http_request, Forwarded, header_lookup, drain_body, middleware,
}
use public_gbrain_agentos.Auth.Capture.Replay.{IsFaithful, middleware-IsFaithful}
use public_gbrain_agentos.Auth.Scopes.{AgentContext, check_read_scope, restrict_read_scopes}
use public_gbrain_agentos.Auth.Scopes.Restrict.{restricted_readable}
use public_gbrain_agentos.Auth.Identity.{
  TokenRow, Crypto, AuthValue, hmac_auth, attempt, matched_or_raise, is_candidate,
  validate_timestamp, authenticate_hmac,
}
use public_gbrain_agentos.Auth.Identity.Candidates.{first_match, accepts, authenticate_hmac-first}

-- stand-ins for the hashes
abbrev crypto : Crypto
crypto = record { sha256 = λ s. s; hexdigest = λ secret message. secret }

abbrev key : Text
key = text "0123456789abcdef0123456789abcdef0123456789abcdef0123456789abcdef"

abbrev row : TokenRow
row = record {
  agent = "bob";
  token_sha256 = text "bobs-token";
  hmac_secret_sha256 = some key;
  can_write_scopes = "10-tasks" ∷ [];
  can_read_scopes = "30-decisions" ∷ "70-runbooks" ∷ [];
  revoked = false;
}

abbrev tokens : List TokenRow
tokens = record row { agent = "eve"; revoked = true } ∷ row ∷ []

abbrev secrets : List (String × Bytes)
secrets = ("bob", key) ∷ []

abbrev signature : Text
signature = text "sha256=" ++ key

fresh : validate_timestamp (text "1000") (pos 300) (pos 1100) ≡ ok (pos 1000)
unfolding validate_timestamp int_of
fresh = refl

authenticate_hmac-first_example :
    authenticate_hmac crypto secrets signature
      (text "1000")
      (text "body")
      (pos 300)
      (pos 1100)
      tokens
    ≡ (
      matched_or_raise (
          first_match
            (accepts (attempt crypto secrets (pos 1000) (text "body") signature))
            (keep is_candidate tokens)),
      max 1 (length (keep is_candidate tokens)),
    )
authenticate_hmac-first_example =
    authenticate_hmac-first crypto secrets signature (text "1000") (text "body") (pos 300)
      (pos 1100) (pos 1000) tokens refl refl fresh

abbrev signed : AuthValue
signed = hmac_auth signature (text "1000") (text "body")

abbrev bob : AgentContext
bob = record {
  agent = "bob";
  write_scopes = "10-tasks" ∷ [];
  read_scopes = "30-decisions" ∷ "70-runbooks" ∷ [];
}

abbrev one_scope : List String
one_scope = "70-runbooks" ∷ []

restricted :
    restrict_read_scopes bob (some ("20-daily" ∷ "70-runbooks" ∷ [])) ≡ ok ("70-runbooks" ∷ [])
unfolding restrict_read_scopes
restricted = refl

restricted_readable_example :
    All (λ s. check_read_scope bob s ≡ true) ("70-runbooks" ∷ [])
    × ((contains bob.read_scopes "*" ≡ true) ⊎ (one_scope ≢ []))
restricted_readable_example =
    restricted_readable bob (some ("20-daily" ∷ "70-runbooks" ∷ [])) ("70-runbooks" ∷ []) restricted

-- a digest with the form of SHA-256's
abbrev zeros : ℕ → Text
zeros zero = []
zeros (suc n) = b'0' ∷ zeros n

zeros_form : (n : ℕ) → (length (zeros n) ≡ n) × All (λ c. is_lower_hex c ≡ true) (zeros n)
zeros_form zero = (refl, tt)
zeros_form (suc n) = (omega (arith, (zeros_form n).0), (refl, (zeros_form n).1))

abbrev hex_crypto : Crypto
hex_crypto = record { sha256 = λ s. s; hexdigest = λ secret message. zeros 64 }

hex_form : IsHexdigest hex_crypto.hexdigest
hex_form secret message = zeros_form 64

knows_bob : usable_secret hex_crypto secrets row ≡ some key
unfolding usable_secret
knows_bob = refl

authenticate_hmac-sign_example :
    (authenticate_hmac hex_crypto secrets
      (get_header
        (text "X-Hermes-Signature")
        (sign_request hex_crypto.hexdigest key (text "body") (pos 1000)))
      (get_header
        (text "X-Hermes-Timestamp")
        (sign_request hex_crypto.hexdigest key (text "body") (pos 1000)))
      (text "body")
      (pos 300)
      (pos 1100)
      tokens).0
    ≡ ok (context_of row)
authenticate_hmac-sign_example =
    authenticate_hmac-sign hex_crypto hex_form secrets row key (text "body") (pos 1000) (pos 1100)
      300 tokens [] [] knows_bob refl refl tt

abbrev headers : List (Bytes × Bytes)
headers = (text "X-Hermes-Signature", signature) ∷ (text "X-Hermes-Timestamp", text "1000") ∷ []

abbrev messages : List Message
messages =
    http_request (text "bo") true
    ∷ http_request (text "dy") false
    ∷ http_request (text "next") false
    ∷ []

abbrev forwarded : Forwarded
forwarded = record {
  auth = signed;
  received = http_request (text "bo") true ∷ http_request (text "dy") false ∷ [];
}

captured : middleware true no_auth headers messages ≡ some forwarded
unfolding middleware header_lookup drain_body lower
captured = refl

middleware-IsFaithful_example : IsFaithful messages forwarded
middleware-IsFaithful_example = middleware-IsFaithful headers messages forwarded captured
