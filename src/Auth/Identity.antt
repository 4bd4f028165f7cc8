-- ===== src/Auth/Identity.antt =====
-- services/shared/auth.py: who is behind a captured header. The cryptography and the JSON parser
-- are parameters: `sha256` is `hashlib.sha256(…).hexdigest()`, `hexdigest` the HMAC of Auth/Signing,
-- `loads` is `json.loads`, `none` where that raises.
pub mod Candidates
pub mod Gate
pub mod Signed
use public_gbrain_agentos.Base.{
  ℕ, zero, suc, ◌+◌, ◌-◌, ◌*◌, String, Bool, true, false, not, ◌&&◌, ◌||◌, Option, none, some, List,
  [], ◌∷◌, ◌++◌, leb, ◌==◌, length, drop, keep, ◌=ₛ◌, Result, ok, err, if◌then◌else◌,
}
use public_gbrain_agentos.Base.Int.{ℤ}
use public_gbrain_agentos.Base.Text.{
  Text, Bytes, text, text_eq, strip, lower, starts_with, is_empty, is_digit, is_space, int_of, utf8,
}
use public_gbrain_agentos.Base.Json.{Json, str, obj, Fields, end, field}
use public_gbrain_agentos.Auth.Errors.{
  AuthError, invalid_bearer, malformed_header, hmac_disabled, missing_signature, missing_timestamp,
  invalid_timestamp, stale_timestamp, invalid_signature,
}
use public_gbrain_agentos.Auth.Signing.{Hexdigest, scheme_prefix, compute_digest, is_hex, is_fresh}
use public_gbrain_agentos.Auth.Scopes.{AgentContext}

-- a row of `agent_tokens`
pub record TokenRow : Type 0 where
  pub agent : String
  pub token_sha256 : Text
  pub hmac_secret_sha256 : Option Text
  pub can_write_scopes : List String
  pub can_read_scopes : List String
  pub revoked : Bool

pub data AuthValue : Type 0 where
  authorization : Text → AuthValue
  hmac_auth : Text → Text → Bytes → AuthValue
  no_auth : AuthValue

pub record Crypto : Type 0 where
  pub sha256 : Bytes → Text
  pub hexdigest : Hexdigest

abbrev pub context_of : TokenRow → AgentContext
context_of row = record {
  agent = row.agent;
  write_scopes = row.can_write_scopes;
  read_scopes = row.can_read_scopes;
}

-- SELECT … WHERE token_sha256 = h AND revoked_at IS NULL
unfoldable pub find_token : Text → List TokenRow → Option TokenRow
find_token h [] = none
find_token h (row ∷ rows) =
    let rest = find_token h rows in
    if text_eq row.token_sha256 h && not row.revoked then some row else rest

unfoldable pub authenticate : Crypto → Text → List TokenRow → Result AuthError AgentContext
authenticate c token rows = elim (find_token (c.sha256 (utf8 token)) rows) [
  | none ↦ err invalid_bearer
  | some row ↦ ok (context_of row)
]

secret_fields : Fields → List (String × Bytes)
secret_fields end = []
secret_fields (field agent (str secret) fields) = (agent, utf8 (text secret)) ∷ secret_fields fields
secret_fields (field agent v fields) = secret_fields fields

secrets_of : Option Json → List (String × Bytes)
unfolding secret_fields
secrets_of (some (obj fields)) = secret_fields fields
secrets_of _ = []

-- the value of GBRAIN_HMAC_SECRETS_JSON; what does not parse counts as empty
unfoldable pub load_hmac_secrets_from_env : (Text → Option Json) → Text → List (String × Bytes)
unfolding secrets_of
load_hmac_secrets_from_env loads environ =
    if is_empty (strip environ) then [] else secrets_of (loads (strip environ))

hex_value : ℕ → ℕ
hex_value c = if is_digit c then c - 48 else if leb b'a' c then c - 87 else c - 55

-- what `bytes.fromhex` skips
abbrev pub is_ascii_space : ℕ → Bool
is_ascii_space c = (leb 9 c && leb c 13) || c == b' '

-- `bytes.fromhex`: pairs of digits, with ASCII white space between the pairs
unfoldable pub from_hex : Text → Option Bytes
unfolding hex_value
from_hex [] = some []
from_hex (a ∷ []) = if is_ascii_space a then some [] else none
from_hex (a ∷ b ∷ s) =
    let later = from_hex (b ∷ s) in
    let rest = from_hex s in
    if is_ascii_space a
    then later
    else if is_hex a && is_hex b
    then elim rest [ none ↦ none | some bs ↦ some ((hex_value a * 16 + hex_value b) ∷ bs) ]
    else none

unfoldable pub parse_signature : Text → Option Bytes
parse_signature signature =
    if not (starts_with signature scheme_prefix)
    then none
    else let hex_part = lower (strip (drop 7 signature)) in
      if not (length hex_part == 64) then none else from_hex hex_part

unfoldable pub validate_timestamp : Text → ℤ → ℤ → Result AuthError ℤ
validate_timestamp timestamp tolerance now = elim (int_of timestamp) [
  | none ↦ err invalid_timestamp
  | some ts ↦ if is_fresh tolerance now ts then ok ts else err stale_timestamp
]

abbrev pub zeros : ℕ → Bytes
zeros zero = []
zeros (suc n) = 0 ∷ zeros n

abbrev pub dummy_secret : Bytes
dummy_secret = zeros 32

-- `none` would be a ValueError of `bytes.fromhex`, which a hexdigest never gives
unfoldable pub expected_signature : Crypto → Bytes → ℤ → Bytes → Option Bytes
expected_signature c secret ts body = from_hex (compute_digest c.hexdigest secret body ts)

abbrev pub secret_for : String → List (String × Bytes) → Option Bytes
secret_for agent [] = none
secret_for agent ((a, s) ∷ secrets) = if a =ₛ agent then some s else secret_for agent secrets

abbrev pub hash_matches : Text → Option Text → Bool
hash_matches env_hash none = text_eq env_hash []
hash_matches env_hash (some db_hash) = text_eq env_hash db_hash

-- the secret from the environment, where the database knows its hash
unfoldable pub usable_secret : Crypto → List (String × Bytes) → TokenRow → Option Bytes
usable_secret c secrets row = elim (secret_for row.agent secrets) [
  | none ↦ none
  | some raw ↦ if hash_matches (c.sha256 raw) row.hmac_secret_sha256 then some raw else none
]

abbrev pub or_dummy : Option Bytes → Bytes
or_dummy none = dummy_secret
or_dummy (some secret) = secret

abbrev pub is_some : {A : Type 0} → Option A → Bool
is_some none = false
is_some (some a) = true

-- `hmac.compare_digest(expected, safe_provided)`
abbrev pub same_digest : Option Bytes → Bytes → Bool
same_digest none provided = false
same_digest (some expected) provided = text_eq expected provided

-- the two indexes of the query for candidates
abbrev pub is_candidate : TokenRow → Bool
is_candidate row = is_some row.hmac_secret_sha256 && not row.revoked

-- What the loop over the candidates reads.
pub record Attempt : Type 0 where
  pub crypto : Crypto
  pub secrets : List (String × Bytes)
  pub ts : ℤ
  pub body : Bytes
  pub provided : Option Bytes

abbrev pub is_match : Attempt → TokenRow → Bool
is_match a row =
    same_digest
      (expected_signature a.crypto (or_dummy (usable_secret a.crypto a.secrets row)) a.ts a.body)
      (elim a.provided [ none ↦ zeros 32 | some p ↦ p ])

-- The loop: the agent matched so far, beside the number of HMACs computed.
unfoldable pub match_rows :
    Attempt → List TokenRow → Option AgentContext × ℕ → Option AgentContext × ℕ
match_rows a [] s = s
match_rows a (row ∷ rows) (matched, hmacs) =
    let usable = is_some (usable_secret a.crypto a.secrets row) in
    let taken = is_match a row && not (is_some matched) && is_some a.provided && usable in
    match_rows a rows (if taken then some (context_of row) else matched, suc hmacs)

abbrev pub attempt : Crypto → List (String × Bytes) → ℤ → Bytes → Text → Attempt
attempt c secrets ts body signature = record {
  crypto = c;
  secrets = secrets;
  ts = ts;
  body = body;
  provided = parse_signature signature;
}

abbrev pub matched_or_raise : Option AgentContext → Result AuthError AgentContext
matched_or_raise none = err invalid_signature
matched_or_raise (some agent_ctx) = ok agent_ctx

-- what follows the check of the timestamp; one HMAC over the dummy secret where there is no row
unfoldable pub match_candidates :
    Crypto
    → List (String × Bytes)
    → Text
    → Bytes
    → List TokenRow
    → Result AuthError ℤ
    → Result AuthError AgentContext × ℕ
match_candidates c secrets signature body rows (err e) = (err e, 0)
match_candidates c secrets signature body rows (ok ts) =
    let (matched, hmacs) = match_rows (attempt c secrets ts body signature) rows (none, 0) in
    (matched_or_raise matched, if length rows == 0 then suc hmacs else hmacs)

unfoldable pub authenticate_hmac :
    Crypto
    → List (String × Bytes)
    → Text
    → Text
    → Bytes
    → ℤ
    → ℤ
    → List TokenRow
    → Result AuthError AgentContext × ℕ
authenticate_hmac c secrets signature timestamp body tolerance now table =
    if is_empty signature
    then (err missing_signature, 0)
    else if is_empty timestamp
    then (err missing_timestamp, 0)
    else match_candidates c secrets signature body (keep is_candidate table)
        (validate_timestamp timestamp tolerance now)

-- `secrets` is what `load_hmac_secrets_from_env` gives.
unfoldable pub authenticate_captured :
    Crypto
    → List (String × Bytes)
    → Bool
    → ℤ
    → ℤ
    → AuthValue
    → List TokenRow
    → Result AuthError AgentContext
authenticate_captured c secrets hmac_auth_enabled tolerance now (authorization value) table =
    if not (starts_with value (text "Bearer "))
    then err malformed_header
    else if is_empty (drop 7 value)
    then err malformed_header
    else authenticate c (drop 7 value) table
authenticate_captured c secrets hmac_auth_enabled tolerance now (hmac_auth signature timestamp body)
      table =
    if not hmac_auth_enabled
    then err hmac_disabled
    else (authenticate_hmac c secrets signature timestamp body tolerance now table).0
authenticate_captured c secrets hmac_auth_enabled tolerance now no_auth table = err malformed_header
