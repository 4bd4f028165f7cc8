-- ===== src/Swarm/Deliver/Signed.antt =====
-- What a signed letter is worth to its receiver, and what is not sent where signing is off.
use mathlib.Core.Path.{subst}
use public_gbrain_agentos.Base.{
  ℕ, ◌≡◌, refl, String, false, some, ◌∷◌, arith, Option-cases, inl, inr, leb, ◌⊎◌, Bool-cases,
}
use public_gbrain_agentos.Base.Int.{ℤ, pos}
use public_gbrain_agentos.Base.Text.{Text, Bytes, text, utf8}
use public_gbrain_agentos.Auth.Signing.{Headers, verify_signature, sign_request, distance}
use public_gbrain_agentos.Auth.Signing.RoundTrip.{IsHexdigest, get_header, verify-sign}
use public_gbrain_agentos.Swarm.Outbox.Rows.{Row}
use public_gbrain_agentos.Swarm.Gateway.{GatewayAuth, hmac, hmac_github, gateway_auth_for}
use public_gbrain_agentos.Swarm.Deliver.{
  Config, Request, PostOutcome, gateway_url, gateway_body, auth_headers, build_request,
  hmac_outbound_enabled, deliver_one,
}

abbrev pub auth_of : Config → Row → GatewayAuth
auth_of c row = gateway_auth_for c.gateway_token c.auth_map row.to_agent

signed_headers :
    (c : Config)
    → IsHexdigest c.hexdigest
    → (value : Text) (body : Bytes) (headers : Headers)
    → auth_headers c hmac value body ≡ some headers
    → (tolerance : ℕ) (now : ℤ)
    → let sent = (text "Content-Type", text "application/json") ∷ headers in
      verify_signature c.hexdigest
        (utf8 value)
        body
        (get_header (text "X-Hermes-Signature") sent)
        (get_header (text "X-Hermes-Timestamp") sent)
        (pos tolerance)
        now
      ≡ leb (distance now c.clock) tolerance
unfolding auth_headers
signed_headers c form value body headers h tolerance now =
    elim (Bool-cases (hmac_outbound_enabled c.hmac_outbound)) [
      | inl on ↦
          let e : headers ≡ sign_request c.hexdigest (utf8 value) body c.clock =
            ground (arith, on) in
          rw e (verify-sign c.hexdigest form (utf8 value) body c.clock now tolerance)
      | inr off ↦ absurd (ground (arith, off))
    ]

-- Of every letter that is posted to an agent with an "hmac" entry, the receiver's
-- `verify_signature` accepts exactly the bytes that were sent, with the headers that were sent
-- beside them, while the receiver's clock is within its tolerance of the sender's.
pub posted-verifies :
    (c : Config)
    → IsHexdigest c.hexdigest
    → (row : Row) (url : String) (request : Request) → (auth_of c row).mode ≡ hmac
    → build_request c row url ≡ some request
    → (tolerance : ℕ) (now : ℤ)
    → verify_signature c.hexdigest
        (utf8 (auth_of c row).value)
        request.content
        (get_header (text "X-Hermes-Signature") request.headers)
        (get_header (text "X-Hermes-Timestamp") request.headers)
        (pos tolerance)
        now
      ≡ leb (distance now c.clock) tolerance
unfolding build_request auth_headers
posted-verifies c form row url request mode built tolerance now =
    let body = gateway_body c row in
    let auth = auth_of c row in
    elim (Option-cases (auth_headers c auth.mode auth.value body)) [
      | inl held ↦ absurd (ground (arith, held))
      | inr (headers, given) ↦
          let e : request ≡ record {
            url = url;
            content = body;
            headers = (text "Content-Type", text "application/json") ∷ headers;
          } =
            ground (arith, given) in
          rw e (
            signed_headers c form auth.value body headers
              (subst (λ m. auth_headers c m auth.value body ≡ some headers) mode given) tolerance
              now)
    ]

-- Where outbound HMAC is switched off, a letter to an agent with an HMAC entry is never posted,
-- signed or unsigned: the answer does not depend on the transport, and the letter is tried again.
pub unsigned-held :
    (c : Config) (post post' : Request → PostOutcome) (row : Row)
    → hmac_outbound_enabled c.hmac_outbound ≡ false
    → ((auth_of c row).mode ≡ hmac) ⊎ ((auth_of c row).mode ≡ hmac_github)
    → deliver_one c post row ≡ deliver_one c post' row
unfolding deliver_one build_request auth_headers
unsigned-held c post post' row off (inl mode) = elim (Option-cases (gateway_url c row.to_agent)) [
  | inl missing ↦ rw (missing, deliver_one) refl
  | inr (url, found) ↦ rw (found, mode, off, deliver_one) refl
]
unsigned-held c post post' row off (inr mode) = elim (Option-cases (gateway_url c row.to_agent)) [
  | inl missing ↦ rw (missing, deliver_one) refl
  | inr (url, found) ↦ rw (found, mode, off, deliver_one) refl
]
