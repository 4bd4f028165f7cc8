-- ===== src/Auth/Capture/Replay.antt =====
-- The captured body is the body that the application reads.
use mathlib.Core.Option.{some-injective}
use mathlib.Core.Path.{subst}
use mathlib.Core.List.{append-nil}
use public_gbrain_agentos.Base.{
  ◌≡◌, refl, sym, ap, true, false, Option, none, some, List, [], ◌∷◌, ◌++◌, arith, Option-cases,
  inl, inr,
}
use public_gbrain_agentos.Base.Text.{Bytes, text}
use public_gbrain_agentos.Auth.Identity.{AuthValue, authorization, hmac_auth, no_auth}
use public_gbrain_agentos.Auth.Capture.{
  Message, http_request, http_disconnect, other, Forwarded, header_lookup, drain_body,
  captured_with, middleware, capture, forward_drained,
}

-- the bytes of the body in a sequence of messages
abbrev pub body_of : List Message → Bytes
body_of [] = []
body_of (http_request body more ∷ ms) = body ++ body_of ms
body_of (http_disconnect ∷ ms) = body_of ms
body_of (other ∷ ms) = body_of ms

abbrev IsBodyOf : AuthValue → List Message → Type 0
IsBodyOf (authorization bearer) ms = Unit
IsBodyOf (hmac_auth sig ts body) ms = body ≡ body_of ms
IsBodyOf no_auth ms = Unit

-- the body is that of the captured messages, and the channel went on after them
abbrev IsSplit : List Message → Bytes × List Message × List Message → Type 0
IsSplit ms (body, captured, rest) = (body ≡ body_of captured) × (ms ≡ captured ++ rest)

drain_body-IsSplit :
    (ms : List Message) (d : Bytes × List Message × List Message)
    → drain_body ms ≡ some d
    → IsSplit ms d
unfolding drain_body
drain_body-IsSplit [] d h = absurd (ground arith)
drain_body-IsSplit (http_request chunk true ∷ ms) d h = elim (Option-cases (drain_body ms)) [
  | inl waiting ↦ absurd (ground (arith, waiting))
  | inr (e, drained) ↦
      let found : some (chunk ++ e.0, http_request chunk true ∷ e.1, e.2) ≡ some d =
        rw⁻¹ (ap (captured_with (http_request chunk true) chunk) drained) h in
      subst (IsSplit (http_request chunk true ∷ ms)) (some-injective _ d found) (
        ap (λ (b : Bytes). chunk ++ b) (drain_body-IsSplit ms e drained).0,
        ap (λ (r : List Message). http_request chunk true ∷ r) (drain_body-IsSplit ms e drained).1,
      )
]
drain_body-IsSplit (http_request chunk false ∷ ms) d h =
    subst (IsSplit (http_request chunk false ∷ ms)) (some-injective _ d h)
      (sym (append-nil chunk), refl)
drain_body-IsSplit (http_disconnect ∷ ms) d h =
    subst (IsSplit (http_disconnect ∷ ms)) (some-injective _ d h) (refl, refl)
drain_body-IsSplit (other ∷ ms) d h = elim (Option-cases (drain_body ms)) [
  | inl waiting ↦ absurd (ground (arith, waiting))
  | inr (e, drained) ↦
      let found : some (e.0, other ∷ e.1, e.2) ≡ some d =
        rw⁻¹ (ap (captured_with other []) drained) h in
      subst (IsSplit (other ∷ ms)) (some-injective _ d found) (
        (drain_body-IsSplit ms e drained).0,
        ap (λ (r : List Message). other ∷ r) (drain_body-IsSplit ms e drained).1,
      )
]

-- what a captured value says of the messages behind it
abbrev pub IsFaithful : List Message → Forwarded → Type 0
IsFaithful ms o = (rest : List Message) × (ms ≡ o.received ++ rest) × IsBodyOf o.auth o.received

forward_drained-IsFaithful :
    (sig ts : Bytes) (ms : List Message) (o : Forwarded)
    → forward_drained sig ts (drain_body ms) ≡ some o
    → IsFaithful ms o
unfolding forward_drained
forward_drained-IsFaithful sig ts ms o h = elim (Option-cases (drain_body ms)) [
  | inl waiting ↦ absurd (ground (arith, waiting))
  | inr (e, drained) ↦
      let found : some (record { auth = hmac_auth sig ts e.0; received = e.1 }) ≡ some o =
        rw⁻¹ (ap (forward_drained sig ts) drained) h in
      subst (IsFaithful ms) (some-injective _ o found)
        (e.2, (drain_body-IsSplit ms e drained).1, (drain_body-IsSplit ms e drained).0)
]

whole :
    (auth : AuthValue) (ms : List Message)
    → IsBodyOf auth ms
    → IsFaithful ms (record { auth = auth; received = ms })
whole auth ms h = ([], sym (append-nil ms), h)

-- Whatever the middleware captures of a new HTTP request, the application behind it receives the
-- messages of the client in their order, from the first on; and the body that an HMAC is checked
-- over is the body that the application reads from them.
pub middleware-IsFaithful :
    (headers : List (Bytes × Bytes)) (ms : List Message) (o : Forwarded)
    → middleware true no_auth headers ms ≡ some o
    → IsFaithful ms o
unfolding middleware capture
middleware-IsFaithful headers ms o h =
    go (header_lookup (text "authorization") headers)
      (header_lookup (text "x-hermes-signature") headers)
      (header_lookup (text "x-hermes-timestamp") headers) h
  where
    go : (bearer sig ts : Option Bytes) → capture bearer sig ts ms ≡ some o → IsFaithful ms o
    go (some bearer) sig ts k =
        subst (IsFaithful ms) (some-injective _ o k) (whole (authorization bearer) ms tt)
    go none (some sig) (some ts) k = forward_drained-IsFaithful sig ts ms o k
    go none (some sig) none k = subst (IsFaithful ms) (some-injective _ o k) (whole no_auth ms tt)
    go none none ts k = subst (IsFaithful ms) (some-injective _ o k) (whole no_auth ms tt)

-- Where both kinds of header are there, the bearer header wins, and the body is left in the channel.
pub middleware-bearer :
    (headers : List (Bytes × Bytes)) (ms : List Message) (bearer : Bytes)
    → header_lookup (text "authorization") headers ≡ some bearer
    → middleware true no_auth headers ms
      ≡ some (record { auth = authorization bearer; received = ms })
unfolding middleware capture
middleware-bearer headers ms bearer h = rw h refl
