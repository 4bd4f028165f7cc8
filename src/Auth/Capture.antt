-- ===== src/Auth/Capture.antt =====
-- services/shared/asgi_auth.py: what the middleware captures of a request, and what the application
-- behind it receives. The channel is the list of messages that it will deliver.
pub mod Replay
use public_gbrain_agentos.Base.{
  Bool, true, false, not, Option, none, some, List, [], ◌∷◌, ◌++◌, if◌then◌else◌,
}
use public_gbrain_agentos.Base.Text.{Text, Bytes, text, text_eq, lower}
use public_gbrain_agentos.Auth.Identity.{AuthValue, authorization, hmac_auth, no_auth}

pub data Message : Type 0 where
  http_request : Bytes → Bool → Message
  http_disconnect : Message
  other : Message

-- `_header_lookup(headers).get(name)`: names are lowered, and the last one wins
unfoldable pub header_lookup : Text → List (Bytes × Bytes) → Option Bytes
header_lookup name [] = none
header_lookup name ((k, v) ∷ headers) = elim (header_lookup name headers) [
  | some u ↦ some u
  | none ↦ if text_eq (lower k) name then some v else none
]

-- a message in front of what the rest of the drain gives
abbrev captured_with :
    Message
    → Bytes
    → Option (Bytes × List Message × List Message)
    → Option (Bytes × List Message × List Message)
captured_with m chunk none = none
captured_with m chunk (some (body, captured, rest)) = some (chunk ++ body, m ∷ captured, rest)

-- The body, the captured messages, and what is left in the channel; `none` where the client never
-- ends the body and the drain goes on waiting.
unfoldable pub drain_body : List Message → Option (Bytes × List Message × List Message)
drain_body [] = none
drain_body (http_request body more ∷ ms) =
    let rest = drain_body ms in
    if more
    then captured_with (http_request body more) body rest
    else some (body, http_request body more ∷ [], ms)
drain_body (http_disconnect ∷ ms) = some ([], http_disconnect ∷ [], ms)
drain_body (other ∷ ms) = captured_with other [] (drain_body ms)

-- What tools find in the ContextVar, and the messages that the application can receive before
-- "http.disconnect"; a replayed channel ends with the captured messages.
pub record Forwarded : Type 0 where
  pub auth : AuthValue
  pub received : List Message

abbrev forward : AuthValue → List Message → Option Forwarded
forward auth ms = some (record { auth = auth; received = ms })

forward_drained : Bytes → Bytes → Option (Bytes × List Message × List Message) → Option Forwarded
forward_drained sig ts none = none
forward_drained sig ts (some (body, captured, rest)) = forward (hmac_auth sig ts body) captured

capture : Option Bytes → Option Bytes → Option Bytes → List Message → Option Forwarded
unfolding forward_drained
capture (some bearer) sig ts ms = forward (authorization bearer) ms
capture none (some sig) (some ts) ms = forward_drained sig ts (drain_body ms)
capture none (some sig) none ms = forward no_auth ms
capture none none ts ms = forward no_auth ms

-- `is_http` is `scope["type"] == "http"`, `current` the value of the ContextVar before. Header
-- bytes are decoded as Latin-1, each byte to its code point.
unfoldable pub middleware :
    Bool → AuthValue → List (Bytes × Bytes) → List Message → Option Forwarded
unfolding capture
middleware false current headers ms = forward current ms
middleware true no_auth headers ms =
    capture (header_lookup (text "authorization") headers)
      (header_lookup (text "x-hermes-signature") headers)
      (header_lookup (text "x-hermes-timestamp") headers) ms
middleware true current headers ms = forward current ms
