-- ===== src/Swarm/Gateway.antt =====
-- Outbound authentication of services/swarm_mcp/worker.py: `_resolve_auth_spec` and
-- `_gateway_auth_for`. `environ` is `os.environ.get(name, "")`.
use public_gbrain_agentos.Base.{ℕ, String, Option, none, some, [], ◌∷◌, ◌==◌, if◌then◌else◌}
use public_gbrain_agentos.Base.Text.{Text, text, text_eq, strip, lower, is_empty}

pub data AuthMode : Type 0 where
  bearer hmac hmac_github no_auth : AuthMode

pub record GatewayAuth : Type 0 where
  pub mode : AuthMode
  pub value : Text

abbrev pub unauthenticated : GatewayAuth
unauthenticated = record { mode = no_auth; value = [] }

-- what stands before the first `c`, and what stands after it if there is one
split_once : ℕ → Text → Text × Option Text
split_once c [] = ([], none)
split_once c (d ∷ s) =
    let (before, after) = split_once c s in if d == c then ([], some s) else (d ∷ before, after)

-- `spec.split(":", 2)` where it has three parts
split3 : Text → Option (Text × Text × Text)
unfolding split_once
split3 spec = elim (split_once b':' spec).1 [
  | none ↦ none
  | some rest ↦ elim (split_once b':' rest).1 [
    | none ↦ none
    | some name ↦ some ((split_once b':' spec).0, (split_once b':' rest).0, name)
  ]
]

mode_of : Text → Option AuthMode
mode_of mode =
    if text_eq mode (text "bearer")
    then some bearer
    else if text_eq mode (text "hmac")
    then some hmac
    else if text_eq mode (text "hmac_github")
    then some hmac_github
    else none

resolve_parts : (Text → Text) → Option (Text × Text × Text) → GatewayAuth
unfolding mode_of
resolve_parts environ none = unauthenticated
resolve_parts environ (some (mode, source, name)) = elim (mode_of (lower mode)) [
  | none ↦ unauthenticated
  | some m ↦
      if text_eq (lower source) (text "env")
      then (if is_empty (environ name)
          then unauthenticated
          else record { mode = m; value = environ name })
      else unauthenticated
]

unfoldable pub resolve_auth_spec : (Text → Text) → Text → GatewayAuth
unfolding split3 resolve_parts
resolve_auth_spec environ spec =
    if is_empty spec
    then unauthenticated
    else let s = strip spec in
      if text_eq s (text "none") then unauthenticated else resolve_parts environ (split3 s)

-- The explicit entry, then GATEWAY_WEBHOOK_TOKEN as a Bearer token, then nothing.
unfoldable pub gateway_auth_for : Text → (String → Option GatewayAuth) → String → GatewayAuth
gateway_auth_for gateway_token auth_map agent = elim (auth_map agent) [
  | some auth ↦ auth
  | none ↦
      if is_empty gateway_token
      then unauthenticated
      else record { mode = bearer; value = gateway_token }
]
