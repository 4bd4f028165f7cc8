-- ===== src/Swarm/Deliver.antt =====
-- `_deliver_one` of services/swarm_mcp/worker.py. The HTTP client is a parameter, `post`.
pub mod Signed
pub mod Outcomes
use public_gbrain_agentos.Base.{
  ℕ, String, Bool, true, not, ◌&&◌, Option, none, some, List, [], ◌∷◌, ◌++◌, ltb, leb, ◌==◌, take,
  ◌=ₛ◌, if◌then◌else◌,
}
use public_gbrain_agentos.Base.Int.{ℤ}
use public_gbrain_agentos.Base.Text.{Text, Bytes, text, utf8, decimal, decimal_ℤ}
use public_gbrain_agentos.Base.Json.Dumps.{dumps_text}
use public_gbrain_agentos.Auth.Signing.{Hexdigest, Headers, sign_request, sign_request_github}
use public_gbrain_agentos.Swarm.Outbox.Rows.{Row}
use public_gbrain_agentos.Swarm.Render.{Unicode}
use public_gbrain_agentos.Swarm.Prompt.{format_virtual_prompt}
use public_gbrain_agentos.Swarm.Gateway.{
  AuthMode, GatewayAuth, bearer, hmac, hmac_github, no_auth, gateway_auth_for,
}

pub record Request : Type 0 where
  pub url : String
  pub content : Bytes
  pub headers : Headers

-- How `await client.post(…)` ends. An exception that is no `httpx.HTTPError`, such as
-- `httpx.InvalidURL`, is not caught here.
pub data PostOutcome : Type 0 where
  response : ℕ → Text → PostOutcome
  timeout_exception : Text → PostOutcome
  http_error : Text → Text → PostOutcome
  uncaught : PostOutcome

-- the transport's verdict on a letter
pub data Verdict : Type 0 where
  delivered retry failed : Verdict

-- The settings and the surroundings of the worker's process: `clock` is `int(time.time())`.
pub record Config : Type 0 where
  pub gateways : String → Option String
  pub auth_map : String → Option GatewayAuth
  pub gateway_token : Text
  pub owner_chat_id : ℤ
  pub coordinator : String
  pub body_limit : Option Text
  pub hmac_outbound : Option Text
  pub unicode : Unicode
  pub hexdigest : Hexdigest
  pub clock : ℤ

abbrev pub no_gateway_prefix : Text
no_gateway_prefix = text "no gateway URL"

-- GBRAIN_HMAC_OUTBOUND_ENABLED is not "0"; unset is enabled
unfoldable pub hmac_outbound_enabled : Option Text → Bool
hmac_outbound_enabled none = true
hmac_outbound_enabled (some (c ∷ [])) = not (c == b'0')
hmac_outbound_enabled (some s) = true

-- `json.dumps(body, ensure_ascii=False, separators=(",", ":"))` of the dict with these three keys,
-- encoded once: the bytes are signed and sent.
unfoldable pub serialize_gateway_body : String → Text → ℤ → Bytes
serialize_gateway_body agent_id message chat_id = utf8 (
    text "{\"agentId\":"
    ++ (dumps_text (text agent_id)
        ++ (text ",\"message\":"
            ++ (dumps_text message ++ (text ",\"chatId\":" ++ (decimal_ℤ chat_id ++ text "}"))))))

-- The headers beside the content type; none where the target wants HMAC and it is switched off.
unfoldable pub auth_headers : Config → AuthMode → Text → Bytes → Option Headers
auth_headers c hmac value body =
    if hmac_outbound_enabled c.hmac_outbound
    then some (sign_request c.hexdigest (utf8 value) body c.clock)
    else none
auth_headers c hmac_github value body =
    if hmac_outbound_enabled c.hmac_outbound
    then some (sign_request_github c.hexdigest (utf8 value) body)
    else none
auth_headers c bearer value body = some ((text "Authorization", text "Bearer " ++ value) ∷ [])
auth_headers c no_auth value body = some []

pub gateway_body : Config → Row → Bytes
unfolding serialize_gateway_body
gateway_body c row =
    serialize_gateway_body row.to_agent
      (format_virtual_prompt c.body_limit c.unicode c.coordinator row.from_agent row.to_agent
        row.task_id row.payload)
      c.owner_chat_id

-- What is posted for a letter to an agent with a gateway.
unfoldable pub build_request : Config → Row → String → Option Request
unfolding auth_headers gateway_body
build_request c row url =
    let body = gateway_body c row in
    let auth = gateway_auth_for c.gateway_token c.auth_map row.to_agent in
    elim (auth_headers c auth.mode auth.value body) [
      | none ↦ none
      | some headers ↦ some (record {
        url = url;
        content = body;
        headers = (text "Content-Type", text "application/json") ∷ headers;
      })
    ]

unfoldable pub http_status : ℕ → Text → Text
http_status code body = text "http_" ++ (decimal code ++ (text ": " ++ take 200 body))

-- `none` is an exception that leaves `_deliver_one`.
unfoldable pub classify : PostOutcome → Option (Verdict × Text)
unfolding http_status
classify (response code body) = some (
    if leb 200 code && ltb code 300
    then (delivered, [])
    else if code == 429
    then (retry, text "http_429")
    else if leb 400 code && ltb code 500
    then (failed, http_status code body)
    else (retry, http_status code body))
classify (timeout_exception e) = some (retry, text "timeout: " ++ e)
classify (http_error name e) = some (retry, text "http_error: " ++ (name ++ (text ": " ++ e)))
classify uncaught = none

-- `gateways.get(to_agent)`, where an empty URL counts as none
unfoldable pub gateway_url : Config → String → Option String
gateway_url c to_agent = elim (c.gateways to_agent) [
  | none ↦ none
  | some url ↦ if url =ₛ "" then none else some url
]

unfoldable pub deliver_one : Config → (Request → PostOutcome) → Row → Option (Verdict × Text)
deliver_one c post row = elim (gateway_url c row.to_agent) [
  | none ↦ some (retry, no_gateway_prefix ++ (text " for agent=" ++ text row.to_agent))
  | some url ↦ elim (build_request c row url) [
    | none ↦ some (retry, text "hmac_outbound_disabled for agent=" ++ text row.to_agent)
    | some request ↦ classify (post request)
  ]
]
