-- ===== src/Swarm/Tests/Letters.antt =====
-- Letters, requests and answers at concrete inputs.
use public_gbrain_agentos.Base.{
  ℕ, zero, suc, ◌≡◌, ◌≢◌, refl, true, false, ◌⊎◌, inl, none, some, [], ◌∷◌, ◌++◌, arith, All,
  length, leb, ◌=ₛ◌, ok, if◌then◌else◌,
}
use public_gbrain_agentos.Base.Int.{pos}
use public_gbrain_agentos.Base.Text.{Text, text, utf8, strip, strip_left, join, replace}
use public_gbrain_agentos.Base.Json.{str, field, end}
use public_gbrain_agentos.Auth.Signing.{Hexdigest, verify_signature, distance, sign_request}
use public_gbrain_agentos.Auth.Signing.RoundTrip.{
  IsHexdigest, get_header, is_lower_hex, verify-sign,
}
use public_gbrain_agentos.Swarm.Gateway.{hmac, hmac_github, gateway_auth_for}
use public_gbrain_agentos.Base.Audit.{log_audit}
use public_gbrain_agentos.Swarm.Outbox.{enqueue, choose_task_id, fetch_due}
use public_gbrain_agentos.Swarm.Render.{
  measure_payload_body, render_body_limit, sections, lead, get, lead_text, render_section,
  render_payload_body_full,
}
use public_gbrain_agentos.Swarm.Deliver.{
  Config, Request, PostOutcome, response, delivered, retry, gateway_url, gateway_body,
  build_request, deliver_one, no_gateway_prefix, hmac_outbound_enabled, auth_headers, classify,
}
use public_gbrain_agentos.Swarm.Deliver.Signed.{auth_of, posted-verifies}
use public_gbrain_agentos.Swarm.Worker.Attempts.{IsCounted, poll_attempts}
use public_gbrain_agentos.Swarm.Worker.{poll, batch_size}
use public_gbrain_agentos.Base.Table.{select, sort_by, insert_by}
use public_gbrain_agentos.Swarm.Server.{Swarm, Notified, notify, set_key}
use public_gbrain_agentos.Swarm.Server.Answers.{message_shadowed}
use public_gbrain_agentos.Swarm.Tests.{
  outbox, outbox-IsWellFormed, free, service, setting, unicode, pending_row, other_row, greeting,
}

-- a digest of the right form; any function with this form will do
abbrev zeros : ℕ → Text
zeros zero = []
zeros (suc n) = b'0' ∷ zeros n

zeros_form : (n : ℕ) → (length (zeros n) ≡ n) × All (λ c. is_lower_hex c ≡ true) (zeros n)
zeros_form zero = (refl, tt)
zeros_form (suc n) = (omega (arith, (zeros_form n).0), (refl, (zeros_form n).1))

abbrev digest : Hexdigest
digest secret message = zeros 64

digest_form : IsHexdigest digest
digest_form secret message = zeros_form 64

verify-sign_example :
    verify_signature digest
      (text "key")
      (text "body")
      (get_header
        (text "X-Hermes-Signature")
        (sign_request digest (text "key") (text "body") (pos 1000)))
      (get_header
        (text "X-Hermes-Timestamp")
        (sign_request digest (text "key") (text "body") (pos 1000)))
      (pos 300)
      (pos 1100)
    ≡ leb (distance (pos 1100) (pos 1000)) 300
verify-sign_example =
    verify-sign digest digest_form (text "key") (text "body") (pos 1000) (pos 1100) 300

-- "bob" has a gateway that wants HMAC, and no other agent has one
abbrev config : Config
config = record {
  gateways = λ agent. if agent =ₛ "bob" then some "http://bob" else none;
  auth_map =
      λ agent. if agent =ₛ "bob" then some (record { mode = hmac; value = text "key" }) else none;
  gateway_token = [];
  owner_chat_id = pos 7;
  coordinator = "boss";
  body_limit = none;
  hmac_outbound = none;
  unicode = unicode;
  hexdigest = digest;
  clock = pos 1000;
}

abbrev accept : Request → PostOutcome
accept request = response 204 []

abbrev refuse : Request → PostOutcome
refuse request = response 404 []

abbrev request : Request
request = record {
  url = "http://bob";
  content = gateway_body config pending_row;
  headers =
      (text "Content-Type", text "application/json")
      ∷ sign_request digest (utf8 (text "key")) (gateway_body config pending_row) (pos 1000);
}

built : build_request config pending_row "http://bob" ≡ some request
unfolding build_request auth_headers hmac_outbound_enabled gateway_auth_for
built = refl

wants_hmac : (auth_of config pending_row).mode ≡ hmac
unfolding gateway_auth_for
wants_hmac = refl

posted-verifies_example :
    verify_signature digest
      (utf8 (auth_of config pending_row).value)
      request.content
      (get_header (text "X-Hermes-Signature") request.headers)
      (get_header (text "X-Hermes-Timestamp") request.headers)
      (pos 300)
      (pos 1100)
    ≡ leb (distance (pos 1100) (pos 1000)) 300
posted-verifies_example =
    posted-verifies config digest_form pending_row "http://bob" request wants_hmac built 300
      (pos 1100)

abbrev switched_off : Config
switched_off = record config { hmac_outbound = some (text "0") }

is_off : hmac_outbound_enabled switched_off.hmac_outbound ≡ false
unfolding hmac_outbound_enabled
is_off = refl

off_wants_hmac :
    ((auth_of switched_off pending_row).mode ≡ hmac)
    ⊎ ((auth_of switched_off pending_row).mode ≡ hmac_github)
unfolding gateway_auth_for
off_wants_hmac = inl refl

accepted : deliver_one config accept pending_row ≡ some (delivered, [])
unfolding deliver_one build_request auth_headers hmac_outbound_enabled gateway_auth_for gateway_url
    classify
accepted = refl

abbrev nowhere : Text
nowhere = no_gateway_prefix ++ (text " for agent=" ++ text "eve")

no_gateway : deliver_one config accept other_row ≡ some (retry, nowhere)
unfolding deliver_one gateway_url
no_gateway = refl

fetched : fetch_due 95 free batch_size outbox ≡ other_row ∷ pending_row ∷ []
unfolding fetch_due select sort_by insert_by
fetched = refl

all_answered : All (λ b. deliver_one config accept b ≢ none) (fetch_due 95 free batch_size outbox)
all_answered =
    rw fetched ((λ e. ground (arith, no_gateway, e)), ((λ e. ground (arith, accepted, e)), tt))

poll_attempts_example :
    All
      (IsCounted config accept (poll (deliver_one config accept) 95 free outbox).rows)
      (fetch_due 95 free batch_size outbox)
poll_attempts_example = poll_attempts config accept 95 free outbox outbox-IsWellFormed all_answered

abbrev notified_answer : Notified
notified_answer = record {
  task_id = "d";
  status = "pending";
  body_chars = length (render_payload_body_full unicode greeting);
  body_limit = 4000;
  truncated = false;
}

abbrev after_notify : Swarm
after_notify = record {
  outbox = (enqueue 100 "0" "ann" "bob" greeting (some "d") 5 outbox).1;
  audit =
      record {
        agent = "ann";
        tool = "notify";
        args_summary = field "to" (str "bob") (field "task_id" (str "d") end);
        result_status = "ok";
        latency_ms = 0;
        error = none;
      }
      ∷ [];
}

notified_ok :
    notify setting (ok "ann") "0" "bob" greeting (some "d") 5 service
    ≡ ok (notified_answer, after_notify)
unfolding notify enqueue choose_task_id measure_payload_body render_payload_body_full
    render_body_limit sections lead lead_text get render_section join strip strip_left replace
    log_audit
notified_ok = refl

shadowed : lead_text (get "body" greeting) ≡ some (text "the body")
unfolding get lead_text strip strip_left
shadowed = refl

message_shadowed_example :
    render_payload_body_full unicode (set_key "message" (str "lost") greeting)
    ≡ render_payload_body_full unicode greeting
message_shadowed_example = message_shadowed unicode greeting (text "the body") (str "lost") shadowed

deadline : get "deadline" greeting ≡ some (str "today")
unfolding get
deadline = refl
