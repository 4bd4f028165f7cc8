-- ===== src/Swarm/Prompt.antt =====
-- `_format_virtual_prompt` of services/swarm_mcp/worker.py: the text that the receiving agent sees.
-- `coordinator` is the constant COORDINATOR_AGENT, `env` the value of SWARM_RENDER_BODY_LIMIT.
pub mod Body
use public_gbrain_agentos.Base.{
  ℕ, String, Bool, true, false, ◌||◌, Option, none, some, List, [], ◌∷◌, ◌++◌, ◌=ₛ◌, if◌then◌else◌,
}
use public_gbrain_agentos.Base.Text.{Text, text, text_eq, lower, starts_with, concat}
use public_gbrain_agentos.Base.Json.{Json, str, Fields}
use public_gbrain_agentos.Base.Json.Dumps.{dumps_ascii}
use public_gbrain_agentos.Base.Json.Repr.{py_str, truthy, or_else_json}
use public_gbrain_agentos.Swarm.Render.{Unicode, get, render_payload_body}

abbrev reply_route_note : Text
reply_route_note =
    text
      "   Chat replies go only to your own operator's chat (the one they write to you from). The chat_id in this envelope is the swarm owner's: if that is not your operator, your bot cannot reach it (400 chat not found).\n"

-- what the f-strings put in
pub record Letter : Type 0 where
  pub from_agent : String
  pub to_agent : String
  pub task_id : String
  pub title : Text
  pub body : Text
  pub urgency : Text
  pub extra : Text

envelope : Letter → Text → List Text
envelope m kind =
    text "[Inter-agent from "
    ∷ text m.from_agent
    ∷ text " -> "
    ∷ text m.to_agent
    ∷ text "] urgency="
    ∷ m.urgency
    ∷ kind
    ∷ m.title
    ∷ text "\n"
    ∷ []

ack_only_actions : Letter → List Text
ack_only_actions m =
    m.extra
    ∷ text "\n---\n"
    ∷ text "ACTIONS (ack-only fast path, no dual-report):\n"
    ∷ text
        "1. Inspect payload and decide if action is needed. Coordinator targets and smoke pings do not require a full chat report.\n"
    ∷ text
        "2. If meaningful, tell your own operator in 1-3 lines in your own chat. Otherwise skip.\n"
    ∷ reply_route_note
    ∷ text "3. DO NOT swarm.notify back (loop risk). Go straight to swarm.ack.\n"
    ∷ text "4. swarm.ack(task_id=\""
    ∷ text m.task_id
    ∷ text "\")."
    ∷ []

report_actions : Letter → List Text
report_actions m =
    m.extra
    ∷ text "\n---\n"
    ∷ text "ACTIONS (report — nothing to execute):\n"
    ∷ text "1. Read it. No task is attached; do not invent one.\n"
    ∷ text
        "2. If it changes your plans or contradicts what you know, tell your own operator in 1-3 lines in your own chat. Otherwise skip the report.\n"
    ∷ reply_route_note
    ∷ text "3. swarm.ack(task_id=\""
    ∷ text m.task_id
    ∷ text "\")."
    ∷ []

task_actions : Letter → List Text
task_actions m =
    m.extra
    ∷ text "\n---\n"
    ∷ text "ACTIONS:\n"
    ∷ text "1. Execute the task.\n"
    ∷ text "2. Send the result back to the sender, exactly in this shape:\n"
    ∷ text "   swarm.notify(to_agent="
    ∷ dumps_ascii (text m.from_agent)
    ∷ text ", payload={\"_kind\": \"report\", \"title\": \"...\", \"body\": \"...\"})\n"
    ∷ text
        "   Never drop \"_kind\": \"report\": without it your reply arrives as a new task and the sender is told to answer it, so the two of you loop.\n"
    ∷ text "   Body format:\n"
    ∷ text "\n"
    ∷ text "   Task from "
    ∷ text m.from_agent
    ∷ text ": <short name>\n"
    ∷ text "\n"
    ∷ text "   What I did:\n"
    ∷ text "   - concrete step 1 (paths/commands/numbers)\n"
    ∷ text "   - concrete step 2\n"
    ∷ text "   - ...\n"
    ∷ text "\n"
    ∷ text "   Result:\n"
    ∷ text "   - what worked, what failed, gaps found\n"
    ∷ text "   - links to files/commits/PRs if applicable\n"
    ∷ text "\n"
    ∷ text "   Time spent: <minutes or mm:ss>\n"
    ∷ text "\n"
    ∷ text
        "   Avoid one-liner 'done, acked' reports. The sender wants substance, at least 5-10 lines.\n"
    ∷ text "   If your operator should know, also tell them briefly in your own chat.\n"
    ∷ reply_route_note
    ∷ text "3. Call swarm.ack(task_id=\""
    ∷ text m.task_id
    ∷ text "\") at the very end."
    ∷ []

-- the four envelopes
pub data Kind : Type 0 where
  retro_summary coordinator_request smoke_ping report task : Kind

abbrev is_report : (Text → Text) → Fields → Bool
is_report repr_str payload =
    text_eq (lower (py_str repr_str (or_else_json (get "_kind" payload) (str "")))) (text "report")

abbrev has : String → Fields → Bool
has key payload = elim (get key payload) [ none ↦ false | some v ↦ truthy v ]

-- The gates: a letter to the coordinator, a smoke ping, a report, and else a task.
unfoldable pub letter_kind : String → (Text → Text) → String → Text → Fields → Kind
letter_kind coordinator repr_str to_agent title payload =
    if to_agent =ₛ coordinator
    then (if starts_with title (text "Report from")
          || has "_origin_task" payload
          || is_report repr_str payload
        then retro_summary
        else coordinator_request)
    else if has "_smoke" payload
    then smoke_ping
    else if is_report repr_str payload
    then report
    else task

header : Kind → Text
header retro_summary = text " (retro-summary)\nTask: "
header coordinator_request = text " (request to coordinator)\nTask: "
header smoke_ping = text " (smoke ping)\nTask: "
header report = text " (report)\nReport: "
header task = text "\nTask: "

unfoldable pub actions : Kind → Letter → List Text
unfolding ack_only_actions report_actions task_actions
actions report m = report_actions m
actions task m = task_actions m
actions _ m = ack_only_actions m

unfoldable pub prompt_of : Kind → Letter → Text
unfolding envelope header
prompt_of kind m = concat (envelope m (header kind) ++ m.body ∷ actions kind m)

escalation : (Text → Text) → Fields → Text
escalation repr_str payload =
    let reason = or_else_json (get "_escalation_reason" payload) (str "") in
    if truthy reason then text "\nEscalation reason: " ++ py_str repr_str reason else []

unfoldable pub letter : Option Text → Unicode → String → String → String → Fields → Letter
unfolding escalation
letter env u from_agent to_agent task_id payload = record {
  from_agent = from_agent;
  to_agent = to_agent;
  task_id = task_id;
  title =
      py_str u.repr_str
        (or_else_json (get "title" payload) (or_else_json (get "kind" payload) (str "(no title)")));
  body = render_payload_body env u payload;
  urgency = py_str u.repr_str (
      or_else_json (get "urgency" payload) (or_else_json (get "_priority" payload) (str "normal")));
  extra = escalation u.repr_str payload;
}

unfoldable pub format_virtual_prompt :
    Option Text → Unicode → String → String → String → String → Fields → Text
format_virtual_prompt env u coordinator from_agent to_agent task_id payload =
    let m = letter env u from_agent to_agent task_id payload in
    prompt_of (letter_kind coordinator u.repr_str to_agent m.title payload) m
