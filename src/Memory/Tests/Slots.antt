-- ===== src/Memory/Tests/Slots.antt =====
-- The slot tools at concrete inputs.
use public_gbrain_agentos.Base.{
  is_ok, ◌≡◌, refl, true, none, some, List, [], ◌∷◌, arith, Result, ok, err,
}
use public_gbrain_agentos.Base.Int.{pos}
use public_gbrain_agentos.Base.Text.{text, utf8, strip, decimal}
use public_gbrain_agentos.Base.Table.Keys.{lookup}
use public_gbrain_agentos.Auth.Errors.{AuthError, malformed_header}
use public_gbrain_agentos.Auth.Scopes.{AgentContext, check_write_scope}
use public_gbrain_agentos.Memory.Service.{Service, Slot, Setting, by_owner, and_then}
use public_gbrain_agentos.Memory.Slots.{
  above_size_limit, is_label, validate_slot_label, slot_warning, assert_slot_size,
  require_slots_write,
}
use public_gbrain_agentos.Memory.Slots.Tools.{slot_append, appended_to}
use public_gbrain_agentos.Memory.Slots.Tools.Change.{IsFit}
use public_gbrain_agentos.Memory.Slots.Tools.Rows.{IsSound}
use public_gbrain_agentos.Memory.Slots.Tools.Calls.{Call, create, append, replace, delete, call}
use public_gbrain_agentos.Memory.Slots.Tools.Laws.{
  Refines, call-Refines, run, slots-IsSound, run_private,
}
use public_gbrain_agentos.Memory.Slots.Tools.Returns.{call_returns}
use public_gbrain_agentos.Memory.Tests.Setting.{setting, ann, bob}

abbrev plan : Slot
plan = record {
  id = 1;
  label = text "plan";
  content = text "ship";
  size_limit = 10;
  hard_cap = 20;
  pinned = true;
  agent = "ann";
  created_at = 5;
  updated_at = 5;
}

abbrev service : Service
service = record {
  slots = plan ∷ [];
  next_slot = 2;
  documents = [];
  next_document = 1;
  jobs = [];
  vault = [];
  audit = [];
}

plan-IsFit : IsFit plan
unfolding is_label utf8
plan-IsFit = record {
  labelled = refl;
  positive = omega arith;
  capped = omega arith;
  bounded = omega arith;
  sized = omega arith;
}

service-IsSound : IsSound service.slots
unfolding lookup
service-IsSound = ((refl, tt), (plan-IsFit, tt))

abbrev note : Call
note = append (text " plan ") (some (text "it"))

appended : appended_to (text "ship") (text "it") ≡ text "ship\nit"
unfolding appended_to
appended = refl

warned : slot_warning 8 10 ≡ some (text "slot is at 8/10 bytes (>= 80% of size_limit)")
unfolding slot_warning decimal
warned = refl

below_warning : slot_warning 7 10 ≡ none
unfolding slot_warning
below_warning = refl

too_large :
    (call setting (ok ann) (append (text "plan") (some (text "everything"))) service).0
    ≡ err (above_size_limit 15 10)
unfolding call and_then slot_append require_slots_write check_write_scope validate_slot_label
    is_label strip lookup appended_to assert_slot_size utf8
too_large = refl

call-Refines_example : Refines "ann" note service.slots (call setting (ok ann) note service)
call-Refines_example = call-Refines setting ann note service

abbrev calls : List (Setting × Result AuthError AgentContext × Call)
calls =
    (setting, ok bob, replace (text "plan") (some (text "mine")))
    ∷ (setting, err malformed_header, delete (text "plan"))
    ∷ (setting, ok bob, create (text "plan") none (pos 5) (pos 5) true)
    ∷ []

slots-IsSound_example : IsSound (run calls service).slots
slots-IsSound_example = slots-IsSound calls service service-IsSound

run_private_example :
    lookup by_owner ("ann", text "plan") (run calls service).slots
    ≡ lookup by_owner ("ann", text "plan") service.slots
run_private_example = run_private "ann" (text "plan") calls service (refl, (tt, (refl, tt)))

call_returns_example : is_ok (call setting (ok ann) note service).0 ≡ true
unfolding check_write_scope is_label strip lookup appended_to utf8
call_returns_example =
    call_returns setting ann note service service-IsSound refl refl (plan, refl, omega arith)
