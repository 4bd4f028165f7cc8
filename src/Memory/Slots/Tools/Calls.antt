-- ===== src/Memory/Slots/Tools/Calls.antt =====
-- Calls of the slot tools by the agents, one after another, and what they do to each slot.
use public_gbrain_agentos.Base.{
  is_ok, ◌≡◌, refl, String, Bool, true, Option, some, List, [], inl, inr, Bool-cases, Result, ok,
  err, Result-cases,
}
use public_gbrain_agentos.Base.Int.{ℤ}
use public_gbrain_agentos.Base.Text.{Text, strip}
use public_gbrain_agentos.Auth.Errors.{AuthError}
use public_gbrain_agentos.Auth.Scopes.{AgentContext, check_write_scope}
use public_gbrain_agentos.Memory.Service.{
  Service, Slot, Setting, Tool, lift, logged, and_then, ◌>>=◌,
}
use public_gbrain_agentos.Memory.Slots.{
  SlotError, is_label, validate_slot_label, validate_slot_limits, slots_scope, require_slots_write,
  or_blank, SlotPayload,
}
use public_gbrain_agentos.Memory.Slots.Tools.{
  writer, append_row, replace_row, delete_row, create_sized, slot_create, slot_append, slot_replace,
  slot_delete, slot_get, slot_list, check_page,
}
use public_gbrain_agentos.Memory.Slots.Tools.Change.{
  Change, refused, kept, creating, appending, replacing, deleting, append-Change, replace-Change,
  delete-Change, create-Change,
}

-- a call of one of the slot tools
pub data Call : Type 0 where
  list : Bool → ℤ → ℤ → Call
  fetch : Text → Call
  create : Text → Option Text → ℤ → ℤ → Bool → Call
  append : Text → Option Text → Call
  replace : Text → Option Text → Call
  delete : Text → Call

-- the answer is forgotten
abbrev done : {A : Type 0} → Result SlotError A × Service → Result SlotError Unit × Service
done (ok a, w) = (ok tt, w)
done (err e, w) = (err e, w)

unfoldable pub call : Setting → Result AuthError AgentContext → Call → Tool SlotError Unit
call s caller (list include_content limit offset) w =
    done (slot_list s caller include_content limit offset w)
call s caller (fetch label) w = done (slot_get s caller label w)
call s caller (create label content size_limit hard_cap pinned) w =
    done (slot_create s caller label content size_limit hard_cap pinned w)
call s caller (append label added) w = done (slot_append s caller label added w)
call s caller (replace label content) w = done (slot_replace s caller label content w)
call s caller (delete label) w = done (slot_delete s caller label w)

-- The specification: a call names at most one slot of the caller, and what it makes of the content
-- there; `none` where it must be refused.
abbrev pub target : Call → Text
target (list include_content limit offset) = []
target (fetch label) = []
target (create label content size_limit hard_cap pinned) = strip label
target (append label added) = strip label
target (replace label content) = strip label
target (delete label) = strip label

abbrev pub new_content : Call → Option Text → Option (Option Text)
new_content (list include_content limit offset) old = some old
new_content (fetch label) old = some old
new_content (create label content size_limit hard_cap pinned) old = creating (or_blank content) old
new_content (append label added) old = appending (or_blank added) old
new_content (replace label content) old = replacing (or_blank content) old
new_content (delete label) old = deleting old

abbrev Step : (String × Text) → Call → List Slot → Result SlotError Unit × Service → Type 0
Step k c rows (r, after) = Change k (new_content c) rows (is_ok r) after.slots

-- a tool that writes is refused, or runs for the caller under a valid label
writer-Change :
    {A : Type 0} (agent_ctx : AgentContext) (label : Text) (c : Call) (w : Service)
    (operation : String → Text → Tool SlotError A)
    → (is_label (strip label) ≡ true
        → Step
            (agent_ctx.agent, strip label)
            c
            w.slots
            (done (operation agent_ctx.agent (strip label) w)))
    → Step (agent_ctx.agent, strip label) c w.slots (done (writer (ok agent_ctx) label operation w))
unfolding writer require_slots_write validate_slot_label and_then
writer-Change agent_ctx label c w operation step =
    elim (Bool-cases (check_write_scope agent_ctx slots_scope)) [
      | inr lacking ↦ rw lacking refused
      | inl granted ↦ elim (Bool-cases (is_label (strip label))) [
        | inr wrong ↦ rw (granted, wrong) refused
        | inl valid ↦ rw (granted, valid) (step valid)
      ]
    ]

done-Change :
    {A : Type 0} (k : String × Text) (c : Call) (rows : List Slot)
    (p : Result SlotError A × Service)
    → Change k (new_content c) rows (is_ok p.0) p.1.slots
    → Step k c rows (done p)
done-Change k c rows (ok a, after) h = h
done-Change k c rows (err e, after) h = h

list-Change :
    (s : Setting) (agent_ctx : AgentContext) (include_content : Bool) (limit offset : ℤ)
    (w : Service)
    → let r = slot_list s (ok agent_ctx) include_content limit offset w in
      Change (agent_ctx.agent, []) (λ old. some old) w.slots (is_ok r.0) r.1.slots
unfolding slot_list logged and_then
list-Change s agent_ctx include_content limit offset w =
    elim (Result-cases (check_page limit offset)) [
      | inl (e, bad) ↦ rw bad refused
      | inr (u, fine) ↦ rw fine (kept refl)
    ]

fetch-Change :
    (s : Setting) (agent_ctx : AgentContext) (label : Text) (w : Service)
    → let r = slot_get s (ok agent_ctx) label w in
      Change (agent_ctx.agent, []) (λ old. some old) w.slots (is_ok r.0) r.1.slots
unfolding slot_get logged and_then
fetch-Change s agent_ctx label w = elim (Result-cases (validate_slot_label label)) [
  | inl (e, bad) ↦ rw bad refused
  | inr (normalized, fine) ↦ rw fine (kept refl)
]

create_limited :
    (s : Setting) (agent : String) (label : Text) (body : Text) (size_limit hard_cap : ℤ)
    (pinned : Bool) (w : Service)
    → is_label label ≡ true
    → let r =
        (lift (validate_slot_limits size_limit hard_cap) >>= λ limits.
        create_sized s agent label body limits pinned)
          w in
      Change (agent, label) (creating body) w.slots (is_ok r.0) r.1.slots
unfolding and_then
create_limited s agent label body size_limit hard_cap pinned w valid =
    elim (Result-cases (validate_slot_limits size_limit hard_cap)) [
      | inl (e, bad) ↦ rw bad refused
      | inr (limits, fine) ↦
          rw fine (create-Change s agent label w body size_limit hard_cap pinned limits valid fine)
    ]

-- What a call does to the table, whatever it answers.
pub call-Change :
    (s : Setting) (agent_ctx : AgentContext) (c : Call) (w : Service)
    → Step (agent_ctx.agent, target c) c w.slots (call s (ok agent_ctx) c w)
unfolding call slot_create slot_append slot_replace slot_delete
call-Change s agent_ctx (list include_content limit offset) w =
    done-Change (agent_ctx.agent, []) (list include_content limit offset) w.slots
      (slot_list s (ok agent_ctx) include_content limit offset w)
      (list-Change s agent_ctx include_content limit offset w)
call-Change s agent_ctx (fetch label) w =
    done-Change (agent_ctx.agent, []) (fetch label) w.slots (slot_get s (ok agent_ctx) label w)
      (fetch-Change s agent_ctx label w)
call-Change s agent_ctx (create label content size_limit hard_cap pinned) w =
    let c = create label content size_limit hard_cap pinned in
    let operation : String → Text → Tool SlotError SlotPayload = λ agent normalized.
      lift (validate_slot_limits size_limit hard_cap) >>= λ limits.
      create_sized s agent normalized (or_blank content) limits pinned in
    writer-Change agent_ctx label c w operation λ valid.
      done-Change (agent_ctx.agent, strip label) c w.slots
        (operation agent_ctx.agent (strip label) w)
        (create_limited s agent_ctx.agent (strip label) (or_blank content) size_limit hard_cap
          pinned w valid)
call-Change s agent_ctx (append label added) w =
    writer-Change agent_ctx label (append label added) w
      (λ agent normalized. append_row s agent normalized (or_blank added))
      λ valid.
        done-Change (agent_ctx.agent, strip label) (append label added) w.slots
          (append_row s agent_ctx.agent (strip label) (or_blank added) w)
          (append-Change s agent_ctx.agent (strip label) w (or_blank added))
call-Change s agent_ctx (replace label content) w =
    writer-Change agent_ctx label (replace label content) w
      (λ agent normalized. replace_row s agent normalized (or_blank content))
      λ valid.
        done-Change (agent_ctx.agent, strip label) (replace label content) w.slots
          (replace_row s agent_ctx.agent (strip label) (or_blank content) w)
          (replace-Change s agent_ctx.agent (strip label) w (or_blank content))
call-Change s agent_ctx (delete label) w =
    writer-Change agent_ctx label (delete label) w
      (λ agent normalized. delete_row s agent normalized)
      λ valid.
        done-Change (agent_ctx.agent, strip label) (delete label) w.slots
          (delete_row s agent_ctx.agent (strip label) w)
          (delete-Change s agent_ctx.agent (strip label) w)
