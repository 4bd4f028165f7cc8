-- ===== src/Memory/Slots/Tools/Returns.antt =====
-- When a slot tool that writes returns.
use public_gbrain_agentos.Base.{
  is_ok, ℕ, ◌≤◌, ◌≡◌, refl, String, true, none, some, List, arith, length, ok,
}
use public_gbrain_agentos.Base.Text.{Text, strip, utf8}
use public_gbrain_agentos.Base.Table.Keys.{lookup, All-lookup}
use public_gbrain_agentos.Auth.Scopes.{AgentContext, check_write_scope}
use public_gbrain_agentos.Memory.Service.{Service, Slot, Setting, by_owner, logged, and_then}
use public_gbrain_agentos.Memory.Slots.{
  is_label, validate_slot_label, validate_slot_limits, assert_slot_size, slots_scope,
  require_slots_write, accepted, or_blank,
}
use public_gbrain_agentos.Memory.Slots.Tools.{
  writer, slot_create, slot_append, slot_replace, slot_delete, append_row, replace_row, delete_row,
  create_sized, insert_slot, appended_to,
}
use public_gbrain_agentos.Memory.Slots.Tools.Change.{IsFit, valid_limits}
use public_gbrain_agentos.Memory.Slots.Tools.Rows.{IsSound}
use public_gbrain_agentos.Memory.Slots.Tools.Calls.{
  Call, list, fetch, create, append, replace, delete, call, target,
}

-- what a call that writes needs of the table: room for the content, and the slot there or not
abbrev pub HasRoom : String → Call → List Slot → Type 0
HasRoom agent (create label content size_limit hard_cap pinned) rows =
    (limits : ℕ × ℕ) × (validate_slot_limits size_limit hard_cap ≡ ok limits)
    × (length (utf8 (or_blank content)) ≤ limits.0)
    × (lookup by_owner (agent, strip label) rows ≡ none)
HasRoom agent (append label added) rows =
    (row : Slot) × (lookup by_owner (agent, strip label) rows ≡ some row)
    × (length (utf8 (appended_to row.content (or_blank added))) ≤ row.size_limit)
HasRoom agent (replace label content) rows =
    (row : Slot) × (lookup by_owner (agent, strip label) rows ≡ some row)
    × (length (utf8 (or_blank content)) ≤ row.size_limit)
HasRoom agent (delete label) rows =
    (row : Slot) × (lookup by_owner (agent, strip label) rows ≡ some row)
HasRoom agent _ rows = ⊥

sized_ok :
    (content : Text) (size_limit hard_cap : ℕ)
    → size_limit ≤ hard_cap
    → length (utf8 content) ≤ size_limit
    → assert_slot_size content size_limit hard_cap ≡ ok tt
unfolding assert_slot_size
sized_ok content size_limit hard_cap h fits = ground arith

capped_at :
    (k : String × Text) (rows : List Slot) (row : Slot)
    → IsSound rows
    → lookup by_owner k rows ≡ some row
    → row.size_limit ≤ row.hard_cap
capped_at k rows row sound found = (All-lookup by_owner IsFit k rows row sound.1 found).capped

-- A caller with the write scope "slots" is not refused without a reason: on a table that meets its
-- constraints, a creation under a well-formed label that the agent has not used, with valid limits
-- and a content within size_limit, returns; so do an append and a replacement whose resulting
-- content is within the size_limit of the slot, and a deletion of a slot that is there.
pub call_returns :
    (s : Setting) (agent_ctx : AgentContext) (c : Call) (w : Service)
    → IsSound w.slots
    → check_write_scope agent_ctx slots_scope ≡ true
    → is_label (target c) ≡ true
    → HasRoom agent_ctx.agent c w.slots
    → is_ok (call s (ok agent_ctx) c w).0 ≡ true
unfolding call slot_create slot_append slot_replace slot_delete writer require_slots_write
    validate_slot_label append_row replace_row delete_row create_sized insert_slot accepted logged
    and_then
call_returns s agent_ctx (list include_content limit offset) w sound granted valid room =
    elim room [ ]
call_returns s agent_ctx (fetch label) w sound granted valid room = elim room [ ]
call_returns s agent_ctx (create label content size_limit hard_cap pinned) w sound granted valid
      ((low, high), limits, fits, new) =
    let bounds = valid_limits size_limit hard_cap low high limits in
    rw
      (
        granted,
        valid,
        limits,
        create_sized,
        sized_ok (or_blank content) low high bounds.1 fits,
        insert_slot,
        new,
      )
      refl
call_returns s agent_ctx (append label added) w sound granted valid (row, found, fits) =
    let key : String × Text = (agent_ctx.agent, strip label) in
    rw
      (
        granted,
        valid,
        append_row,
        found,
        sized_ok (appended_to row.content (or_blank added)) row.size_limit row.hard_cap
            (capped_at key w.slots row sound found) fits,
      )
      refl
call_returns s agent_ctx (replace label content) w sound granted valid (row, found, fits) =
    let key : String × Text = (agent_ctx.agent, strip label) in
    rw
      (
        granted,
        valid,
        replace_row,
        found,
        sized_ok (or_blank content) row.size_limit row.hard_cap
            (capped_at key w.slots row sound found) fits,
      )
      refl
call_returns s agent_ctx (delete label) w sound granted valid (row, found) =
    rw (granted, valid, delete_row, found) refl
