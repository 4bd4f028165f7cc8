-- ===== src/Memory/Slots/Tools.antt =====
-- The slot tools of services/memory_mcp/tools.py.
pub mod Change
pub mod Rows
pub mod Calls
pub mod Laws
pub mod Returns
use mathlib.Core.Option
use public_gbrain_agentos.Base.{
  ℕ, zero, suc, ◌+◌, ◌*◌, ◌/◌, String, Bool, true, false, not, ◌&&◌, ◌||◌, Option, none, some, List,
  [], ◌∷◌, ◌++◌, map, keep, take, drop, length, ltb, leb, ◌==◌, ◌=ₛ◌, Result, ok, err,
  if◌then◌else◌,
}
use public_gbrain_agentos.Base.Int.{ℤ, pos, negsuc, ltb_ℤ, pos_part}
use public_gbrain_agentos.Base.Text.{
  Text, text, text_eq, is_empty, is_digit, strip, utf8, decimal, decimal_ℤ, concat,
}
use public_gbrain_agentos.Base.Json.{Json, null, bool, int, str, Fields, end, field}
use public_gbrain_agentos.Base.Table.{update_where, delete_where, sort_by}
use public_gbrain_agentos.Base.Table.Keys.{lookup}
use public_gbrain_agentos.Auth.Errors.{AuthError}
use public_gbrain_agentos.Auth.Scopes.{AgentContext, check_write_scope}
use public_gbrain_agentos.Memory.Service.{
  Service, Slot, Setting, Tool, lift, logged, by_owner, same_owner, ◌>>=◌, ◌>>◌,
}
use public_gbrain_agentos.Memory.Slots.{
  SlotError, unauthenticated, no_write_scope, invalid_limit, invalid_offset, slot_exists,
  slot_not_found, validate_slot_label, validate_slot_limits, assert_slot_size, SlotPayload,
  slot_payload, authenticate_for_slots, require_slots_write, rejected, accepted, size_of, or_blank,
}

-- who writes, under which label
writer :
    {A : Type 0}
    → Result AuthError AgentContext
    → Text
    → (String → Text → Tool SlotError A)
    → Tool SlotError A
writer caller label operation = do
  agent_ctx ← lift (authenticate_for_slots caller)
  lift (require_slots_write agent_ctx)
  normalized ← lift (validate_slot_label label)
  operation agent_ctx.agent normalized

-- ORDER BY pinned DESC, label ASC
pub pinned_first : (Text → Text → Bool) → Slot → Slot → Bool
pinned_first collation r s =
    if r.pinned
    then (if s.pinned then collation r.label s.label else true)
    else if s.pinned
    then false
    else collation r.label s.label

check_page : ℤ → ℤ → Result SlotError Unit
check_page limit offset =
    if ltb_ℤ limit (pos 1) || ltb_ℤ (pos 1000) limit
    then err invalid_limit
    else if ltb_ℤ offset (pos 0)
    then err invalid_offset
    else ok tt

unfoldable pub slot_list :
    Setting → Result AuthError AgentContext → Bool → ℤ → ℤ → Tool SlotError (List SlotPayload)
unfolding check_page pinned_first
slot_list s caller include_content limit offset = do
  lift (check_page limit offset)
  agent_ctx ← lift (authenticate_for_slots caller)
  λ w.
      let mine = keep (λ r. r.agent =ₛ agent_ctx.agent) w.slots in
      let rows =
        take (pos_part limit) (drop (pos_part offset) (sort_by (pinned_first s.collation) mine)) in
      (
        ok (map (λ r. slot_payload r include_content) rows),
        logged s agent_ctx.agent "slot_list"
            (field "count" (int (pos (length rows))) (
              field "limit" (int limit)
                (field "offset" (int offset) (field "include_content" (bool include_content) end))))
            "ok" none w,
      )

is_found : Option Slot → Bool
is_found none = false
is_found (some row) = true

unfoldable pub slot_get :
    Setting → Result AuthError AgentContext → Text → Tool SlotError (Option SlotPayload)
unfolding is_found
slot_get s caller label = do
  agent_ctx ← lift (authenticate_for_slots caller)
  normalized ← lift (validate_slot_label label)
  λ w.
      let row = lookup by_owner (agent_ctx.agent, normalized) w.slots in
      (
        ok (Option.map (λ r. slot_payload r true) row),
        logged s agent_ctx.agent "slot_get"
            (field "label" (str (s.string normalized)) (field "found" (bool (is_found row)) end))
            "ok" none w,
      )

create_args : Setting → Text → Text → ℕ → Bool → Fields
create_args s label body size_limit pinned = field "label" (str (s.string label)) (
    field "size" (size_of body)
      (field "size_limit" (int (pos size_limit)) (field "pinned" (bool pinned) end)))

-- INSERT INTO slots, where the label is new for the agent; a conflict uses up an id all the same
insert_slot : Setting → String → Text → Text → ℕ → ℕ → Bool → Tool SlotError SlotPayload
unfolding accepted rejected create_args
insert_slot s agent label body size_limit hard_cap pinned w =
    let args = create_args s label body size_limit pinned in
    elim (lookup by_owner (agent, label) w.slots) [
      | some row ↦
          rejected s agent "slot_create" args (slot_exists label)
            (record w { next_slot = suc w.next_slot })
      | none ↦
          let row : Slot = record {
            id = w.next_slot;
            label = label;
            content = body;
            size_limit = size_limit;
            hard_cap = hard_cap;
            pinned = pinned;
            agent = agent;
            created_at = s.now;
            updated_at = s.now;
          } in
          accepted s agent "slot_create" args row
            (record w { slots = w.slots ++ row ∷ []; next_slot = suc w.next_slot })
    ]

pub create_sized : Setting → String → Text → Text → ℕ × ℕ → Bool → Tool SlotError SlotPayload
unfolding insert_slot
create_sized s agent label body (size_limit, hard_cap) pinned w =
    elim (assert_slot_size body size_limit hard_cap) [
      | ok done ↦ insert_slot s agent label body size_limit hard_cap pinned w
      | err e ↦ rejected s agent "slot_create" (create_args s label body size_limit pinned) e w
    ]

unfoldable pub slot_create :
    Setting
    → Result AuthError AgentContext
    → Text
    → Option Text
    → ℤ
    → ℤ
    → Bool
    → Tool SlotError SlotPayload
unfolding writer create_sized
slot_create s caller label content size_limit hard_cap pinned =
    writer caller label λ agent normalized. do
      limits ← lift (validate_slot_limits size_limit hard_cap)
      create_sized s agent normalized (or_blank content) limits pinned

-- the content with a text appended, on a line of its own
ends_line : Text → Bool
ends_line [] = false
ends_line (c ∷ []) = c == 10
ends_line (c ∷ d ∷ s) = ends_line (d ∷ s)

unfoldable pub appended_to : Text → Text → Text
unfolding ends_line
appended_to [] added = added
appended_to (c ∷ s) added = if ends_line (c ∷ s) then (c ∷ s) ++ added else (c ∷ s) ++ 10 ∷ added

-- UPDATE slots SET content = …, updated_at = now() WHERE agent = … AND label = …
abbrev pub set_content : ℕ → Text → Slot → Slot
set_content now content row = record row { content = content; updated_at = now }

write_content : Setting → String → Text → Text → List Slot → List Slot
write_content s agent label content =
    update_where (λ r. same_owner (r.agent, r.label) (agent, label) && true)
      (set_content s.now content)

pub append_row : Setting → String → Text → Text → Tool SlotError SlotPayload
unfolding accepted rejected write_content appended_to
append_row s agent label added w =
    let args = field "label" (str (s.string label)) (field "added" (size_of added) end) in
    elim (lookup by_owner (agent, label) w.slots) [
      | none ↦ rejected s agent "slot_append" args (slot_not_found label) w
      | some row ↦
          let content = appended_to row.content added in
          elim (assert_slot_size content row.size_limit row.hard_cap) [
            | err e ↦ rejected s agent "slot_append" args e w
            | ok done ↦
                accepted s agent "slot_append"
                  (field "label" (str (s.string label))
                    (field "added" (size_of added) (field "size" (size_of content) end)))
                  (set_content s.now content row)
                  (record w { slots = write_content s agent label content w.slots })
          ]
    ]

unfoldable pub slot_append :
    Setting → Result AuthError AgentContext → Text → Option Text → Tool SlotError SlotPayload
unfolding writer append_row
slot_append s caller label appended_content =
    writer caller label
      λ agent normalized. append_row s agent normalized (or_blank appended_content)

replace_args : Setting → Text → Json → Text → Fields
replace_args s label old body =
    field "label" (str (s.string label)) (field "before" old (field "after" (size_of body) end))

pub replace_row : Setting → String → Text → Text → Tool SlotError SlotPayload
unfolding accepted rejected write_content replace_args
replace_row s agent label body w = elim (lookup by_owner (agent, label) w.slots) [
  | none ↦
      rejected s agent "slot_replace" (replace_args s label (int (pos 0)) body)
        (slot_not_found label) w
  | some row ↦
      let args = replace_args s label (size_of row.content) body in
      elim (assert_slot_size body row.size_limit row.hard_cap) [
        | err e ↦ rejected s agent "slot_replace" args e w
        | ok done ↦
            accepted s agent "slot_replace" args (set_content s.now body row)
              (record w { slots = write_content s agent label body w.slots })
      ]
]

unfoldable pub slot_replace :
    Setting → Result AuthError AgentContext → Text → Option Text → Tool SlotError SlotPayload
unfolding writer replace_row
slot_replace s caller label content =
    writer caller label λ agent normalized. replace_row s agent normalized (or_blank content)

pub delete_row : Setting → String → Text → Tool SlotError Text
unfolding rejected
delete_row s agent label w = elim (lookup by_owner (agent, label) w.slots) [
  | none ↦
      rejected s agent "slot_delete" (field "label" (str (s.string label)) end)
        (slot_not_found label) w
  | some row ↦ (
    ok (text "deleted: " ++ label),
    logged s agent "slot_delete"
        (field "label" (str (s.string label)) (field "size" (size_of row.content) end)) "ok" none
        (record w {
          slots = delete_where (λ r. same_owner (r.agent, r.label) (agent, label)) w.slots;
        }),
  )
]

unfoldable pub slot_delete : Setting → Result AuthError AgentContext → Text → Tool SlotError Text
unfolding writer delete_row
slot_delete s caller label = writer caller label λ agent normalized. delete_row s agent normalized
