-- ===== src/Memory/Slots.antt =====
-- The slots of services/memory_mcp/tools.py, each agent's scratchpad of labelled texts: what its
-- tools check and answer.
pub mod Tools
use mathlib.Core.Option
use public_gbrain_agentos.Base.{
  ℕ, zero, suc, ◌+◌, ◌*◌, ◌/◌, String, Bool, true, false, not, ◌&&◌, ◌||◌, Option, none, some, List,
  [], ◌∷◌, ◌++◌, map, keep, take, drop, length, ltb, leb, ◌==◌, ◌=ₛ◌, Result, ok, err,
  if◌then◌else◌,
}
use public_gbrain_agentos.Base.Int.{ℤ, pos, negsuc, ltb_ℤ, pos_part}
use public_gbrain_agentos.Base.Text.{
  Text, text, text_eq, is_empty, is_digit, strip, utf8, decimal, decimal_ℤ, concat,
}
use public_gbrain_agentos.Base.Json.{Json, null, bool, int, str, Fields, end, field}
use public_gbrain_agentos.Base.Table.{update_where, delete_where, sort_by}
use public_gbrain_agentos.Base.Table.Keys.{lookup}
use public_gbrain_agentos.Auth.Errors.{AuthError}
use public_gbrain_agentos.Auth.Scopes.{AgentContext, check_write_scope}
use public_gbrain_agentos.Memory.Service.{
  Service, Slot, Setting, Tool, lift, logged, by_owner, same_owner, ◌>>=◌, ◌>>◌,
}

pub data SlotError : Type 0 where
  unauthenticated : AuthError → SlotError
  no_write_scope invalid_label invalid_size_limit invalid_hard_cap hard_cap_too_large
        limit_above_cap invalid_limit invalid_offset :
      SlotError
  -- the PermissionErrors "413 …"
  above_hard_cap above_size_limit : ℕ → ℕ → SlotError
  slot_exists slot_not_found : Text → SlotError

abbrev pub slots_scope : String
slots_scope = "slots"

abbrev pub max_hard_cap : ℕ
max_hard_cap = 20000

is_label_start : ℕ → Bool
is_label_start c = leb b'a' c && leb c b'z'

is_label_char : ℕ → Bool
unfolding is_label_start
is_label_char c = is_label_start c || is_digit c || c == b'_'

-- the rest of a match of SLOT_LABEL_RE: at most `n` characters, then the end, where `$` also takes
-- one newline
label_rest : ℕ → Text → Bool
unfolding is_label_char
label_rest n [] = true
label_rest zero (c ∷ s) = c == 10 && is_empty s
label_rest (suc n) (c ∷ s) =
    let more = label_rest n s in if is_label_char c then more else c == 10 && is_empty s

unfoldable pub is_label : Text → Bool
unfolding is_label_start label_rest
is_label [] = false
is_label (c ∷ s) = is_label_start c && label_rest 63 s

unfoldable pub validate_slot_label : Text → Result SlotError Text
validate_slot_label label =
    let normalized = strip label in if is_label normalized then ok normalized else err invalid_label

unfoldable pub validate_slot_limits : ℤ → ℤ → Result SlotError (ℕ × ℕ)
validate_slot_limits size_limit hard_cap =
    if ltb_ℤ size_limit (pos 1)
    then err invalid_size_limit
    else if ltb_ℤ hard_cap (pos 1)
    then err invalid_hard_cap
    else if ltb_ℤ (pos max_hard_cap) hard_cap
    then err hard_cap_too_large
    else if ltb_ℤ hard_cap size_limit
    then err limit_above_cap
    else ok (pos_part size_limit, pos_part hard_cap)

-- In the floating-point numbers that the source uses, `size_limit * 0.8` has the ceiling that
-- 4 * size_limit / 5 has, for all limits up to 20000.
unfoldable pub slot_warning : ℕ → ℕ → Option Text
slot_warning size size_limit =
    if leb size_limit 0
    then none
    else if leb ((4 * size_limit + 4) / 5) size
    then some (
        concat (
          text "slot is at "
          ∷ decimal size
          ∷ text "/"
          ∷ decimal size_limit
          ∷ text " bytes (>= 80% of size_limit)"
          ∷ []))
    else none

unfoldable pub assert_slot_size : Text → ℕ → ℕ → Result SlotError Unit
assert_slot_size content size_limit hard_cap =
    let size = length (utf8 content) in
    if ltb hard_cap size
    then err (above_hard_cap size hard_cap)
    else if ltb size_limit size
    then err (above_size_limit size size_limit)
    else ok tt

pub record SlotPayload : Type 0 where
  pub id : ℕ
  pub label : Text
  pub size : ℕ
  pub size_limit : ℕ
  pub hard_cap : ℕ
  pub pinned : Bool
  pub agent : String
  pub created_at : ℕ
  pub updated_at : ℕ
  pub warning : Option Text
  pub content : Option Text

unfoldable pub slot_payload : Slot → Bool → SlotPayload
slot_payload row include_content =
    let size = length (utf8 row.content) in
    record {
      id = row.id;
      label = row.label;
      size = size;
      size_limit = row.size_limit;
      hard_cap = row.hard_cap;
      pinned = row.pinned;
      agent = row.agent;
      created_at = row.created_at;
      updated_at = row.updated_at;
      warning = slot_warning size row.size_limit;
      content = if include_content then some row.content else none;
    }

abbrev pub authenticate_for_slots : Result AuthError AgentContext → Result SlotError AgentContext
authenticate_for_slots (ok agent_ctx) = ok agent_ctx
authenticate_for_slots (err e) = err (unauthenticated e)

unfoldable pub require_slots_write : AgentContext → Result SlotError Unit
require_slots_write agent_ctx =
    if check_write_scope agent_ctx slots_scope then ok tt else err no_write_scope

-- `str(exc)`, and the `rejected_error` of a missing slot
error_text : SlotError → Text
error_text (above_hard_cap size cap) =
    concat (
      text "413 slot overflow: "
      ∷ decimal size
      ∷ text " bytes exceeds hard_cap "
      ∷ decimal cap
      ∷ [])
error_text (above_size_limit size limit) = concat (
    text "413 slot overflow: "
    ∷ decimal size
    ∷ text " bytes exceeds size_limit "
    ∷ decimal limit
    ∷ [])
error_text (slot_exists label) = text "duplicate slot: " ++ label
error_text (slot_not_found label) = text "slot not found: " ++ label
error_text _ = []

-- raise after an audit entry that names the error
rejected : {A : Type 0} → Setting → String → String → Fields → SlotError → Tool SlotError A
unfolding error_text
rejected s agent tool args e w =
    (err e, logged s agent tool args "error" (some (s.string (error_text e))) w)

-- answer with a slot after an audit entry
accepted : Setting → String → String → Fields → Slot → Tool SlotError SlotPayload
accepted s agent tool args row w =
    (ok (slot_payload row true), logged s agent tool args "ok" none w)

abbrev size_of : Text → Json
size_of content = int (pos (length (utf8 content)))

abbrev or_blank : Option Text → Text
or_blank none = []
or_blank (some content) = content
