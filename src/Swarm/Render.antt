-- ===== src/Swarm/Render.antt =====
-- The body of a letter, services/swarm_mcp/worker.py: `render_body_limit` to
-- `_render_payload_body_full`. `env` is the value of SWARM_RENDER_BODY_LIMIT.
pub mod Content
unfoldable pub use public_gbrain_agentos.Base.Json.Dicts.{get}
use public_gbrain_agentos.Base.{
  ℕ, zero, suc, String, Bool, true, false, ◌&&◌, ◌||◌, not, Option, none, some, List, [], ◌∷◌, ◌++◌,
  ltb, length, take, ◌=ₛ◌, contains, if◌then◌else◌,
}
use public_gbrain_agentos.Base.Int.{ℤ, pos, negsuc}
use public_gbrain_agentos.Base.Text.{
  Text, text, strip, is_empty, join, replace, decimal_ℤ, int_of, starts_with,
}
use public_gbrain_agentos.Base.Json.{
  Json, null, bool, int, float, str, arr, obj, Items, nil, cons, Fields, end, field,
}
use public_gbrain_agentos.Base.Json.Dumps.{dumps}

-- What the source uses of Python's Unicode tables: `str.capitalize`, and the `repr` of a `str`.
pub record Unicode : Type 0 where
  pub capitalize : Text → Text
  pub repr_str : Text → Text

abbrev reserved_keys : List String
reserved_keys =
    "title" ∷ "body" ∷ "message" ∷ "urgency" ∷ "_priority" ∷ "_escalation_reason" ∷ "_smoke"
    ∷ "kind" ∷ "from" ∷ []

abbrev pub body_limit_default : ℕ
body_limit_default = 4000

positive_or_default : Option ℤ → ℕ
positive_or_default (some (pos (suc n))) = suc n
positive_or_default _ = body_limit_default

-- A malformed or non-positive value falls back to the default.
unfoldable pub render_body_limit : Option Text → ℕ
unfolding positive_or_default
render_body_limit none = body_limit_default
render_body_limit (some raw) =
    if is_empty (strip raw) then body_limit_default else positive_or_default (int_of raw)

-- `json.dumps(value, ensure_ascii=False)`
abbrev pub json_dumps : Json → Text
json_dumps = dumps (text ", ") (text ": ")

abbrev item_text : Json → Text
item_text (str s) = text s
item_text v = json_dumps v

bullets : Items → List Text
bullets nil = []
bullets (cons item items) = (text "- " ++ item_text item) ∷ bullets items

label : Unicode → String → Text
label u key = u.capitalize (strip (replace b'_' b' ' (text key)))

section_value : Json → Text
unfolding bullets
section_value (str s) = text ": " ++ strip (text s)
section_value (int n) = text ": " ++ decimal_ℤ n
section_value (float s) = text ": " ++ text s
section_value (bool true) = text ": True"
section_value (bool false) = text ": False"
section_value (arr items) = text ":\n" ++ join (text "\n") (bullets items)
section_value v = text ": " ++ json_dumps v

unfoldable pub render_section : Unicode → String → Json → Text
unfolding label section_value
render_section u key value = label u key ++ section_value value

-- `value is None or value == "" or value == [] or value == {}`
abbrev pub is_blank : Json → Bool
is_blank null = true
is_blank (str s) = s =ₛ ""
is_blank (arr nil) = true
is_blank (obj end) = true
is_blank _ = false

abbrev pub is_skipped : String → Bool
is_skipped key = contains reserved_keys key || starts_with (text key) (text "_")

-- the loop over `payload.items()`
unfoldable pub sections : Unicode → Fields → List Text
sections u end = []
sections u (field key value fields) =
    let rest = sections u fields in
    if is_skipped key || is_blank value then rest else render_section u key value ∷ rest

-- `isinstance(value, str) and value.strip()`
unfoldable pub lead_text : Option Json → Option Text
lead_text (some (str s)) = if is_empty (strip (text s)) then none else some (strip (text s))
lead_text _ = none

-- the loop over ("body", "message")
unfoldable pub lead : Fields → List Text
unfolding lead_text
lead payload = elim (lead_text (get "body" payload)) [
  | some t ↦ t ∷ []
  | none ↦ elim (lead_text (get "message" payload)) [ some t ↦ t ∷ [] | none ↦ [] ]
]

unfoldable pub render_payload_body_full : Unicode → Fields → Text
render_payload_body_full u payload = join (text "\n\n") (lead payload ++ sections u payload)

abbrev pub truncation_mark : Text
truncation_mark = text "\n... [truncated by swarm-worker]"

abbrev pub truncate : ℕ → Text → Text
truncate limit rendered =
    if ltb limit (length rendered) then take limit rendered ++ truncation_mark else rendered

unfoldable pub measure_payload_body : Option Text → Unicode → Fields → Text × ℕ
measure_payload_body env u payload =
    let rendered = render_payload_body_full u payload in
    (truncate (render_body_limit env) rendered, length rendered)

unfoldable pub render_payload_body : Option Text → Unicode → Fields → Text
unfolding measure_payload_body
render_payload_body env u payload = (measure_payload_body env u payload).0
