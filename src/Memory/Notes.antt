-- ===== src/Memory/Notes.antt =====
-- The notes of services/memory_mcp/tools.py: their names, their frontmatter, and the exceptions of
-- the tools that write them.
pub mod Store
pub mod Create
pub mod Edit
pub mod Supersession
pub mod Verify
pub mod Auto
pub mod Decide
pub mod History
pub mod Slug
use public_gbrain_agentos.Base.{
  ℕ, String, Bool, true, false, not, ◌&&◌, ◌||◌, Option, none, some, List, [], ◌∷◌, ◌++◌, leb, ◌==◌,
  ◌=ₛ◌, take, drop, Result, ok, err, if◌then◌else◌,
}
use mathlib.Core.List.{reverse}
use public_gbrain_agentos.Base.Text.{Text, text, is_empty, is_digit, starts_with, strip, concat}
use public_gbrain_agentos.Base.Json.{Json, str, bool, arr, Items, nil, cons, Fields, end, field}
use public_gbrain_agentos.Base.Json.Dicts.{get, set_key, set_default}
use public_gbrain_agentos.Base.Json.Repr.{or_else_json}
use public_gbrain_agentos.Auth.Errors.{AuthError}
use public_gbrain_agentos.Auth.Scopes.{AgentContext}
use public_gbrain_agentos.Memory.Paths.{PathError, split_path, first_segment}
use public_gbrain_agentos.Memory.Service.{Setting, Yaml, mapping, nothing, other}

pub data NoteError : Type 0 where
  unauthenticated : AuthError → NoteError
  bad_path : PathError → NoteError
  no_write_scope short_basis document_not_found superseded_note folder_not_found : NoteError
  immutable_decision immutable_error_pattern : NoteError
  -- OSError, the TypeError of an assignment into a YAML scalar, a value that a column does not
  -- take, the CHECK documents_not_self_superseded, and an INSERT that fails
  os_error type_error data_error check_violation database_error : NoteError

abbrev pub max_slug_length : ℕ
max_slug_length = 60

abbrev pub ru_translit : List (ℕ × Text)
ru_translit =
    (0x430, text "a")
    ∷ (0x431, text "b")
    ∷ (0x432, text "v")
    ∷ (0x433, text "g")
    ∷ (0x434, text "d")
    ∷ (0x435, text "e")
    ∷ (0x451, text "e")
    ∷ (0x436, text "zh")
    ∷ (0x437, text "z")
    ∷ (0x438, text "i")
    ∷ (0x439, text "y")
    ∷ (0x43A, text "k")
    ∷ (0x43B, text "l")
    ∷ (0x43C, text "m")
    ∷ (0x43D, text "n")
    ∷ (0x43E, text "o")
    ∷ (0x43F, text "p")
    ∷ (0x440, text "r")
    ∷ (0x441, text "s")
    ∷ (0x442, text "t")
    ∷ (0x443, text "u")
    ∷ (0x444, text "f")
    ∷ (0x445, text "h")
    ∷ (0x446, text "c")
    ∷ (0x447, text "ch")
    ∷ (0x448, text "sh")
    ∷ (0x449, text "sch")
    ∷ (0x44A, [])
    ∷ (0x44B, text "y")
    ∷ (0x44C, [])
    ∷ (0x44D, text "e")
    ∷ (0x44E, text "yu")
    ∷ (0x44F, text "ya")
    ∷ []

translit_of : List (ℕ × Text) → ℕ → Text
translit_of [] c = c ∷ []
translit_of ((d, t) ∷ table) c = if c == d then t else translit_of table c

unfoldable pub transliterate : Text → Text
unfolding translit_of
transliterate [] = []
transliterate (c ∷ s) = translit_of ru_translit c ++ transliterate s

unfoldable pub is_slug_char : ℕ → Bool
is_slug_char c = (leb b'a' c && leb c b'z') || is_digit c

-- `re.sub(r"[^a-z0-9]+", "-", s)`; the flag tells whether the character before was replaced
dash_runs : Bool → Text → Text
unfolding is_slug_char
dash_runs within [] = []
dash_runs within (c ∷ s) =
    let rest = dash_runs (not (is_slug_char c)) s in
    if is_slug_char c then c ∷ rest else if within then rest else b'-' ∷ rest

strip_dashes_left : Text → Text
strip_dashes_left [] = []
strip_dashes_left (c ∷ s) = let rest = strip_dashes_left s in if c == b'-' then rest else c ∷ s

-- `s.strip("-")`
strip_dashes : Text → Text
unfolding strip_dashes_left
strip_dashes s = reverse (strip_dashes_left (reverse (strip_dashes_left s)))

unfoldable pub slugify : Setting → Text → Text
unfolding dash_runs strip_dashes
slugify s title =
    let base = strip_dashes (dash_runs false (transliterate (s.lower title))) in
    if is_empty base then b'n' ∷ take 8 (s.sha256 title) else take max_slug_length base

-- `fm.get("created") or fm.get("date") or _now_iso()`
unfoldable pub with_freshness : Setting → Fields → Fields
with_freshness s fm =
    let valid_from =
      or_else_json (get "created" fm) (or_else_json (get "date" fm) (str s.later_iso)) in
    set_default "is_latest" (bool true) (set_default "valid_from" valid_from fm)

-- `raw.replace("Z", "+00:00")`
replace_z : Text → Text
replace_z [] = []
replace_z (c ∷ s) = if c == b'Z' then text "+00:00" ++ replace_z s else c ∷ replace_z s

-- the column `valid_from`; frontmatter that the tools write holds no datetime objects
unfoldable pub parse_iso_ts : Setting → Option Json → Option ℕ
unfolding replace_z
parse_iso_ts s (some (str value)) =
    if value =ₛ "" then none else s.from_iso (replace_z (strip (text value)))
parse_iso_ts s _ = none

unfoldable pub handoff_rel_path : Setting → Text → Text → Text → Text
handoff_rel_path s scope from_agent to_agent =
    concat (
      scope ∷ text "/" ∷ from_agent ∷ text "-to-" ∷ to_agent ∷ text "-" ∷ s.stamp ∷ text ".md" ∷ [])

strip_newlines_left : Text → Text
strip_newlines_left [] = []
strip_newlines_left (c ∷ s) = let rest = strip_newlines_left s in if c == 10 then rest else c ∷ s

-- `s.rstrip("\n")`
unfoldable pub strip_newlines : Text → Text
unfolding strip_newlines_left
strip_newlines s = reverse (strip_newlines_left (reverse s))

unfoldable pub build_frontmatter : Setting → Fields → Text
build_frontmatter s fields = text "---\n" ++ (strip_newlines (s.dump fields) ++ text "\n---\n")

unfoldable pub scope_from_path : Text → Text
scope_from_path rel_path = first_segment (split_path rel_path)

-- what stands before and after the first "---"
unfoldable pub split_mark : Text → Option (Text × Text)
split_mark [] = none
split_mark (c ∷ s) =
    if starts_with (c ∷ s) (text "---")
    then some ([], drop 2 s)
    else elim (split_mark s) [ none ↦ none | some (before, after) ↦ some (c ∷ before, after) ]

-- the texts between the two marks and after them
unfoldable pub frontmatter_parts : Text → Option (Text × Text)
unfolding split_mark
frontmatter_parts md = if starts_with md (text "---") then split_mark (drop 3 md) else none

-- `_parse_frontmatter(text) or {}`, and the TypeError of writing into a YAML scalar
unfoldable pub parse_frontmatter : Setting → Text → Result NoteError Fields
unfolding frontmatter_parts
parse_frontmatter s md = elim (frontmatter_parts md) [
  | none ↦ ok end
  | some (block, rest) ↦ elim (s.load block) [
    | mapping fields ↦ ok fields
    | nothing ↦ ok end
    | other ↦ err type_error
  ]
]

unfoldable pub extract_frontmatter_block : Text → Option Text
unfolding frontmatter_parts
extract_frontmatter_block md = elim (frontmatter_parts md) [
  | none ↦ none
  | some (block, rest) ↦ some (text "---" ++ (block ++ text "---\n"))
]

drop_newline : Text → Text
drop_newline [] = []
drop_newline (c ∷ s) = if c == 10 then s else c ∷ s

-- the text behind the frontmatter of a file
unfoldable pub body_part : Text → Text
unfolding frontmatter_parts drop_newline
body_part md = elim (frontmatter_parts md) [ none ↦ md | some (block, rest) ↦ drop_newline rest ]

-- `agent if (agent and agent != agent_ctx.agent) else None`
unfoldable pub declared_author : Option String → AgentContext → Option String
declared_author none agent_ctx = none
declared_author (some agent) agent_ctx =
    if (agent =ₛ "") || (agent =ₛ agent_ctx.agent) then none else some agent

abbrev pub texts : List String → Json
texts xs = arr (items xs)
  where
    items : List String → Items
    items [] = nil
    items (x ∷ xs) = cons (str x) (items xs)

unfoldable pub add_author : Option String → Fields → Fields
add_author none fm = fm
add_author (some author) fm = set_key "declared_author" (str author) fm
