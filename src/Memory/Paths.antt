-- ===== src/Memory/Paths.antt =====
-- services/memory_mcp/path_guard.py up to the file system, and the guards of tools.py that classify
-- a path by its segments. `sha256` is `_sha256`, the digest of a text.
pub mod Owned
pub mod Safe
pub mod Passing
use public_gbrain_agentos.Base.{
  ℕ, zero, suc, Bool, true, false, not, ◌&&◌, ◌||◌, Option, none, some, List, [], ◌∷◌, ◌++◌, any,
  leb, ltb, length, take, ◌==◌, String, Result, ok, err, if◌then◌else◌,
}
use public_gbrain_agentos.Base.Text.{Text, text, text_eq, is_empty, is_digit, starts_with}
use public_gbrain_agentos.Auth.Scopes.{AgentContext, check_write_scope}

-- put `c` in front of the first part
abbrev cons_first : ℕ → List Text → List Text
cons_first c [] = (c ∷ []) ∷ []
cons_first c (p ∷ ps) = (c ∷ p) ∷ ps

-- `path.split("/")`
unfoldable pub split_path : Text → List Text
split_path [] = [] ∷ []
split_path (c ∷ s) = let rest = split_path s in if c == b'/' then [] ∷ rest else cons_first c rest

abbrev pub has_segment : Text → List Text → Bool
has_segment x = any (λ p. text_eq p x)

pub data PathError : Type 0 where
  empty_path home_expansion absolute_path path_traversal empty_segment redundant_segment
        unknown_scope :
      PathError
  not_owner no_scope : PathError

unfoldable pub normalize_rel_path : Text → Result PathError Text
normalize_rel_path path =
    if is_empty path
    then err empty_path
    else if any (λ c. c == b'~') path
    then err home_expansion
    else if starts_with path (text "/")
    then err absolute_path
    else let segments = split_path path in
      if has_segment (text "..") segments
      then err path_traversal
      else if has_segment [] segments
      then err empty_segment
      else if has_segment (text ".") segments
      then err redundant_segment
      else ok path

abbrev pub allowed_scopes : List Text
allowed_scopes =
    text "10-strategy"
    ∷ text "10-system"
    ∷ text "20-daily"
    ∷ text "20-metrics"
    ∷ text "30-decisions"
    ∷ text "40-projects"
    ∷ text "50-external"
    ∷ text "50-knowledge"
    ∷ text "50-ops"
    ∷ text "60-tasks"
    ∷ text "70-runbooks"
    ∷ text "80-error-patterns"
    ∷ text "90-inbox"
    ∷ text "_templates"
    ∷ []

abbrev pub first_segment : List Text → Text
first_segment [] = []
first_segment (p ∷ ps) = p

pub check_scope : Result PathError Text → Result PathError Text
check_scope (err e) = err e
check_scope (ok path) =
    if has_segment (first_segment (split_path path)) allowed_scopes
    then ok path
    else err unknown_scope

-- the checks of `validate_path` before it asks the file system to resolve links
unfoldable pub check_path : Text → Result PathError Text
unfolding check_scope
check_path path = check_scope (normalize_rel_path path)

abbrev pub ops_scope : Text
ops_scope = text "50-ops"

is_component_start : ℕ → Bool
is_component_start c = (leb b'a' c && leb c b'z') || is_digit c

is_component_char : ℕ → Bool
unfolding is_component_start
is_component_char c = is_component_start c || c == b'.' || c == b'_' || c == b'-'

-- the rest of a match of AGENT_COMPONENT_RE: at most `n` characters, then the end, where `$` also
-- takes one newline
component_rest : ℕ → Text → Bool
unfolding is_component_char
component_rest n [] = true
component_rest zero (c ∷ s) = c == 10 && is_empty s
component_rest (suc n) (c ∷ s) =
    let more = component_rest n s in if is_component_char c then more else c == 10 && is_empty s

-- the agent's name is used as it is
unfoldable pub is_path_safe : Text → Bool
unfolding is_component_start component_rest
is_path_safe [] = false
is_path_safe (c ∷ s) = is_component_start c && component_rest 62 s

abbrev pub is_verbatim : Text → Bool
is_verbatim agent =
    is_path_safe agent && not (text_eq agent (text ".") || text_eq agent (text ".."))

unfoldable pub agent_path_component : (Text → Text) → Text → Text
agent_path_component sha256 agent =
    if is_verbatim agent then agent else b'_' ∷ take 16 (sha256 agent)

kind_of : List Text → Text
kind_of (scope ∷ agent ∷ kind ∷ rest) = if text_eq scope ops_scope then kind else scope
kind_of parts = first_segment parts

unfoldable pub canonical_kind_from_path : Text → Text
unfolding kind_of
canonical_kind_from_path path = kind_of (split_path path)

owned_parts : Text → List Text → Result PathError Unit
owned_parts owner [] = ok tt
owned_parts owner (scope ∷ []) = if text_eq scope ops_scope then err not_owner else ok tt
owned_parts owner (scope ∷ second ∷ rest) =
    if not (text_eq scope ops_scope)
    then ok tt
    else if text_eq second owner
    then ok tt
    else err not_owner

unfoldable pub assert_ops_subtree_owner :
    (Text → Text) → AgentContext → Text → Result PathError Unit
unfolding owned_parts
assert_ops_subtree_owner sha256 agent_ctx path =
    owned_parts (agent_path_component sha256 (text agent_ctx.agent)) (split_path path)

-- the scope of a new note, and the prefix of its path
unfoldable pub resolve_write_target :
    (Text → Text) → AgentContext → String → Result PathError (Text × Text)
resolve_write_target sha256 agent_ctx canonical_scope =
    if check_write_scope agent_ctx canonical_scope
    then ok (text canonical_scope, text canonical_scope)
    else if check_write_scope agent_ctx "50-ops"
    then ok (
      ops_scope,
      ops_scope
          ++ b'/'
            ∷ (agent_path_component sha256 (text agent_ctx.agent) ++ b'/' ∷ text canonical_scope),
    )
    else err no_scope
