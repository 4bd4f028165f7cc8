-- ===== src/Recall/Ranking.antt =====
-- services/recall_mcp/search.py, what happens to the ranked results: `_dedupe_by_document`,
-- `_diversify_by_scope` and `_truncate_snippets`. A snippet is the list of its lines.
pub mod Selected
pub mod Budget
use public_gbrain_agentos.Base.{
  ℕ, zero, suc, ◌+◌, ◌-◌, String, Bool, true, false, ◌||◌, Option, none, some, List, [], ◌∷◌, ◌++◌,
  ltb, leb, length, take, ◌==◌, ◌=ₛ◌, if◌then◌else◌,
}
use public_gbrain_agentos.Base.Text.{Text, text}

-- a result: its document, if it has one, and its scope
pub record Item : Type 0 where
  pub doc_id : Option ℕ
  pub scope : String
  pub snippet : List Text

-- `x in seen`
abbrev pub is_seen : ℕ → List ℕ → Bool
is_seen x [] = false
is_seen x (y ∷ ys) = y == x || is_seen x ys

-- the loop of `_dedupe_by_document`, which starts with nothing seen
unfoldable pub dedupe : List ℕ → List Item → List Item
dedupe seen [] = []
dedupe seen (item ∷ items) = elim item.doc_id [
  | none ↦ item ∷ dedupe seen items
  | some d ↦
      let repeated = dedupe seen items in
      let new = dedupe (d ∷ seen) items in if is_seen d seen then repeated else item ∷ new
]

unfoldable pub dedupe_by_document : List Item → List Item
dedupe_by_document scored = dedupe [] scored

-- `counts[scope] = counts.get(scope, 0) + 1`
abbrev pub bump : String → (String → ℕ) → String → ℕ
bump scope counts s = if s =ₛ scope then suc (counts s) else counts s

-- the first pass, from the items selected and skipped so far
unfoldable pub first_pass :
    ℕ → ℕ → List Item → List Item → List Item → (String → ℕ) → List Item × List Item
first_pass limit max_per_scope [] selected skipped counts = (selected, skipped)
first_pass limit max_per_scope (item ∷ items) selected skipped counts =
    let taken =
      first_pass limit max_per_scope items (selected ++ item ∷ []) skipped
        (bump item.scope counts) in
    let passed = first_pass limit max_per_scope items selected (skipped ++ item ∷ []) counts in
    if leb limit (length selected)
    then (selected, skipped)
    else if ltb (counts item.scope) max_per_scope
    then taken
    else passed

-- the second pass
unfoldable pub fill : ℕ → List Item → List Item → List Item
fill limit selected [] = selected
fill limit selected (item ∷ items) =
    let more = fill limit (selected ++ item ∷ []) items in
    if leb limit (length selected) then selected else more

-- `max_per_scope` is 0 where the source's is 0 or less
unfoldable pub diversify_by_scope : List Item → ℕ → ℕ → List Item
diversify_by_scope scored limit zero = take limit scored
diversify_by_scope scored limit (suc n) =
    let (selected, skipped) = first_pass limit (suc n) scored [] [] (λ _. 0) in
    fill limit selected skipped

abbrev pub ellipsis : Text
ellipsis = text "..."

abbrev pub with_snippet : Item → List Text → Item
with_snippet item lines = record item { snippet = lines }

-- the lines that are left of a snippet where `remaining` lines fit
abbrev pub cut_lines : ℕ → List Text → List Text
cut_lines remaining lines =
    if ltb remaining (length lines) then take remaining lines ++ ellipsis ∷ [] else lines

-- the loop of `_truncate_snippets`, where `used` lines are used up
unfoldable pub truncate_snippets : ℕ → ℕ → List Item → List Item
truncate_snippets max_lines used [] = []
truncate_snippets max_lines used (item ∷ items) =
    let over = truncate_snippets max_lines used items in
    let lines = cut_lines (max_lines - used) item.snippet in
    let fitted = truncate_snippets max_lines (used + length lines) items in
    if leb max_lines used
    then with_snippet item (ellipsis ∷ []) ∷ over
    else with_snippet item lines ∷ fitted
