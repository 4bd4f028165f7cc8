-- ===== src/Recall/Ranking/Budget.antt =====
-- How many lines the snippets have in the end.
use public_gbrain_agentos.Base.{
  ℕ, ◌+◌, ◌-◌, ◌≤◌, List, [], ◌∷◌, arith, Bool-cases, inl, inr, ltb, leb, max, length,
  length-append, length-take, take,
}
use public_gbrain_agentos.Recall.Ranking.{Item, truncate_snippets, cut_lines, ellipsis}
use public_gbrain_agentos.Base.Text.{Text}

abbrev pub total_lines : List Item → ℕ
total_lines [] = 0
total_lines (item ∷ items) = length item.snippet + total_lines items

length-cut_lines :
    (remaining : ℕ) (lines : List Text) → length (cut_lines remaining lines) ≤ remaining + 1
length-cut_lines remaining lines = elim (Bool-cases (ltb remaining (length lines))) [
  | inl over ↦ rw over (
      ground
        (arith, length-append (take remaining lines) (ellipsis ∷ []), length-take remaining lines))
  | inr fits ↦ rw fits (ground arith)
]

budget :
    (max_lines used : ℕ) (items : List Item)
    → used + total_lines (truncate_snippets max_lines used items)
      ≤ max used max_lines + length items
unfolding truncate_snippets
budget max_lines used [] = omega arith
budget max_lines used (item ∷ items) = elim (Bool-cases (leb max_lines used)) [
  | inl over ↦ rw (over, truncate_snippets) (ground (arith, budget max_lines used items))
  | inr room ↦
      rw (room, truncate_snippets)
        (ground (
          arith,
          budget max_lines (used + length (cut_lines (max_lines - used) item.snippet)) items,
          length-cut_lines (max_lines - used) item.snippet,
        ))
]

-- After `truncate_snippets` the snippets of all results together have at most as many lines as the
-- budget, and one more for each result.
pub truncate_snippets-bounded :
    (max_lines : ℕ) (results : List Item)
    → total_lines (truncate_snippets max_lines 0 results) ≤ max_lines + length results
truncate_snippets-bounded max_lines results = omega (arith, budget max_lines 0 results)
