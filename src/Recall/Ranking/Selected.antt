-- ===== src/Recall/Ranking/Selected.antt =====
-- Which results are selected, and how many.
use public_gbrain_agentos.Base.{
  ℕ, zero, suc, ◌+◌, ◌≤◌, ◌≡◌, String, Option, none, some, List, [], ◌∷◌, ◌++◌, arith, Bool-cases,
  Option-cases, inl, inr, ltb, leb, min, length, length-append, length-take, ◌==◌, ==_iff,
  if◌then◌else◌,
}
use public_gbrain_agentos.Recall.Ranking.{
  Item, is_seen, dedupe, dedupe_by_document, first_pass, fill, diversify_by_scope, bump,
}

-- the best result of a document
unfoldable pub best : ℕ → List Item → Option Item
best d [] = none
best d (item ∷ items) =
    let rest = best d items in
    elim item.doc_id [ none ↦ rest | some e ↦ if e == d then some item else rest ]

-- no document stands twice
abbrev pub IsNew : Option ℕ → List Item → Type 0
IsNew none items = Unit
IsNew (some d) items = best d items ≡ none

abbrev pub IsDeduped : List Item → Type 0
IsDeduped [] = Unit
IsDeduped (item ∷ items) = IsNew item.doc_id items × IsDeduped items

dedupe-best :
    (d : ℕ) (seen : List ℕ) (items : List Item)
    → best d (dedupe seen items) ≡ (if is_seen d seen then none else best d items)
unfolding dedupe best
dedupe-best d seen [] = ground arith
dedupe-best d seen (item ∷ items) = elim (Option-cases item.doc_id) [
  | inl none_given ↦ ground (arith, none_given, dedupe-best d seen items)
  | inr (e, given) ↦ elim (Bool-cases (is_seen e seen)) [
    | inl repeated ↦ ground (arith, given, repeated, dedupe-best d seen items, ==_iff e d)
    | inr new ↦ ground (arith, given, new, dedupe-best d (e ∷ seen) items, ==_iff e d)
  ]
]

first_pass-length :
    (limit n : ℕ) (items selected skipped : List Item) (counts : String → ℕ)
    → length selected ≤ limit
    → let r = first_pass limit n items selected skipped counts in
      (length r.0 ≤ limit)
      × (min limit (length r.0 + length r.1)
          ≡ min limit (length selected + length skipped + length items))
unfolding first_pass
first_pass-length limit n [] selected skipped counts h = (h, omega arith)
first_pass-length limit n (item ∷ items) selected skipped counts h =
    elim (Bool-cases (leb limit (length selected))) [
      | inl full ↦ rw full (h, ground arith)
      | inr open_slot ↦ elim (Bool-cases (ltb (counts item.scope) n)) [
        | inl taken ↦
            rw (open_slot, taken)
              (
                (first_pass-length limit n items (selected ++ item ∷ []) skipped
                    (bump item.scope counts)
                    (ground (arith, length-append selected (item ∷ [])))).0,
                omega (
                  arith,
                  (first_pass-length limit n items (selected ++ item ∷ []) skipped
                      (bump item.scope counts)
                      (ground (arith, length-append selected (item ∷ [])))).1,
                  length-append selected (item ∷ []),
                ),
              )
        | inr passed ↦
            rw (open_slot, passed)
              (
                (first_pass-length limit n items selected (skipped ++ item ∷ []) counts h).0,
                omega (
                  arith,
                  (first_pass-length limit n items selected (skipped ++ item ∷ []) counts h).1,
                  length-append skipped (item ∷ []),
                ),
              )
      ]
    ]

fill-length :
    (limit : ℕ) (selected items : List Item)
    → length selected ≤ limit
    → length (fill limit selected items) ≡ min limit (length selected + length items)
unfolding fill
fill-length limit selected [] h = omega arith
fill-length limit selected (item ∷ items) h =
    ground
      (arith, fill-length limit (selected ++ item ∷ []) items, length-append selected (item ∷ []))

-- Diversifying wastes no slot: whatever the cap per scope, as many results come back as there are,
-- up to the limit.
pub diversify_by_scope-length :
    (scored : List Item) (limit max_per_scope : ℕ)
    → length (diversify_by_scope scored limit max_per_scope) ≡ min limit (length scored)
unfolding diversify_by_scope
diversify_by_scope-length scored limit zero = length-take limit scored
diversify_by_scope-length scored limit (suc n) =
    let r = first_pass limit (suc n) scored [] [] (λ _. 0) in
    let counted = first_pass-length limit (suc n) scored [] [] (λ _. 0) (omega arith) in
    omega (arith, fill-length limit r.0 r.1 counted.0, counted.1)

dedupe-IsDeduped : (seen : List ℕ) (items : List Item) → IsDeduped (dedupe seen items)
unfolding dedupe
dedupe-IsDeduped seen [] = tt
dedupe-IsDeduped seen (item ∷ items) = elim (Option-cases item.doc_id) [
  | inl none_given ↦ rw (none_given, dedupe) (rw none_given tt, dedupe-IsDeduped seen items)
  | inr (e, given) ↦ elim (Bool-cases (is_seen e seen)) [
    | inl repeated ↦ rw (given, repeated, dedupe) (dedupe-IsDeduped seen items)
    | inr new ↦
        rw (given, new, dedupe)
          (
            rw (given, dedupe-best e (e ∷ seen) items) (ground (arith, ==_iff e e)),
            dedupe-IsDeduped (e ∷ seen) items,
          )
  ]
]

-- One result per document stays, and it is the best one of its document.
pub dedupe_by_document-best :
    (d : ℕ) (scored : List Item)
    → IsDeduped (dedupe_by_document scored) × (best d (dedupe_by_document scored) ≡ best d scored)
unfolding dedupe_by_document
dedupe_by_document-best d scored = (dedupe-IsDeduped [] scored, dedupe-best d [] scored)
