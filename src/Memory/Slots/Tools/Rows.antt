-- ===== src/Memory/Slots/Tools/Rows.antt =====
-- The slots after a change of the table.
use public_gbrain_agentos.Base.{
  ℕ, ◌≤◌, ◌≡◌, refl, String, Bool, true, false, ◌&&◌, Option, none, some, List, [], ◌∷◌, arith, All,
  All-append, All-zip, ap, ◌∙◌, length, sym, if◌then◌else◌,
}
use mathlib.Core.Option.{some-injective}
use mathlib.Core.Path.{subst}
use public_gbrain_agentos.Base.Text.{Text, utf8}
use public_gbrain_agentos.Base.Table.{update_where, All-update_to, All-delete}
use public_gbrain_agentos.Base.Table.Keys.{
  lookup, lookup-append, lookup-update, lookup-delete, lookup-one, lookup_self, or_none, Distinct,
  Distinct-update, Distinct-append_one, Distinct-delete,
}
use public_gbrain_agentos.Memory.Service.{Slot, by_owner, same_owner, same_owner_iff}
use public_gbrain_agentos.Memory.Slots.Tools.{set_content}
use public_gbrain_agentos.Memory.Slots.Tools.Change.{
  Change, refused, kept, inserted, written, deleted, IsFit, content_at,
}

module _ (k : String × Text) (f : Option Text → Option (Option Text)) (rows : List Slot) where
  lookup_new :
      (j : String × Text) (row : Slot)
      → (row.agent, row.label) ≡ k
      → lookup by_owner j (row ∷ []) ≡ (if same_owner k j then some row else none)
  lookup_new j row key =
      subst (λ x. lookup by_owner j (row ∷ []) ≡ (if same_owner x j then some row else none)) key
        (lookup-one by_owner row j)

  pub content_of_key :
      {after : List Slot}
      → Change k f rows true after
      → f (content_at k rows) ≡ some (content_at k after)
  content_of_key (kept same) = same
  content_of_key (inserted row key fit new spec) =
      rw
        (
          lookup-append by_owner k rows (row ∷ []),
          new,
          lookup_new k row key,
          (same_owner_iff k k).1 refl,
        )
        spec
  content_of_key (written now content row found fits spec) =
      rw
        (
          lookup-update by_owner k k (λ _. true) (set_content now content) (λ _. refl) rows,
          (same_owner_iff k k).1 refl,
          found,
        )
        spec
  content_of_key (deleted row found spec) =
      rw (lookup-delete by_owner k k rows, (same_owner_iff k k).1 refl, found) spec

  pub content_elsewhere :
      {returned : Bool} {after : List Slot} (j : String × Text)
      → same_owner k j ≡ false
      → Change k f rows returned after
      → lookup by_owner j after ≡ lookup by_owner j rows
  content_elsewhere j other refused = refl
  content_elsewhere j other (kept same) = refl
  content_elsewhere j other (inserted row key fit new spec) =
      rw (lookup-append by_owner j rows (row ∷ []), lookup_new j row key, other)
        (or_none (lookup by_owner j rows))
  content_elsewhere j other (written now content row found fits spec) =
      rw (lookup-update by_owner k j (λ _. true) (set_content now content) (λ _. refl) rows, other)
        refl
  content_elsewhere j other (deleted row found spec) =
      rw (lookup-delete by_owner k j rows, other) refl

-- the constraints of the table: one slot for an agent and a label, and the CHECKs
abbrev pub IsSound : List Slot → Type 0
IsSound rows = Distinct by_owner rows × All IsFit rows

written_fits :
    (k : String × Text) (now : ℕ) (content : Text) (row : Slot) (rows : List Slot)
    → lookup by_owner k rows ≡ some row
    → length (utf8 content) ≤ row.size_limit
    → Distinct by_owner rows
    → All IsFit rows
    → All IsFit
        (update_where (λ r. same_owner (r.agent, r.label) k && true) (set_content now content) rows)
written_fits k now content row rows found small distinct fits =
    All-update_to (λ r. IsFit r × (lookup by_owner (r.agent, r.label) rows ≡ some r)) IsFit
      (λ r. same_owner (r.agent, r.label) k && true) (set_content now content)
      (λ r (fit, here) hit.
        let key : (r.agent, r.label) ≡ k = (same_owner_iff (r.agent, r.label) k).0 (ground arith) in
        let it : row ≡ r =
          some-injective row r (sym found ∙ sym (ap (λ j. lookup by_owner j rows) key) ∙ here) in
        record {
          labelled = fit.labelled;
          positive = fit.positive;
          capped = fit.capped;
          bounded = fit.bounded;
          sized = subst (λ (x : Slot). length (utf8 content) ≤ x.size_limit) it small;
        })
      (λ r (fit, here) miss. fit) rows
      (All-zip IsFit (λ r. lookup by_owner (r.agent, r.label) rows ≡ some r) rows fits
        (lookup_self by_owner rows distinct))

pub Change-IsSound :
    (k : String × Text) (f : Option Text → Option (Option Text)) (rows : List Slot)
    {returned : Bool} {after : List Slot}
    → Change k f rows returned after
    → IsSound rows
    → IsSound after
Change-IsSound k f rows refused h = h
Change-IsSound k f rows (kept same) h = h
Change-IsSound k f rows (inserted row key fit new spec) (distinct, fits) = (
  Distinct-append_one by_owner rows row distinct
      (subst (λ j. lookup by_owner j rows ≡ none) (sym key) new),
  All-append IsFit rows (row ∷ []) fits (fit, tt),
)
Change-IsSound k f rows (written now content row found small spec) (distinct, fits) = (
  Distinct-update by_owner _ (set_content now content) (λ _. refl) rows distinct,
  written_fits k now content row rows found small distinct fits,
)
Change-IsSound k f rows (deleted row found spec) (distinct, fits) =
    (Distinct-delete by_owner k rows distinct, All-delete IsFit _ rows fits)
