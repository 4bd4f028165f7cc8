-- ===== src/Base/Table/Subsets.antt =====
-- What a SELECT keeps of a table: properties of each row, and of each two rows.
use Prim.Native.Nat.{ℕ, zero, suc}
use mathlib.Core.Path.{◌≡◌, refl}
use mathlib.Core.Bool.{Bool, true, false}
use mathlib.Core.List.{List, [], ◌∷◌}
use public_gbrain_agentos.Base.Tests.{if◌then◌else◌}
use public_gbrain_agentos.Base.Lists.{All, keep, take, All-take}
use public_gbrain_agentos.Base.Table.{insert_by, sort_by, select, All-insert_by, All-sort_by}

module _ {A : Type 0} where
  -- each two rows are related
  abbrev pub Pairs : (A → A → Type 0) → List A → Type 0
  Pairs R [] = Unit
  Pairs R (r ∷ rs) = All (R r) rs × Pairs R rs

  pub All-kept :
      (P : A → Type 0) (p : A → Bool) (rows : List A)
      → All P rows
      → All (λ r. P r × (p r ≡ true)) (keep p rows)
  All-kept P p [] h = tt
  All-kept P p (r ∷ rs) h = choose (p r) refl (All-kept P p rs h.1)
    where
      choose :
          (b : Bool)
          → p r ≡ b
          → All (λ s. P s × (p s ≡ true)) (keep p rs)
          → All (λ s. P s × (p s ≡ true)) (if b then r ∷ keep p rs else keep p rs)
      choose true e ih = ((h.0, e), ih)
      choose false e ih = ih

  All-keep_of : (P : A → Type 0) (p : A → Bool) (rows : List A) → All P rows → All P (keep p rows)
  All-keep_of P p [] h = tt
  All-keep_of P p (r ∷ rs) h = choose (p r) (All-keep_of P p rs h.1)
    where
      choose : (b : Bool) → All P (keep p rs) → All P (if b then r ∷ keep p rs else keep p rs)
      choose true ih = (h.0, ih)
      choose false ih = ih

  -- Whatever holds of every row holds of the rows selected, and the WHERE clause holds there too.
  pub All-select :
      (P : A → Type 0) (p : A → Bool) (before : A → A → Bool) (n : ℕ) (rows : List A)
      → All P rows
      → All (λ r. P r × (p r ≡ true)) (select p before n rows)
  unfolding select
  All-select P p before n rows h =
      All-take (λ r. P r × (p r ≡ true)) n (sort_by before (keep p rows))
        (All-sort_by (λ r. P r × (p r ≡ true)) before (keep p rows) (All-kept P p rows h))

  module _ (R : A → A → Type 0) (symmetric : (r s : A) → R r s → R s r) where
    Pairs-keep : (p : A → Bool) (rows : List A) → Pairs R rows → Pairs R (keep p rows)
    Pairs-keep p [] h = tt
    Pairs-keep p (r ∷ rs) h = choose (p r) (Pairs-keep p rs h.1)
      where
        choose : (b : Bool) → Pairs R (keep p rs) → Pairs R (if b then r ∷ keep p rs else keep p rs)
        choose true ih = (All-keep_of (R r) p rs h.0, ih)
        choose false ih = ih

    Pairs-insert_by :
        (before : A → A → Bool) (a : A) (rows : List A)
        → All (R a) rows
        → Pairs R rows
        → Pairs R (insert_by before a rows)
    unfolding insert_by
    Pairs-insert_by before a [] apart h = (tt, tt)
    Pairs-insert_by before a (r ∷ rs) apart h =
        choose (before r a) (Pairs-insert_by before a rs apart.1 h.1)
      where
        choose :
            (b : Bool)
            → Pairs R (insert_by before a rs)
            → Pairs R (if b then r ∷ insert_by before a rs else a ∷ r ∷ rs)
        choose true ih = (All-insert_by (R r) before a rs (symmetric a r apart.0) h.0, ih)
        choose false ih = (apart, h)

    Pairs-sort_by :
        (before : A → A → Bool) (rows : List A) → Pairs R rows → Pairs R (sort_by before rows)
    unfolding sort_by
    Pairs-sort_by before [] h = tt
    Pairs-sort_by before (r ∷ rs) h =
        Pairs-insert_by before r (sort_by before rs) (All-sort_by (R r) before rs h.0)
          (Pairs-sort_by before rs h.1)

    Pairs-take : (n : ℕ) (rows : List A) → Pairs R rows → Pairs R (take n rows)
    Pairs-take zero rows h = tt
    Pairs-take (suc n) [] h = tt
    Pairs-take (suc n) (r ∷ rs) h = (All-take (R r) n rs h.0, Pairs-take n rs h.1)

    pub Pairs-select :
        (p : A → Bool) (before : A → A → Bool) (n : ℕ) (rows : List A)
        → Pairs R rows
        → Pairs R (select p before n rows)
    unfolding select
    Pairs-select p before n rows h =
        Pairs-take n (sort_by before (keep p rows))
          (Pairs-sort_by before (keep p rows) (Pairs-keep p rows h))
