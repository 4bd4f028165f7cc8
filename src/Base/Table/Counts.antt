-- ===== src/Base/Table/Counts.antt =====
-- How many rows a query takes: row counts, and the length of what a SELECT returns.
use public_gbrain_agentos.Base.Tests.{ltb}
use public_gbrain_agentos.Base.Lists.{keep, length, length-take}
use public_gbrain_agentos.Base.Table.{insert_by, sort_by, select, count_where}
use public_gbrain_agentos.Base.Table.Order.{IsOrdered, sort_by-IsOrdered, IsOrdered-take}
use public_gbrain_agentos.Base.Table.Keys.{Keyed, lookup, Distinct}
use Prim.Native.Nat.{ℕ, suc, min}
use mathlib.Core.Path.{◌≡◌, refl}
use mathlib.Core.Bool.{Bool, true, false, ◌&&◌}
use mathlib.Core.Option.{Option, none, some}
use mathlib.Core.List.{List, [], ◌∷◌}
use native.Mathlib.Omega.{arith}

module _ {A : Type 0} where
  length-keep : (p : A → Bool) (rows : List A) → length (keep p rows) ≡ count_where p rows
  unfolding count_where
  length-keep p [] = refl
  length-keep p (r ∷ rs) = ground (arith, length-keep p rs)

  length-insert_by :
      (before : A → A → Bool) (a : A) (rows : List A)
      → length (insert_by before a rows) ≡ suc (length rows)
  unfolding insert_by
  length-insert_by before a [] = refl
  length-insert_by before a (r ∷ rs) = ground (arith, length-insert_by before a rs)

  length-sort_by :
      (before : A → A → Bool) (rows : List A) → length (sort_by before rows) ≡ length rows
  unfolding sort_by
  length-sort_by before [] = refl
  length-sort_by before (r ∷ rs) =
      omega (arith, length-insert_by before r (sort_by before rs), length-sort_by before rs)

  -- LIMIT only cuts where there are more rows than it allows.
  pub length-select :
      (p : A → Bool) (before : A → A → Bool) (n : ℕ) (rows : List A)
      → length (select p before n rows) ≡ min n (count_where p rows)
  unfolding select
  length-select p before n rows =
      rw
        (
          length-take n (sort_by before (keep p rows)),
          length-sort_by before (keep p rows),
          length-keep p rows,
        )
        refl

  pub select-IsOrdered :
      (before : A → A → Bool)
      → ((r s : A) → before r s ≡ false → before s r ≡ true)
      → ((r s t : A) → before r s ≡ true → before s t ≡ true → before r t ≡ true)
      → (p : A → Bool) (n : ℕ) (rows : List A) → IsOrdered before (select p before n rows)
  unfolding select
  select-IsOrdered before total transitive p n rows =
      IsOrdered-take before n (sort_by before (keep p rows))
        (sort_by-IsOrdered before total transitive (keep p rows))

abbrev pub test : {A : Type 0} → (A → Bool) → Option A → Bool
test c none = false
test c (some r) = c r

module _ {A K : Type 0} (d : Keyed A K) where
  count_none :
      (k : K) (c : A → Bool) (rows : List A)
      → lookup d k rows ≡ none
      → count_where (λ r. d.same (d.key r) k && c r) rows ≡ 0
  unfolding lookup count_where
  count_none k c [] h = refl
  count_none k c (r ∷ rs) h = ground (arith, count_none k c rs)

  -- An UPDATE by a key takes a row exactly where the row under that key passes the other tests.
  pub count_by_key :
      (k : K) (c : A → Bool) (rows : List A)
      → Distinct d rows
      → ltb 0 (count_where (λ r. d.same (d.key r) k && c r) rows) ≡ test c (lookup d k rows)
  unfolding lookup count_where
  count_by_key k c [] h = refl
  count_by_key k c (r ∷ rs) h =
      ground (arith, d.same_iff (d.key r) k, count_none (d.key r) c rs h.0, count_by_key k c rs h.1)
