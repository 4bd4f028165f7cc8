-- ===== src/Base/Table/Order.antt =====
-- ORDER BY and LIMIT: what a SELECT returns is sorted, and is a rearrangement of what it matched.
use public_gbrain_agentos.Base.Tests.{if◌then◌else◌}
use public_gbrain_agentos.Base.Lists.{All, take}
use public_gbrain_agentos.Base.Table.{insert_by, sort_by, All-insert_by}
use Prim.Native.Nat.{ℕ, zero, suc}
use mathlib.Core.Path.{◌≡◌, refl}
use mathlib.Core.Bool.{Bool, true, false}
use mathlib.Core.List.{List, [], ◌∷◌, Perm}
use mathlib.Core.List.Perm

module _ {A : Type 0} (before : A → A → Bool) where
  -- every row may stand in front of all that follow it
  abbrev pub IsOrdered : List A → Type 0
  IsOrdered [] = Unit
  IsOrdered (r ∷ rs) = All (λ s. before r s ≡ true) rs × IsOrdered rs

  pub insert_by-perm : (a : A) (rows : List A) → Perm (insert_by before a rows) (a ∷ rows)
  unfolding insert_by
  insert_by-perm a [] = Perm.refl (a ∷ [])
  insert_by-perm a (r ∷ rs) = choose (before r a) (insert_by-perm a rs)
    where
      choose :
          (b : Bool)
          → Perm (insert_by before a rs) (a ∷ rs)
          → Perm (if b then r ∷ insert_by before a rs else a ∷ r ∷ rs) (a ∷ r ∷ rs)
      choose true ih = Perm.trans (Perm.cons r ih) (Perm.swap a r rs)
      choose false ih = Perm.refl (a ∷ r ∷ rs)

  pub sort_by-perm : (rows : List A) → Perm (sort_by before rows) rows
  unfolding sort_by
  sort_by-perm [] = Perm.refl []
  sort_by-perm (r ∷ rs) =
      Perm.trans (insert_by-perm r (sort_by before rs)) (Perm.cons r (sort_by-perm rs))

  pub IsOrdered-take : (n : ℕ) (rows : List A) → IsOrdered rows → IsOrdered (take n rows)
  IsOrdered-take zero rows h = tt
  IsOrdered-take (suc n) [] h = tt
  IsOrdered-take (suc n) (r ∷ rs) h = (before-take n rs h.0, IsOrdered-take n rs h.1)
    where
      before-take :
          (m : ℕ) (ts : List A)
          → All (λ t. before r t ≡ true) ts
          → All (λ t. before r t ≡ true) (take m ts)
      before-take zero ts k = tt
      before-take (suc m) [] k = tt
      before-take (suc m) (t ∷ ts) k = (k.0, before-take m ts k.1)

module _ {A : Type 0} (before : A → A → Bool)
    (total : (r s : A) → before r s ≡ false → before s r ≡ true)
    (transitive : (r s t : A) → before r s ≡ true → before s t ≡ true → before r t ≡ true) where
  All-before :
      (r s : A) (rows : List A)
      → before r s ≡ true
      → All (λ t. before s t ≡ true) rows
      → All (λ t. before r t ≡ true) rows
  All-before r s [] h k = tt
  All-before r s (t ∷ ts) h k = (transitive r s t h k.0, All-before r s ts h k.1)

  insert_by-IsOrdered :
      (a : A) (rows : List A) → IsOrdered before rows → IsOrdered before (insert_by before a rows)
  unfolding insert_by
  insert_by-IsOrdered a [] h = (tt, tt)
  insert_by-IsOrdered a (r ∷ rs) h = choose (before r a) refl (insert_by-IsOrdered a rs h.1)
    where
      choose :
          (b : Bool)
          → before r a ≡ b
          → IsOrdered before (insert_by before a rs)
          → IsOrdered before (if b then r ∷ insert_by before a rs else a ∷ r ∷ rs)
      choose true e ih = (All-insert_by (λ t. before r t ≡ true) before a rs e h.0, ih)
      choose false e ih = ((total r a e, All-before a r rs (total r a e) h.0), h)

  pub sort_by-IsOrdered : (rows : List A) → IsOrdered before (sort_by before rows)
  unfolding sort_by
  sort_by-IsOrdered [] = tt
  sort_by-IsOrdered (r ∷ rs) = insert_by-IsOrdered r (sort_by before rs) (sort_by-IsOrdered rs)
