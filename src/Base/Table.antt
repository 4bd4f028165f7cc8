-- ===== src/Base/Table.antt =====
-- SQL tables as lists of rows in insertion order, and the queries that the services run on them.
pub mod Keys
pub mod Order
pub mod Subsets
pub mod Counts
use public_gbrain_agentos.Base.Tests.{if◌then◌else◌}
use public_gbrain_agentos.Base.Lists.{All, keep, take}
use Prim.Native.Nat.{ℕ, suc}
use mathlib.Core.Path.{◌≡◌, refl}
use mathlib.Core.Bool.{Bool, true, false}
use mathlib.Core.List.{List, [], ◌∷◌}

module _ {A : Type 0} where
  -- UPDATE … SET f WHERE p
  unfoldable pub update_where : (A → Bool) → (A → A) → List A → List A
  update_where p f [] = []
  update_where p f (r ∷ rs) = (if p r then f r else r) ∷ update_where p f rs

  -- DELETE FROM … WHERE p
  unfoldable pub delete_where : (A → Bool) → List A → List A
  delete_where p [] = []
  delete_where p (r ∷ rs) = let rest = delete_where p rs in if p r then rest else r ∷ rest

  -- the row count in the command tag that an UPDATE returns
  unfoldable pub count_where : (A → Bool) → List A → ℕ
  count_where p [] = 0
  count_where p (r ∷ rs) = let n = count_where p rs in if p r then suc n else n

  unfoldable pub insert_by : (A → A → Bool) → A → List A → List A
  insert_by before a [] = a ∷ []
  insert_by before a (r ∷ rs) =
      let rest = insert_by before a rs in if before r a then r ∷ rest else a ∷ r ∷ rs

  -- ORDER BY: `before r s` says that `r` may stand in front of `s`; rows that tie keep their order
  unfoldable pub sort_by : (A → A → Bool) → List A → List A
  unfolding insert_by
  sort_by before [] = []
  sort_by before (r ∷ rs) = insert_by before r (sort_by before rs)

  -- SELECT … WHERE p ORDER BY … LIMIT n
  unfoldable pub select : (A → Bool) → (A → A → Bool) → ℕ → List A → List A
  unfolding sort_by
  select p before n rows = take n (sort_by before (keep p rows))

  -- Row by row: an UPDATE relates each row to the one that stands in its place.
  abbrev pub Pointwise : (A → A → Type 0) → List A → List A → Type 0
  Pointwise R [] [] = Unit
  Pointwise R [] (s ∷ ss) = ⊥
  Pointwise R (r ∷ rs) [] = ⊥
  Pointwise R (r ∷ rs) (s ∷ ss) = R r s × Pointwise R rs ss

module _ {A : Type 0} (R : A → A → Type 0) where
  pub Pointwise-refl : ((r : A) → R r r) → (rows : List A) → Pointwise R rows rows
  Pointwise-refl same [] = tt
  Pointwise-refl same (r ∷ rs) = (same r, Pointwise-refl same rs)

  pub Pointwise-trans :
      ((r s t : A) → R r s → R s t → R r t)
      → (xs ys zs : List A) → Pointwise R xs ys
      → Pointwise R ys zs
      → Pointwise R xs zs
  Pointwise-trans step [] [] [] h k = tt
  Pointwise-trans step [] [] (z ∷ zs) h k = absurd k
  Pointwise-trans step [] (y ∷ ys) zs h k = absurd h
  Pointwise-trans step (x ∷ xs) [] zs h k = absurd h
  Pointwise-trans step (x ∷ xs) (y ∷ ys) [] h k = absurd k
  Pointwise-trans step (x ∷ xs) (y ∷ ys) (z ∷ zs) h k =
      (step x y z h.0 k.0, Pointwise-trans step xs ys zs h.1 k.1)

  -- Where each row that the WHERE clause takes may become its update, the table may.
  pub Pointwise-update :
      (p : A → Bool) (f : A → A)
      → ((r : A) → R r r)
      → (rows : List A) → All (λ r. p r ≡ true → R r (f r)) rows
      → Pointwise R rows (update_where p f rows)
  unfolding update_where
  Pointwise-update p f same [] h = tt
  Pointwise-update p f same (r ∷ rs) h = (choose (p r) h.0, Pointwise-update p f same rs h.1)
    where
      choose : (b : Bool) → (b ≡ true → R r (f r)) → R r (if b then f r else r)
      choose true k = k refl
      choose false k = same r

  pub Pointwise-map :
      (S : A → A → Type 0)
      → ((r s : A) → R r s → S r s)
      → (xs ys : List A) → Pointwise R xs ys
      → Pointwise S xs ys
  Pointwise-map S step [] [] h = tt
  Pointwise-map S step [] (y ∷ ys) h = absurd h
  Pointwise-map S step (x ∷ xs) [] h = absurd h
  Pointwise-map S step (x ∷ xs) (y ∷ ys) h = (step x y h.0, Pointwise-map S step xs ys h.1)

module _ {A : Type 0} where
  pub All-true : (P : A → Type 0) → ((a : A) → P a) → (rows : List A) → All P rows
  All-true P h [] = tt
  All-true P h (r ∷ rs) = (h r, All-true P h rs)

  pub All-update :
      (P : A → Type 0) (p : A → Bool) (f : A → A)
      → ((r : A) → P r → p r ≡ true → P (f r))
      → (rows : List A) → All P rows
      → All P (update_where p f rows)
  unfolding update_where
  All-update P p f step [] h = tt
  All-update P p f step (r ∷ rs) h = (choose (p r) refl, All-update P p f step rs h.1)
    where
      choose : (b : Bool) → p r ≡ b → P (if b then f r else r)
      choose true e = step r h.0 e
      choose false e = h.0

  pub All-delete :
      (P : A → Type 0) (p : A → Bool) (rows : List A) → All P rows → All P (delete_where p rows)
  unfolding delete_where
  All-delete P p [] h = tt
  All-delete P p (r ∷ rs) h = choose (p r) (All-delete P p rs h.1)
    where
      choose :
          (b : Bool)
          → All P (delete_where p rs)
          → All P (if b then delete_where p rs else r ∷ delete_where p rs)
      choose true ih = ih
      choose false ih = (h.0, ih)

  -- The same where the rows end up with another property.
  pub All-update_to :
      (P Q : A → Type 0) (p : A → Bool) (f : A → A)
      → ((r : A) → P r → p r ≡ true → Q (f r))
      → ((r : A) → P r → p r ≡ false → Q r)
      → (rows : List A) → All P rows
      → All Q (update_where p f rows)
  unfolding update_where
  All-update_to P Q p f step keeps [] h = tt
  All-update_to P Q p f step keeps (r ∷ rs) h =
      (choose (p r) refl, All-update_to P Q p f step keeps rs h.1)
    where
      choose : (b : Bool) → p r ≡ b → Q (if b then f r else r)
      choose true e = step r h.0 e
      choose false e = keeps r h.0 e

  pub All-keep :
      (P : A → Type 0) (p : A → Bool)
      → ((r : A) → p r ≡ true → P r)
      → (rows : List A) → All P (keep p rows)
  All-keep P p h [] = tt
  All-keep P p h (r ∷ rs) = choose (p r) refl (All-keep P p h rs)
    where
      choose :
          (b : Bool) → p r ≡ b → All P (keep p rs) → All P (if b then r ∷ keep p rs else keep p rs)
      choose true e ih = (h r e, ih)
      choose false e ih = ih

  pub All-insert_by :
      (P : A → Type 0) (before : A → A → Bool) (a : A) (rows : List A)
      → P a
      → All P rows
      → All P (insert_by before a rows)
  unfolding insert_by
  All-insert_by P before a [] pa h = (pa, tt)
  All-insert_by P before a (r ∷ rs) pa h = choose (before r a) (All-insert_by P before a rs pa h.1)
    where
      choose :
          (b : Bool)
          → All P (insert_by before a rs)
          → All P (if b then r ∷ insert_by before a rs else a ∷ r ∷ rs)
      choose true ih = (h.0, ih)
      choose false ih = (pa, h)

  pub All-sort_by :
      (P : A → Type 0) (before : A → A → Bool) (rows : List A)
      → All P rows
      → All P (sort_by before rows)
  unfolding sort_by
  All-sort_by P before [] h = tt
  All-sort_by P before (r ∷ rs) h =
      All-insert_by P before r (sort_by before rs) h.0 (All-sort_by P before rs h.1)
