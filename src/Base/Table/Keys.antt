-- ===== src/Base/Table/Keys.antt =====
-- Rows found by a key, as a primary key or a UNIQUE column finds them.
use public_gbrain_agentos.Base.Tests.{if◌then◌else◌, Bool-cases}
use public_gbrain_agentos.Base.Lists.{All, All-map}
use public_gbrain_agentos.Base.Table.{update_where, delete_where}
use mathlib.Core.Path.{◌≡◌, refl, ap, subst}
use mathlib.Core.Option.{some-injective}
use mathlib.Core.Logic.{◌↔◌, inl, inr}
use mathlib.Core.Bool.{Bool, true, ◌&&◌}
use mathlib.Core.Option.{Option, none, some}
use mathlib.Core.List.{List, [], ◌∷◌, ◌++◌}
use native.Mathlib.Omega.{arith}

pub record Keyed (A K : Type 0) : Type 0 where
  pub key : A → K
  pub same : K → K → Bool
  pub same_iff : (a b : K) → (same a b ≡ true) ↔ (a ≡ b)

-- an UPDATE applied to a row that may not be there
abbrev pub updated : {A : Type 0} → (A → Bool) → (A → A) → Option A → Option A
updated c f none = none
updated c f (some r) = some (if c r then f r else r)

abbrev pub or_else : {A : Type 0} → Option A → Option A → Option A
or_else none o = o
or_else (some a) o = some a

pub or_none : {A : Type 0} (o : Option A) → or_else o none ≡ o
or_none none = refl
or_none (some a) = refl

module _ {A K : Type 0} (d : Keyed A K) where
  -- SELECT … WHERE key = k
  unfoldable pub lookup : K → List A → Option A
  lookup k [] = none
  lookup k (r ∷ rs) = if d.same (d.key r) k then some r else lookup k rs

  -- the rows' keys differ
  abbrev pub Distinct : List A → Type 0
  Distinct [] = Unit
  Distinct (r ∷ rs) = (lookup (d.key r) rs ≡ none) × Distinct rs

  pub lookup-one :
      (r : A) (j : K) → lookup j (r ∷ []) ≡ (if d.same (d.key r) j then some r else none)
  unfolding lookup
  lookup-one r j = refl

  pub lookup-append :
      (k : K) (xs ys : List A) → lookup k (xs ++ ys) ≡ or_else (lookup k xs) (lookup k ys)
  unfolding lookup
  lookup-append k [] ys = refl
  lookup-append k (x ∷ xs) ys = ground (arith, lookup-append k xs ys)

  -- An UPDATE by key changes what is found under that key, if the rest of its WHERE clause
  -- holds there, and nothing else.
  pub lookup-update :
      (k j : K) (c : A → Bool) (f : A → A)
      → ((r : A) → d.key (f r) ≡ d.key r)
      → (rows : List A)
      → lookup j (update_where (λ r. d.same (d.key r) k && c r) f rows)
        ≡ (if d.same k j then updated c f (lookup j rows) else lookup j rows)
  unfolding lookup update_where
  lookup-update k j c f keeps [] = ground arith
  lookup-update k j c f keeps (r ∷ rs) = ground (
    arith,
    keeps r,
    d.same_iff (d.key r) k,
    d.same_iff (d.key r) j,
    d.same_iff k j,
    lookup-update k j c f keeps rs,
  )

  pub lookup-delete :
      (k j : K) (rows : List A)
      → lookup j (delete_where (λ r. d.same (d.key r) k) rows)
        ≡ (if d.same k j then none else lookup j rows)
  unfolding lookup delete_where
  lookup-delete k j [] = ground arith
  lookup-delete k j (r ∷ rs) =
      ground (
        arith,
        d.same_iff (d.key r) k,
        d.same_iff (d.key r) j,
        d.same_iff k j,
        lookup-delete k j rs,
      )

  pub Distinct-delete :
      (k : K) (rows : List A)
      → Distinct rows
      → Distinct (delete_where (λ r. d.same (d.key r) k) rows)
  unfolding delete_where
  Distinct-delete k [] h = tt
  Distinct-delete k (r ∷ rs) h =
      ground (arith, lookup-delete k (d.key r) rs, Distinct-delete k rs h.1)

  -- an UPDATE by a key that no row has
  pub update-missing :
      (k : K) (f : A → A) (rows : List A)
      → lookup k rows ≡ none
      → update_where (λ r. d.same (d.key r) k && true) f rows ≡ rows
  unfolding lookup update_where
  update-missing k f [] h = refl
  update-missing k f (r ∷ rs) h = ground (arith, update-missing k f rs)

  pub lookup-update_none :
      (k : K) (p : A → Bool) (f : A → A)
      → ((r : A) → d.key (f r) ≡ d.key r)
      → (rows : List A) → lookup k rows ≡ none
      → lookup k (update_where p f rows) ≡ none
  unfolding lookup update_where
  lookup-update_none k p f keeps [] h = refl
  lookup-update_none k p f keeps (r ∷ rs) h =
      ground (arith, keeps r, lookup-update_none k p f keeps rs)

  pub Distinct-update :
      (p : A → Bool) (f : A → A)
      → ((r : A) → d.key (f r) ≡ d.key r)
      → (rows : List A) → Distinct rows
      → Distinct (update_where p f rows)
  unfolding update_where
  Distinct-update p f keeps [] h = tt
  Distinct-update p f keeps (r ∷ rs) h = ground (
    arith,
    keeps r,
    lookup-update_none (d.key r) p f keeps rs h.0,
    Distinct-update p f keeps rs h.1,
  )

  pub Distinct-append_one :
      (rows : List A) (r : A)
      → Distinct rows
      → lookup (d.key r) rows ≡ none
      → Distinct (rows ++ r ∷ [])
  unfolding lookup
  Distinct-append_one [] r h new = (refl, tt)
  Distinct-append_one (x ∷ xs) r h new = ground (
    arith,
    Distinct-append_one xs r h.1,
    lookup-append (d.key x) xs (r ∷ []),
    d.same_iff (d.key x) (d.key r),
    d.same_iff (d.key r) (d.key x),
  )

  pub All-lookup :
      (P : A → Type 0) (k : K) (rows : List A) (r : A) → All P rows → lookup k rows ≡ some r → P r
  unfolding lookup
  All-lookup P k [] r h found = absurd (ground arith)
  All-lookup P k (x ∷ xs) r h found = elim (Bool-cases (d.same (d.key x) k)) [
    | inl here ↦ subst P (some-injective x r (ground arith)) h.0
    | inr there ↦ All-lookup P k xs r h.1 (ground arith)
  ]

  pub key-lookup : (k : K) (rows : List A) (r : A) → lookup k rows ≡ some r → d.key r ≡ k
  unfolding lookup
  key-lookup k [] r h = ground arith
  key-lookup k (x ∷ xs) r h = ground (arith, d.same_iff (d.key x) k, key-lookup k xs r)

  lookup-behind :
      (r x : A) (rs : List A)
      → lookup (d.key r) rs ≡ none
      → lookup (d.key x) rs ≡ some x
      → lookup (d.key x) (r ∷ rs) ≡ some x
  unfolding lookup
  lookup-behind r x rs new found =
      ground (arith, d.same_iff (d.key r) (d.key x), ap (λ (k : K). lookup k rs))

  -- Where keys differ, every row is the one found under its key.
  pub lookup_self : (rows : List A) → Distinct rows → All (λ r. lookup (d.key r) rows ≡ some r) rows
  lookup_self [] h = tt
  lookup_self (r ∷ rs) h = (
    unfold lookup in ground (arith, d.same_iff (d.key r) (d.key r)),
    All-map (λ x. lookup (d.key x) rs ≡ some x) (λ x. lookup (d.key x) (r ∷ rs) ≡ some x)
        (λ x found. lookup-behind r x rs h.0 found) rs (lookup_self rs h.1),
  )
