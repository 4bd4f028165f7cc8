-- ===== src/Memory/Similar/Partition.antt =====
-- What find_supersession_candidates of services/memory_mcp/jaccard.py finds.
use public_gbrain_agentos.Base.{
  ◌≡◌, refl, Bool, true, false, not, ◌&&◌, List, [], ◌∷◌, ◌++◌, map, keep, arith, All, All-map,
  Bool-cases, inl, inr,
}
use mathlib.Core.List.{Perm, perm_middle}
use mathlib.Core.List.Perm
use public_gbrain_agentos.Base.Text.{Text}
use public_gbrain_agentos.Base.Table.{sort_by, All-sort_by}
use public_gbrain_agentos.Base.Table.Order.{IsOrdered, sort_by-perm, sort_by-IsOrdered}
use public_gbrain_agentos.Memory.Similar.{
  Floats, Alphabet, Candidate, Decision, score, is_auto, is_hint, partition, higher_first,
  find_supersession_candidates,
}

keep-All : {A : Type 0} (p : A → Bool) (xs : List A) → All (λ x. p x ≡ true) (keep p xs)
keep-All p [] = tt
keep-All p (x ∷ xs) = elim (Bool-cases (p x)) [
  | inl here ↦ rw here (here, keep-All p xs)
  | inr gone ↦ rw gone (keep-All p xs)
]

-- Two disjoint tests and what neither keeps: a list is a rearrangement of the three parts.
module _ {A : Type 0} (p q : A → Bool) (disjoint : (x : A) → p x ≡ true → q x ≡ false) where
  abbrev neither : A → Bool
  neither x = not (p x) && not (q x)

  keep-perm : (xs : List A) → Perm (keep p xs ++ keep q xs ++ keep neither xs) xs
  keep-perm [] = Perm.refl []
  keep-perm (x ∷ xs) = elim (Bool-cases (p x)) [
    | inl first ↦ rw (first, disjoint x first) (Perm.cons x (keep-perm xs))
    | inr out ↦ elim (Bool-cases (q x)) [
      | inl second ↦
          rw (out, second)
            (Perm.trans (Perm.append_right (keep neither xs) (perm_middle (keep p xs) (keep q xs)))
              (Perm.cons x (keep-perm xs)))
      | inr last ↦
          rw (out, last)
            (Perm.trans (perm_middle (keep p xs ++ keep q xs) (keep neither xs))
              (Perm.cons x (keep-perm xs)))
    ]
  ]

-- `less` orders the floats, NaN left out: it goes one way at most, and what is not less than a
-- number is not less than a number below it.
pub record IsOrder (F : Floats) : Type 0 where
  pub one_way : (x y : F.Float) → F.less x y ≡ true → F.less y x ≡ false
  pub negative : (x y z : F.Float) → F.less x y ≡ false → F.less y z ≡ false → F.less x z ≡ false

module _ (F : Floats) where
  -- no decision is more similar than one that stands before it
  abbrev pub MostSimilarFirst : List (Candidate F) → Type 0
  MostSimilarFirst [] = Unit
  MostSimilarFirst (c ∷ cs) = All (λ d. F.less c.jaccard d.jaccard ≡ false) cs × MostSimilarFirst cs

module _ (F : Floats) (auto hint : F.Float) where
  -- under a positive auto threshold, if that is positive
  abbrev pub IsBelowAuto : Candidate F → Type 0
  IsBelowAuto c = F.less (F.divide 0 1) auto ≡ true → F.less c.jaccard auto ≡ true

  -- which decisions to close, which to name as a hint, and which to leave out
  pub record IsSplit (scores closing hinted : List (Candidate F)) : Type 0 where
    pub left : List (Candidate F)
    pub complete : Perm (closing ++ hinted ++ left) scores
    pub to_close :
        All (λ c. (F.less (F.divide 0 1) auto ≡ true) × (F.less c.jaccard auto ≡ false)) closing
    pub to_hint : All (λ c. (F.less c.jaccard hint ≡ false) × IsBelowAuto c) hinted
    pub left_out : All (λ c. (F.less c.jaccard hint ≡ true) × IsBelowAuto c) left

  partition_lem :
      (cs : List (Candidate F))
      → partition F auto hint cs ≡ (keep (is_auto F auto) cs, keep (is_hint F auto hint) cs)
  unfolding partition
  partition_lem [] = refl
  partition_lem (c ∷ cs) = ground (arith, partition_lem cs)

  disjoint : (c : Candidate F) → is_auto F auto c ≡ true → is_hint F auto hint c ≡ false
  disjoint c h = ground (arith, h)

  partition-IsSplit :
      (cs : List (Candidate F))
      → IsSplit cs
          (sort_by (higher_first F) (keep (is_auto F auto) cs))
          (sort_by (higher_first F) (keep (is_hint F auto hint) cs))
  partition-IsSplit cs =
      let rest = neither (is_auto F auto) (is_hint F auto hint) disjoint in
      record {
        left = keep rest cs;
        complete =
            Perm.trans
              (Perm.append_right (keep rest cs) (
                Perm.append (sort_by-perm (higher_first F) (keep (is_auto F auto) cs))
                  (sort_by-perm (higher_first F) (keep (is_hint F auto hint) cs))))
              (keep-perm (is_auto F auto) (is_hint F auto hint) disjoint cs);
        to_close = All-sort_by _ (higher_first F) (keep (is_auto F auto) cs) (
            All-map (λ c. is_auto F auto c ≡ true) _ (λ c k. (ground (arith, k), ground (arith, k)))
              (keep (is_auto F auto) cs) (keep-All (is_auto F auto) cs));
        to_hint = All-sort_by _ (higher_first F) (keep (is_hint F auto hint) cs) (
            All-map (λ c. is_hint F auto hint c ≡ true) _
              (λ c k. (ground (arith, k), λ positive. ground (arith, k, positive)))
              (keep (is_hint F auto hint) cs) (keep-All (is_hint F auto hint) cs));
        left_out =
            All-map (λ c. rest c ≡ true) _
              (λ c k. (ground (arith, k), λ positive. ground (arith, k, positive))) (keep rest cs)
              (keep-All rest cs);
      }

  module _ (order : IsOrder F) where
    descending : (cs : List (Candidate F)) → IsOrdered (higher_first F) cs → MostSimilarFirst F cs
    descending [] h = tt
    descending (c ∷ cs) h = (
      All-map (λ d. higher_first F c d ≡ true) _ (λ d k. ground (arith, k)) cs h.0,
      descending cs h.1,
    )

    sorted : (cs : List (Candidate F)) → MostSimilarFirst F (sort_by (higher_first F) cs)
    sorted cs = descending (sort_by (higher_first F) cs) (
        sort_by-IsOrdered (higher_first F)
          (λ r s h. ground (arith, order.one_way r.jaccard s.jaccard))
          (λ r s t h k. ground (arith, order.negative r.jaccard s.jaccard t.jaccard)) cs)

    -- If `less` orders the scores, then the scored decisions are split into three lists: those to
    -- close reach a positive auto threshold; those to hint at reach the hint threshold, and those
    -- left out do not, and both are below the auto threshold if that is positive. No decision is
    -- lost or doubled, and the two lists that are returned have the most similar decisions first.
    pub find_supersession_candidates_lem :
        (alphabet : Alphabet) (tokens : List Text) (rows : List Decision)
        → let found = find_supersession_candidates F alphabet tokens rows auto hint in
          IsSplit (map (score F alphabet tokens) rows) found.0 found.1
          × MostSimilarFirst F found.0
          × MostSimilarFirst F found.1
    unfolding find_supersession_candidates
    find_supersession_candidates_lem alphabet tokens rows =
        let scores = map (score F alphabet tokens) rows in
        rw (partition_lem scores) (
          partition-IsSplit scores,
          sorted (keep (is_auto F auto) scores),
          sorted (keep (is_hint F auto hint) scores),
        )
