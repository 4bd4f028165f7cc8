-- ===== src/Memory/Notes/Slug.antt =====
-- _slugify of services/memory_mcp/tools.py.
use public_gbrain_agentos.Base.{
  ℕ, ◌≡◌, ◌≤◌, refl, Bool, true, false, ◌||◌, [], ◌∷◌, arith, All, All-take, length, length-take,
  take, ◌==◌, Bool-cases, inl, inr, if◌then◌else◌,
}
use mathlib.Core.List.{reverse_aux}
use public_gbrain_agentos.Base.Text.{Text, is_empty}
use public_gbrain_agentos.Memory.Service.{Setting}
use public_gbrain_agentos.Memory.Notes.{
  slugify, is_slug_char, dash_runs, strip_dashes, strip_dashes_left, transliterate, max_slug_length,
}

-- what a slug is made of
abbrev pub is_slug_or_dash : ℕ → Bool
is_slug_or_dash c = is_slug_char c || c == b'-'

abbrev pub Slugs : Text → Type 0
Slugs s = All (λ c. is_slug_or_dash c ≡ true) s

reverse_aux-Slugs : (xs ys : Text) → Slugs xs → Slugs ys → Slugs (reverse_aux xs ys)
reverse_aux-Slugs [] ys h k = k
reverse_aux-Slugs (x ∷ xs) ys h k = reverse_aux-Slugs xs (x ∷ ys) h.1 (h.0, k)

dash_runs-Slugs : (within : Bool) (s : Text) → Slugs (dash_runs within s)
unfolding dash_runs
dash_runs-Slugs within [] = tt
dash_runs-Slugs within (c ∷ s) = elim (Bool-cases (is_slug_char c)) [
  | inl fine ↦ rw fine (rw fine refl, dash_runs-Slugs false s)
  | inr other ↦ rw other (after within (dash_runs-Slugs true s))
]
  where
    after :
        (b : Bool)
        → Slugs (dash_runs true s)
        → Slugs (if b then dash_runs true s else b'-' ∷ dash_runs true s)
    after true h = h
    after false h = (unfold is_slug_char in refl, h)

left-Slugs : (s : Text) → Slugs s → Slugs (strip_dashes_left s)
unfolding strip_dashes_left
left-Slugs [] h = tt
left-Slugs (c ∷ s) h = elim (Bool-cases (c == b'-')) [
  | inl dash ↦ rw dash (left-Slugs s h.1)
  | inr kept ↦ rw kept h
]

strip-Slugs : (s : Text) → Slugs s → Slugs (strip_dashes s)
unfolding strip_dashes
strip-Slugs s h =
    reverse_aux-Slugs _ [] (left-Slugs _ (reverse_aux-Slugs _ [] (left-Slugs s h) tt)) tt

-- A slug is never empty, has at most 60 characters, and holds only the letters a to z, digits and
-- dashes, whatever the title is; where nothing of the title is left, it is made of the digest,
-- which is of such characters.
pub slugify_lem :
    (s : Setting) (title : Text)
    → Slugs (s.sha256 title)
    → (is_empty (slugify s title) ≡ false)
      × (length (slugify s title) ≤ 60)
      × Slugs (slugify s title)
unfolding slugify
slugify_lem s title digits =
    go (strip_dashes (dash_runs false (transliterate (s.lower title))))
      (strip-Slugs _ (dash_runs-Slugs false (transliterate (s.lower title))))
  where
    go :
        (base : Text)
        → Slugs base
        → let r =
            if is_empty base then b'n' ∷ take 8 (s.sha256 title) else take max_slug_length base in
          (is_empty r ≡ false) × (length r ≤ 60) × Slugs r
    go [] h = (
      refl,
      omega (arith, length-take 8 (s.sha256 title)),
      (
        unfold is_slug_char in refl,
        All-take (λ c. is_slug_or_dash c ≡ true) 8 (s.sha256 title) digits,
      ),
    )
    go (c ∷ base) h = (
      refl,
      omega (arith, length-take 59 base),
      (h.0, All-take (λ c. is_slug_or_dash c ≡ true) 59 base h.1),
    )
