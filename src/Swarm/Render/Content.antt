-- ===== src/Swarm/Render/Content.antt =====
-- Which fields of a payload reach the reader of the letter, and which do not.
use mathlib.Core.List.{append-nil, append_assoc}
use public_gbrain_agentos.Base.{
  ◌≡◌, refl, sym, String, false, ◌||◌, some, List, [], ◌∷◌, ◌++◌, arith, inl, inr, Bool-cases, ◌=ₛ◌,
  eq_iff,
}
use public_gbrain_agentos.Base.Text.{Text, text, join}
use public_gbrain_agentos.Base.Json.{Json, Fields, end, field}
use public_gbrain_agentos.Swarm.Render.{
  Unicode, get, is_skipped, is_blank, render_section, sections, lead, render_payload_body_full,
}

-- `part` stands in `whole`
abbrev pub IsInfix : Text → Text → Type 0
IsInfix part whole = (before : Text) × (after : Text) × (whole ≡ before ++ (part ++ after))

IsInfix-append :
    (part whole front back : Text) → IsInfix part whole → IsInfix part (front ++ (whole ++ back))
IsInfix-append part whole front back (before, after, e) = (
  front ++ before,
  after ++ back,
  rw (e, append_assoc before (part ++ after) back, append_assoc part after back)
      (sym (append_assoc front before (part ++ (after ++ back)))),
)

IsInfix-start : (part back : Text) → IsInfix part (part ++ back)
IsInfix-start part back = ([], back, refl)

IsInfix-behind : (part whole front : Text) → IsInfix part whole → IsInfix part (front ++ whole)
IsInfix-behind part whole front (before, after, e) =
    (front ++ before, after, rw e (sym (append_assoc front before (part ++ after))))

abbrev IsPart : Text → List Text → Type 0
IsPart part parts = (front : List Text) × (back : List Text) × (parts ≡ front ++ part ∷ back)

join-IsInfix :
    (sep part : Text) (front back : List Text) → IsInfix part (join sep (front ++ part ∷ back))
unfolding join
join-IsInfix sep part [] [] = ([], [], sym (append-nil part))
join-IsInfix sep part [] (q ∷ back) = IsInfix-start part _
join-IsInfix sep part (p ∷ []) back =
    IsInfix-behind part _ p (IsInfix-behind part _ sep (join-IsInfix sep part [] back))
join-IsInfix sep part (p ∷ q ∷ front) back =
    IsInfix-behind part _ p (IsInfix-behind part _ sep (join-IsInfix sep part (q ∷ front) back))

module _ (u : Unicode) where
  sections-IsPart :
      (payload : Fields) (key : String) (value : Json)
      → get key payload ≡ some value
      → is_skipped key ≡ false
      → is_blank value ≡ false
      → IsPart (render_section u key value) (sections u payload)
  unfolding get sections
  sections-IsPart end key value found kept solid = absurd (ground arith)
  sections-IsPart (field k v fields) key value found kept solid = elim (Bool-cases (k =ₛ key)) [
    | inl here ↦
        let same_key : k ≡ key = ground (arith, eq_iff k key) in
        let same_value : v ≡ value = ground arith in
        ([], sections u fields, rw (same_key, same_value, kept, solid) refl)
    | inr there ↦
        let (front, back, e) = sections-IsPart fields key value (ground arith) kept solid in
        elim (Bool-cases (is_skipped k || is_blank v)) [
          | inl skipped ↦ (front, back, rw skipped e)
          | inr shown ↦ (render_section u k v ∷ front, back, rw (shown, e) refl)
        ]
  ]

  -- Every field that is neither reserved (by name or by a leading underscore) nor blank has its
  -- section in the rendered payload.
  pub section-IsInfix :
      (payload : Fields) (key : String) (value : Json)
      → get key payload ≡ some value
      → is_skipped key ≡ false
      → is_blank value ≡ false
      → IsInfix (render_section u key value) (render_payload_body_full u payload)
  unfolding render_payload_body_full
  section-IsInfix payload key value found kept solid =
      let (front, back, e) = sections-IsPart payload key value found kept solid in
      rw (e, sym (append_assoc (lead payload) front (render_section u key value ∷ back)))
        (join-IsInfix (text "\n\n") (render_section u key value) (lead payload ++ front) back)
