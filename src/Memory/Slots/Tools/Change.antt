-- ===== src/Memory/Slots/Tools/Change.antt =====
-- How a slot tool changes the table.
use public_gbrain_agentos.Base.{
  is_ok, ℕ, ◌≤◌, ◌≡◌, refl, String, Bool, true, false, ◌&&◌, Option, none, some, List, [], ◌∷◌,
  ◌++◌, arith, inl, inr, Option-cases, length, Result, ok, Result-cases,
}
use mathlib.Core.Option
use public_gbrain_agentos.Base.Int.{ℤ, pos, negsuc}
use public_gbrain_agentos.Base.Text.{Text, utf8}
use public_gbrain_agentos.Base.Json.{Fields}
use public_gbrain_agentos.Base.Table.{update_where, delete_where}
use public_gbrain_agentos.Base.Table.Keys.{lookup}
use public_gbrain_agentos.Memory.Service.{Service, Slot, Setting, logged, by_owner, same_owner}
use public_gbrain_agentos.Memory.Slots.{
  SlotError, is_label, validate_slot_limits, assert_slot_size, max_hard_cap, rejected, accepted,
}
use public_gbrain_agentos.Memory.Slots.Tools.{
  append_row, replace_row, delete_row, insert_slot, create_sized, appended_to, set_content,
  write_content,
}

-- the CHECK constraints of the table
pub record IsFit (r : Slot) : Type 0 where
  pub labelled : is_label r.label ≡ true
  pub positive : 1 ≤ r.size_limit
  pub capped : r.size_limit ≤ r.hard_cap
  pub bounded : r.hard_cap ≤ max_hard_cap
  pub sized : length (utf8 r.content) ≤ r.size_limit

-- the content of a slot
abbrev pub content_at : String × Text → List Slot → Option Text
content_at k rows = Option.map (λ r. r.content) (lookup by_owner k rows)

-- what each tool makes of the content that is there, or `none` where it must be refused
abbrev pub creating : Text → Option Text → Option (Option Text)
creating body none = some (some body)
creating body (some old) = none

abbrev pub appending : Text → Option Text → Option (Option Text)
appending added none = none
appending added (some old) = some (some (appended_to old added))

abbrev pub replacing : Text → Option Text → Option (Option Text)
replacing body none = none
replacing body (some old) = some (some body)

abbrev pub deleting : Option Text → Option (Option Text)
deleting none = none
deleting (some old) = some none

-- A tool that works on the slot `k` is refused, or gives it the content `f` of its old one. The
-- Boolean tells whether the tool returned.
pub data Change (k : String × Text) (f : Option Text → Option (Option Text)) (rows : List Slot)
    : Bool → List Slot → Type 0 where
  refused : Change k f rows false rows
  kept : f (content_at k rows) ≡ some (content_at k rows) → Change k f rows true rows
  inserted :
      (row : Slot)
      → (row.agent, row.label) ≡ k
      → IsFit row
      → lookup by_owner k rows ≡ none
      → f none ≡ some (some row.content)
      → Change k f rows true (rows ++ row ∷ [])
  written :
      (now : ℕ) (content : Text) (row : Slot)
      → lookup by_owner k rows ≡ some row
      → length (utf8 content) ≤ row.size_limit
      → f (some row.content) ≡ some (some content)
      → Change k f rows true (
          update_where
            (λ r. same_owner (r.agent, r.label) k && true)
            (set_content now content)
            rows)
  deleted :
      (row : Slot)
      → lookup by_owner k rows ≡ some row
      → f (some row.content) ≡ some none
      → Change k f rows true (delete_where (λ r. same_owner (r.agent, r.label) k) rows)

pub logged-slots :
    (s : Setting) (agent tool : String) (args : Fields) (status : String) (error : Option String)
    (w : Service)
    → (logged s agent tool args status error w).slots ≡ w.slots
unfolding logged
logged-slots s agent tool args status error w = refl

size_fits :
    (content : Text) (size_limit hard_cap : ℕ) (u : Unit {0})
    → assert_slot_size content size_limit hard_cap ≡ ok u
    → length (utf8 content) ≤ size_limit
unfolding assert_slot_size
size_fits content size_limit hard_cap u h = ground arith

pub valid_limits :
    (size_limit hard_cap : ℤ) (low high : ℕ)
    → validate_slot_limits size_limit hard_cap ≡ ok (low, high)
    → (1 ≤ low) × (low ≤ high) × (high ≤ max_hard_cap)
unfolding validate_slot_limits
valid_limits (pos a) (pos b) low high h = (ground arith, ground arith, ground arith)
valid_limits (pos a) (negsuc b) low high h = absurd (ground arith)
valid_limits (negsuc a) b low high h = absurd (ground arith)

module _ (s : Setting) (agent : String) (label : Text) (w : Service) where
  abbrev Effect :
      {A : Type 0} → (Option Text → Option (Option Text)) → Result SlotError A × Service → Type 0
  Effect f (r, after) = Change (agent, label) f w.slots (is_ok r) after.slots

  -- a write of a content that is checked against the limits of the row that is there
  written-Change :
      (f : Option Text → Option (Option Text)) (content : Text) (row : Slot) (u : Unit {0})
      → lookup by_owner (agent, label) w.slots ≡ some row
      → assert_slot_size content row.size_limit row.hard_cap ≡ ok u
      → f (some row.content) ≡ some (some content)
      → Change (agent, label) f w.slots true (write_content s agent label content w.slots)
  unfolding write_content
  written-Change f content row u found fits spec =
      written s.now content row found (size_fits content row.size_limit row.hard_cap u fits) spec

  pub append-Change : (added : Text) → Effect (appending added) (append_row s agent label added w)
  unfolding append_row rejected accepted logged
  append-Change added = elim (Option-cases (lookup by_owner (agent, label) w.slots)) [
    | inl new ↦ rw (new, append_row) refused
    | inr (row, found) ↦
        let content = appended_to row.content added in
        elim (Result-cases (assert_slot_size content row.size_limit row.hard_cap)) [
          | inl (e, large) ↦ rw (found, append_row, large) refused
          | inr (u, fits) ↦
              rw (found, append_row, fits)
                (written-Change (appending added) content row u found fits refl)
        ]
  ]

  pub replace-Change : (body : Text) → Effect (replacing body) (replace_row s agent label body w)
  unfolding replace_row rejected accepted logged
  replace-Change body = elim (Option-cases (lookup by_owner (agent, label) w.slots)) [
    | inl new ↦ rw (new, replace_row) refused
    | inr (row, found) ↦ elim (Result-cases (assert_slot_size body row.size_limit row.hard_cap)) [
      | inl (e, large) ↦ rw (found, replace_row, large) refused
      | inr (u, fits) ↦
          rw (found, replace_row, fits) (written-Change (replacing body) body row u found fits refl)
    ]
  ]

  pub delete-Change : Effect deleting (delete_row s agent label w)
  unfolding delete_row rejected logged
  delete-Change = elim (Option-cases (lookup by_owner (agent, label) w.slots)) [
    | inl new ↦ rw (new, delete_row) refused
    | inr (row, found) ↦ rw (found, delete_row) (deleted row found refl)
  ]

  pub create-Change :
      (body : Text) (size_limit hard_cap : ℤ) (pinned : Bool) (limits : ℕ × ℕ)
      → is_label label ≡ true
      → validate_slot_limits size_limit hard_cap ≡ ok limits
      → Effect (creating body) (create_sized s agent label body limits pinned w)
  unfolding create_sized insert_slot rejected accepted logged
  create-Change body size_limit hard_cap pinned (low, high) labelled valid =
      elim (Result-cases (assert_slot_size body low high)) [
        | inl (e, large) ↦ rw (large, create_sized) refused
        | inr (u, fits) ↦ elim (Option-cases (lookup by_owner (agent, label) w.slots)) [
          | inr (row, found) ↦ rw (fits, create_sized, found, insert_slot) refused
          | inl new ↦
              rw (fits, create_sized, new, insert_slot)
                (inserted _ refl
                  (let bounds = valid_limits size_limit hard_cap low high valid in
                    record {
                      labelled = labelled;
                      positive = bounds.0;
                      capped = bounds.1;
                      bounded = bounds.2;
                      sized = size_fits body low high u fits;
                    })
                  new refl)
        ]
      ]
