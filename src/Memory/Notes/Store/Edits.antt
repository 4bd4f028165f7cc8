-- ===== src/Memory/Notes/Store/Edits.antt =====
-- How the note tools change the table `documents`, one statement after another.
use public_gbrain_agentos.Base.{
  ℕ, suc, ◌≡◌, refl, String, Bool, true, false, Option, none, some, List, [], ◌∷◌, ◌++◌, inl, inr,
  Bool-cases, Option-cases, Result, ok, err,
}
use public_gbrain_agentos.Base.Text.{Text, text_eq}
use public_gbrain_agentos.Base.Json.{Fields}
use public_gbrain_agentos.Base.Json.Dicts.{get}
use public_gbrain_agentos.Base.Table.{update_where}
use public_gbrain_agentos.Base.Table.Keys.{lookup}
use public_gbrain_agentos.Memory.Service.{
  Service, Document, Setting, Tool, logged, by_path, by_file, and_then,
}
use public_gbrain_agentos.Memory.Notes.{NoteError, scope_from_path, parse_iso_ts}
use public_gbrain_agentos.Memory.Notes.Store.{
  rewrite, fresh_document, at_path, upsert_document, insert_or_rewrite, close, stamp, read_file,
  write_file,
}

abbrev pub is_some : {A : Type 0} → Option A → Bool
is_some none = false
is_some (some a) = true

-- an update that leaves a row where it is and as closed as it is
pub record Keeps (f : Document → Document) : Type 0 where
  pub path : (r : Document) → (f r).path ≡ r.path
  pub id : (r : Document) → (f r).id ≡ r.id
  pub is_latest : (r : Document) → (f r).is_latest ≡ r.is_latest
  pub valid_until : (r : Document) → (f r).valid_until ≡ r.valid_until
  pub superseded_by : (r : Document) → (f r).superseded_by ≡ r.superseded_by
  pub verified :
      (r : Document)
      → is_some r.verified_at ≡ is_some r.verified_by
      → is_some (f r).verified_at ≡ is_some (f r).verified_by

-- One statement on the table, beside the sequence of ids.
pub data Edit (docs : List Document) (next : ℕ) : List Document → ℕ → Type 0 where
  added :
      (now : ℕ) (path : Text) (fm : Fields) (body sha256 : Text) (source_type agent : String)
      (scope : Text) (valid_from : Option ℕ)
      → lookup by_path path docs ≡ none
      → Edit docs next
          (docs
            ++ fresh_document now next path fm body sha256 source_type agent scope valid_from ∷ [])
          (suc next)
  skipped : Edit docs next docs (suc next)
  edited :
      (path : Text) (f : Document → Document)
      → Keeps f
      → Edit docs next (update_where (at_path path) f docs) next
  closed :
      (string : Text → String) (now : ℕ) (old_path new_path : Text)
      → text_eq new_path old_path ≡ false
      → Edit docs next (update_where (at_path old_path) (close string now new_path) docs) next

pub data Edits (docs : List Document) (next : ℕ) : List Document → ℕ → Type 0 where
  start : Edits docs next docs next
  then_edit :
      {docs' : List Document} {next' : ℕ} {docs'' : List Document} {next'' : ℕ}
      → Edits docs next docs' next'
      → Edit docs' next' docs'' next''
      → Edits docs next docs'' next''

pub Edits-trans :
    {docs : List Document} {next : ℕ} {docs' : List Document} {next' : ℕ} {docs'' : List Document}
    {next'' : ℕ}
    → Edits docs next docs' next'
    → Edits docs' next' docs'' next''
    → Edits docs next docs'' next''
Edits-trans es start = es
Edits-trans es (then_edit fs f) = then_edit (Edits-trans es fs) f

abbrev pub Between : Service → Service → Type 0
Between w v = Edits w.documents w.next_document v.documents v.next_document

module _ {A B : Type 0} (f : A → Tool NoteError B) where
  -- what follows something that was done edits, too
  pub Between-then :
      (w : Service) (p : Result NoteError A × Service)
      → Between w p.1
      → ((a : A) (v : Service) → Between v (f a v).1)
      → Between w (and_then f p).1
  unfolding and_then
  Between-then w (ok a, after) es next = Edits-trans es (next a after)
  Between-then w (err e, after) es next = es

  -- what follows a check
  pub Between-check :
      (w : Service) (r : Result NoteError A)
      → ((a : A) → Between w (f a w).1)
      → Between w (and_then f (r, w)).1
  unfolding and_then
  Between-check w (ok a) next = next a
  Between-check w (err e) next = start

pub rewrite-Keeps :
    (now : ℕ) (fm : Fields) (body sha256 : Text) (source_type agent : String) (scope : Text)
    → Keeps (rewrite now fm body sha256 source_type agent scope)
rewrite-Keeps now fm body sha256 source_type agent scope = record {
  path = λ _. refl;
  id = λ _. refl;
  is_latest = λ _. refl;
  valid_until = λ _. refl;
  superseded_by = λ _. refl;
  verified = λ _ h. h;
}

pub stamp-Keeps : (s : Setting) (agent : String) (basis : Text) → Keeps (stamp s agent basis)
stamp-Keeps s agent basis = record {
  path = λ _. refl;
  id = λ _. refl;
  is_latest = λ _. refl;
  valid_until = λ _. refl;
  superseded_by = λ _. refl;
  verified = λ _ h. refl;
}

pub read-Between : (s : Setting) (path : Text) (w : Service) → Between w (read_file s path w).1
unfolding read_file
read-Between s path w = elim (Option-cases (lookup by_file path w.vault)) [
  | inl missing ↦ rw (missing, read_file) start
  | inr (f, found) ↦ rw (found, read_file) start
]

pub write-Between :
    (s : Setting) (path content : Text) (w : Service) → Between w (write_file s path content w).1
unfolding write_file
write-Between s path content w = elim (Bool-cases (s.writable path)) [
  | inl can ↦ rw can start
  | inr cannot ↦ rw cannot start
]

pub logged-Between :
    (s : Setting) (agent tool : String) (args : Fields) (status : String) (error : Option String)
    (w : Service)
    → Between w (logged s agent tool args status error w)
unfolding logged
logged-Between s agent tool args status error w = start

pub upsert-Between :
    (s : Setting) (path : Text) (fm : Fields) (body hash : Text) (source_type agent : String)
    (w : Service)
    → Between w (upsert_document s path fm body hash source_type agent w).1
unfolding upsert_document
upsert-Between s path fm body hash source_type agent w =
    elim (Option-cases (lookup by_path path w.documents)) [
      | inl new ↦
          rw (new, upsert_document)
            (then_edit start (
              added s.now path fm body hash source_type agent (scope_from_path path)
                (parse_iso_ts s (get "valid_from" fm)) new))
      | inr (row, found) ↦ elim (Bool-cases (text_eq row.sha256 hash)) [
        | inl same ↦ rw (found, upsert_document, same) start
        | inr other ↦
            rw (found, upsert_document, other)
              (then_edit start (
                edited path _
                  (rewrite-Keeps s.now fm body hash source_type agent (scope_from_path path))))
      ]
    ]

pub insert-Between :
    (now : ℕ) (path : Text) (fm : Fields) (body hash : Text) (source_type agent : String)
    (scope : Text) (valid_from : Option ℕ) (w : Service)
    → Between w (insert_or_rewrite now path fm body hash source_type agent scope valid_from w)
unfolding insert_or_rewrite
insert-Between now path fm body hash source_type agent scope valid_from w =
    elim (Option-cases (lookup by_path path w.documents)) [
      | inl new ↦
          rw (new, insert_or_rewrite)
            (then_edit start (added now path fm body hash source_type agent scope valid_from new))
      | inr (row, found) ↦
          rw (found, insert_or_rewrite)
            (then_edit
              (then_edit start
                (edited path _ (rewrite-Keeps now fm body hash source_type agent scope)))
              skipped)
    ]
