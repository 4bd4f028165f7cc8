-- ===== src/Memory/Notes/Store/Elsewhere.antt =====
-- Writes to one path leave what stands at another path alone.
use public_gbrain_agentos.Base.{
  ◌≡◌, refl, String, true, false, [], ◌∷◌, ◌++◌, inl, inr, Bool-cases, Option-cases, Result, ok,
  err,
}
use public_gbrain_agentos.Base.Text.{Text, text_eq}
use public_gbrain_agentos.Base.Json.{Fields}
use public_gbrain_agentos.Base.Json.Dicts.{get}
use public_gbrain_agentos.Base.Table.{update_where}
use public_gbrain_agentos.Base.Table.Keys.{
  lookup, lookup-append, lookup-update, lookup-one, or_none,
}
use public_gbrain_agentos.Memory.Service.{
  Service, Document, File, Setting, Tool, by_path, by_file, and_then,
}
use public_gbrain_agentos.Memory.Notes.{NoteError, scope_from_path, parse_iso_ts}
use public_gbrain_agentos.Memory.Notes.Store.{
  upsert_document, read_file, write_file, put_file, put_content, at_path, rewrite, fresh_document,
}

-- The row and the file at the path are as before.
pub record KeepsAt (p : Text) (w v : Service) : Type 0 where
  pub row : lookup by_path p v.documents ≡ lookup by_path p w.documents
  pub file : lookup by_file p v.vault ≡ lookup by_file p w.vault

pub as_before : (p : Text) (w : Service) → KeepsAt p w w
as_before p w = record { row = refl; file = refl }

module _ {A B : Type 0} (p : Text) (f : A → Tool NoteError B) where
  pub KeepsAt-then :
      (w : Service) (r : Result NoteError A × Service)
      → KeepsAt p w r.1
      → ((a : A) (v : Service) → KeepsAt p v (f a v).1)
      → KeepsAt p w (and_then f r).1
  unfolding and_then
  KeepsAt-then w (ok a, v) h next = record {
    row = cc (h.row, (next a v).row);
    file = cc (h.file, (next a v).file);
  }
  KeepsAt-then w (err e, v) h next = h

  -- what follows a check, which has passed then
  pub KeepsAt-check :
      (w : Service) (r : Result NoteError A)
      → ((a : A) → r ≡ ok a → KeepsAt p w (f a w).1)
      → KeepsAt p w (and_then f (r, w)).1
  unfolding and_then
  KeepsAt-check w (ok a) next = next a refl
  KeepsAt-check w (err e) next = as_before p w

pub read-KeepsAt : (s : Setting) (p path : Text) (w : Service) → KeepsAt p w (read_file s path w).1
unfolding read_file
read-KeepsAt s p path w = elim (Option-cases (lookup by_file path w.vault)) [
  | inl missing ↦ rw (missing, read_file) (as_before p w)
  | inr (f, found) ↦ rw (found, read_file) (as_before p w)
]

module _ (s : Setting) (p path : Text) (other : text_eq path p ≡ false) where
  pub write-KeepsAt : (content : Text) (w : Service) → KeepsAt p w (write_file s path content w).1
  unfolding write_file put_file
  write-KeepsAt content w = elim (Bool-cases (s.writable path)) [
    | inl can ↦ rw can record { row = refl; file = put-lookup }
    | inr cannot ↦ rw cannot (as_before p w)
  ]
    where
      put-lookup : lookup by_file p (put_file path content w.vault) ≡ lookup by_file p w.vault
      put-lookup = elim (Option-cases (lookup by_file path w.vault)) [
        | inl new ↦
            let f : File = record { path = path; content = content } in
            rw
              (
                put_file,
                new,
                lookup-append by_file p w.vault (f ∷ []),
                lookup-one by_file f p,
                other,
              )
              (or_none (lookup by_file p w.vault))
        | inr (f, found) ↦
            rw
              (
                put_file,
                found,
                lookup-update by_file path p (λ _. true) (put_content content) (λ _. refl) w.vault,
                other,
              )
              refl
      ]

  pub update-KeepsAt :
      (f : Document → Document) (w : Service)
      → ((r : Document) → (f r).path ≡ r.path)
      → KeepsAt p w (record w { documents = update_where (at_path path) f w.documents })
  update-KeepsAt f w keeps = record {
    row = rw (lookup-update by_path path p (λ _. true) f keeps w.documents, other) refl;
    file = refl;
  }

  pub upsert-KeepsAt :
      (fm : Fields) (body hash : Text) (kind agent : String) (w : Service)
      → KeepsAt p w (upsert_document s path fm body hash kind agent w).1
  unfolding upsert_document
  upsert-KeepsAt fm body hash kind agent w = elim (Option-cases (lookup by_path path w.documents)) [
    | inl new ↦ rw (new, upsert_document) record { row = added; file = refl }
    | inr (row, found) ↦ elim (Bool-cases (text_eq row.sha256 hash)) [
      | inl same ↦ rw (found, upsert_document, same) (as_before p w)
      | inr differs ↦
          rw (found, upsert_document, differs)
            (update-KeepsAt (rewrite s.now fm body hash kind agent (scope_from_path path)) w
              (λ _. refl))
    ]
  ]
    where
      fresh : Document
      fresh =
          fresh_document s.now w.next_document path fm body hash kind agent (scope_from_path path)
            (parse_iso_ts s (get "valid_from" fm))

      added : lookup by_path p (w.documents ++ fresh ∷ []) ≡ lookup by_path p w.documents
      added =
          rw (lookup-append by_path p w.documents (fresh ∷ []), lookup-one by_path fresh p, other)
            (or_none (lookup by_path p w.documents))
