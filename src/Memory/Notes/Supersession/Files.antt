-- ===== src/Memory/Notes/Supersession/Files.antt =====
-- What supersede_decision does to files and to the queue leaves the table `documents` alone.
use public_gbrain_agentos.Base.{
  ◌≡◌, refl, String, Option, none, some, List, arith, inl, inr, Option-cases, Result, ok, err,
  Result-cases,
}
use public_gbrain_agentos.Base.Text.{Text}
use public_gbrain_agentos.Base.Table.Keys.{lookup}
use public_gbrain_agentos.Memory.Service.{
  Service, Document, Setting, Tool, logged, by_path, and_then,
}
use public_gbrain_agentos.Memory.Notes.{NoteError, parse_frontmatter}
use public_gbrain_agentos.Memory.Notes.Store.{write_file, queue_embedding}
use public_gbrain_agentos.Memory.Notes.Supersession.{
  rewrite_old, mark_closed, queue_path, finish_supersede,
}

-- What the steps behind the transaction leave alone.
documents-then :
    {A B : Type 0} (f : A → Tool NoteError B) (docs : List Document)
    (p : Result NoteError A × Service)
    → p.1.documents ≡ docs
    → ((a : A) (v : Service) → v.documents ≡ docs → (f a v).1.documents ≡ docs)
    → (and_then f p).1.documents ≡ docs
unfolding and_then
documents-then f docs (ok a, v) same next = next a v same
documents-then f docs (err e, v) same next = same

write_file-documents :
    (s : Setting) (path content : Text) (w : Service)
    → (write_file s path content w).1.documents ≡ w.documents
unfolding write_file
write_file-documents s path content w = ground arith

mark_closed-documents :
    (s : Setting) (old_path rel_path : Text) (md : Option Text) (w : Service)
    → (mark_closed s old_path rel_path md w).1.documents ≡ w.documents
unfolding mark_closed rewrite_old
mark_closed-documents s old_path rel_path none w = refl
mark_closed-documents s old_path rel_path (some md) w =
    elim (Result-cases (parse_frontmatter s md)) [
      | inl (e, wrong) ↦ rw (wrong, mark_closed) refl
      | inr (fm, parsed) ↦ rw (parsed, mark_closed) (write_file-documents s old_path _ w)
    ]

queue_path-documents : (path : Text) (w : Service) → (queue_path path w).documents ≡ w.documents
unfolding queue_path queue_embedding
queue_path-documents path w = elim (Option-cases (lookup by_path path w.documents)) [
  | inl missing ↦ rw (missing, queue_path) refl
  | inr (row, found) ↦ rw (found, queue_path) refl
]

pub finish-documents :
    (s : Setting) (agent : String) (old_path rel_path content : Text) (md : Option Text)
    (w : Service)
    → (finish_supersede s agent old_path rel_path content md w).1.documents ≡ w.documents
unfolding finish_supersede logged
finish-documents s agent old_path rel_path content md w =
    documents-then _ w.documents (write_file s rel_path content w)
      (write_file-documents s rel_path content w)
      λ u v same.
        documents-then _ w.documents (mark_closed s old_path rel_path md v)
          (cc (mark_closed-documents s old_path rel_path md v, same))
          λ u' x same'. cc (queue_path-documents rel_path x, same')
