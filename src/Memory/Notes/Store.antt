-- ===== src/Memory/Notes/Store.antt =====
-- What the note tools of services/memory_mcp/tools.py do to the table `documents`, to the queue of
-- embeddings and to the vault.
pub mod Edits
pub mod Rows
pub mod Elsewhere
use public_gbrain_agentos.Base.{
  ℕ, suc, String, Bool, true, false, ◌&&◌, ◌||◌, Option, none, some, List, [], ◌∷◌, ◌++◌, ◌==◌, any,
  Result, ok, err, if◌then◌else◌,
}
use public_gbrain_agentos.Base.Text.{Text, text_eq}
use public_gbrain_agentos.Base.Json.{str, bool, Fields}
use public_gbrain_agentos.Base.Json.Dicts.{get, set_key}
use public_gbrain_agentos.Base.Table.{update_where}
use public_gbrain_agentos.Base.Table.Keys.{lookup}
use public_gbrain_agentos.Memory.Service.{Service, Document, File, Setting, Tool, by_path, by_file}
use public_gbrain_agentos.Memory.Notes.{
  NoteError, os_error, check_violation, scope_from_path, parse_iso_ts,
}

-- UPDATE documents SET frontmatter, body, sha256, source_type, agent, scope, updated_at
abbrev pub rewrite : ℕ → Fields → Text → Text → String → String → Text → Document → Document
rewrite now frontmatter body sha256 source_type agent scope row = record row {
  frontmatter = frontmatter;
  body = body;
  sha256 = sha256;
  source_type = source_type;
  agent = agent;
  scope = scope;
  updated_at = now;
}

abbrev pub or_now : ℕ → Option ℕ → ℕ
or_now now none = now
or_now now (some t) = t

-- INSERT INTO documents; the columns that it does not name have their defaults
abbrev pub fresh_document :
    ℕ → ℕ → Text → Fields → Text → Text → String → String → Text → Option ℕ → Document
fresh_document now id path frontmatter body sha256 source_type agent scope valid_from = record {
  id = id;
  path = path;
  frontmatter = frontmatter;
  body = body;
  sha256 = sha256;
  source_type = source_type;
  agent = agent;
  scope = scope;
  created_at = now;
  updated_at = now;
  valid_from = or_now now valid_from;
  valid_until = none;
  is_latest = true;
  superseded_by = none;
  verified_at = none;
  verified_by = none;
  basis = none;
}

abbrev pub at_path : Text → Document → Bool
at_path path r = text_eq r.path path && true

-- the document's id, and whether something was written
unfoldable pub upsert_document :
    Setting → Text → Fields → Text → Text → String → String → Service → (ℕ × Bool) × Service
upsert_document s rel_path frontmatter body content_hash source_type agent w =
    let scope = scope_from_path rel_path in
    elim (lookup by_path rel_path w.documents) [
      | some existing ↦
          if text_eq existing.sha256 content_hash then ((existing.id, false), w) else (
            (existing.id, true),
            record w {
              documents =
                  update_where (at_path rel_path)
                    (rewrite s.now frontmatter body content_hash source_type agent scope)
                    w.documents;
            },
          )
      | none ↦ (
        (w.next_document, true),
        record w {
          documents =
              w.documents
              ++ fresh_document s.now w.next_document rel_path frontmatter body content_hash
                  source_type agent scope (parse_iso_ts s (get "valid_from" frontmatter))
                ∷ [];
          next_document = suc w.next_document;
        },
      )
    ]

-- INSERT INTO embedding_jobs … ON CONFLICT DO NOTHING
unfoldable pub queue_embedding : ℕ → Service → Service
queue_embedding doc_id w = record w {
  jobs = if any (λ j. j == doc_id) w.jobs then w.jobs else w.jobs ++ doc_id ∷ [];
}

-- INSERT INTO documents … ON CONFLICT (path) DO UPDATE: an old row keeps the columns of migration 007.
-- The sequence of ids moves either way.
unfoldable pub insert_or_rewrite :
    ℕ → Text → Fields → Text → Text → String → String → Text → Option ℕ → Service → Service
insert_or_rewrite now path frontmatter body sha256 source_type agent scope valid_from w = record w {
  documents = elim (lookup by_path path w.documents) [
    | some existing ↦
        update_where (at_path path) (rewrite now frontmatter body sha256 source_type agent scope)
          w.documents
    | none ↦
        w.documents
        ++ fresh_document now w.next_document path frontmatter body sha256 source_type agent scope
            valid_from
          ∷ []
  ];
  next_document = suc w.next_document;
}

-- SET is_latest = false, valid_until = now(), superseded_by = …, in the row and its frontmatter
abbrev pub close : (Text → String) → ℕ → Text → Document → Document
close string now new_path row = record row {
  frontmatter =
      set_key "superseded_by" (str (string new_path))
        (set_key "is_latest" (bool false) row.frontmatter);
  is_latest = false;
  valid_until = some now;
  superseded_by = some new_path;
  updated_at = now;
}

-- The UPDATE that closes the row at `old_path`: where there is one, the CHECK that no document
-- supersedes itself refuses it for `new_path` itself, and the transaction is taken back.
unfoldable pub close_document : Setting → Text → Text → Service → Result NoteError Service
close_document s old_path new_path w =
    let closed : Service = record w {
      documents = update_where (at_path old_path) (close s.string s.now new_path) w.documents;
    } in
    elim (lookup by_path old_path w.documents) [
      | none ↦ ok closed
      | some row ↦ if text_eq new_path old_path then err check_violation else ok closed
    ]

-- SET verified_at = now(), verified_by = …, basis = …, in the row and its frontmatter
abbrev pub stamp : Setting → String → Text → Document → Document
stamp s agent basis row = record row {
  frontmatter =
      set_key "basis" (str (s.string basis))
        (set_key "verified_by" (str agent) (set_key "verified_at" (str s.now_iso) row.frontmatter));
  verified_at = some s.now;
  verified_by = some agent;
  basis = some basis;
  updated_at = s.now;
}

unfoldable pub exists : Text → Service → Bool
exists path w = elim (lookup by_file path w.vault) [ none ↦ false | some f ↦ true ]

-- `abs_path.read_text()` of a file that is there
unfoldable pub read_file : Setting → Text → Tool NoteError Text
read_file s path w = elim (lookup by_file path w.vault) [
  | none ↦ (err os_error, w)
  | some f ↦ (if s.readable path then ok f.content else err os_error, w)
]

abbrev put_content : Text → File → File
put_content content f = record f { content = content }

put_file : Text → Text → List File → List File
put_file path content vault = elim (lookup by_file path vault) [
  | none ↦ vault ++ record { path = path; content = content } ∷ []
  | some f ↦ update_where (λ f. text_eq f.path path && true) (put_content content) vault
]

-- `abs_path.write_text(content)` behind `mkdir`; a write that fails leaves the file alone
unfoldable pub write_file : Setting → Text → Text → Tool NoteError Unit
unfolding put_file
write_file s path content w =
    if s.writable path
    then (ok tt, record w { vault = put_file path content w.vault })
    else (err os_error, w)
