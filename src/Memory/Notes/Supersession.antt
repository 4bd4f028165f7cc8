-- ===== src/Memory/Notes/Supersession.antt =====
-- The tool of services/memory_mcp/tools.py that supersedes decisions: supersede_decision, with the
-- steps that it shares with the tools that create and verify notes.
pub mod Files
pub mod Effect
pub mod Target
use public_gbrain_agentos.Base.{
  ℕ, String, Bool, true, false, not, ◌&&◌, Option, none, some, List, [], ◌∷◌, ◌++◌, ltb, length,
  take, Result, ok, err, if◌then◌else◌,
}
use public_gbrain_agentos.Base.Text.{Text, text, text_eq, concat, strip}
use public_gbrain_agentos.Base.Json.{Json, str, bool, arr, Items, nil, cons, Fields, end, field}
use public_gbrain_agentos.Base.Json.Dicts.{get, set_key}
use public_gbrain_agentos.Base.Table.{update_where}
use public_gbrain_agentos.Base.Table.Keys.{lookup}
use public_gbrain_agentos.Auth.Errors.{AuthError}
use public_gbrain_agentos.Auth.Scopes.{AgentContext, check_write_scope}
use public_gbrain_agentos.Memory.Paths.{
  normalize_rel_path, check_path, canonical_kind_from_path, assert_ops_subtree_owner,
  resolve_write_target,
}
use public_gbrain_agentos.Memory.Service.{
  Service, Document, Setting, Tool, lift, logged, by_path, ◌>>=◌, ◌>>◌,
}
use public_gbrain_agentos.Memory.Notes.{
  NoteError, no_write_scope, short_basis, document_not_found, superseded_note, immutable_decision,
  immutable_error_pattern, data_error, slugify, with_freshness, build_frontmatter, declared_author,
  add_author, texts, scope_from_path, parse_frontmatter, extract_frontmatter_block, body_part,
  strip_newlines, parse_iso_ts,
}
use public_gbrain_agentos.Memory.Notes.Store.{
  upsert_document, queue_embedding, insert_or_rewrite, close_document, stamp, at_path, exists,
  read_file, write_file,
}
use public_gbrain_agentos.Memory.Notes.Create.{authenticate, on_path, note_content}
use public_gbrain_agentos.Memory.Notes.Edit.{check_exists}

-- Text of the old note that the frontmatter is put in front of again; a write that fails is logged.
unfoldable pub rewrite_old : Setting → Text → Fields → Text → Service → Service
rewrite_old s path fm old_md w =
    (write_file s path (build_frontmatter s fm ++ body_part old_md) w).1

-- `old_md`, or `none` where the file cannot be read
unfoldable pub read_quietly : Setting → Text → Service → Option Text
read_quietly s path w = elim (read_file s path w).0 [ ok md ↦ some md | err e ↦ none ]

-- The frontmatter of the old file is closed as its row is; TypeErrors are raised.
unfoldable pub mark_closed : Setting → Text → Text → Option Text → Tool NoteError Unit
unfolding rewrite_old
mark_closed s old_path rel_path none w = (ok tt, w)
mark_closed s old_path rel_path (some old_md) w = elim (parse_frontmatter s old_md) [
  | err e ↦ (err e, w)
  | ok fm ↦ (
    ok tt,
    rewrite_old s old_path
        (set_key "updated" (str s.now_iso) (
          set_key "valid_until" (str s.now_iso) (
            set_key "superseded_by" (str (s.string rel_path))
              (set_key "is_latest" (bool false) fm))))
        old_md w,
  )
]

-- INSERT … ON CONFLICT, then the UPDATE of the old row, in one transaction
unfoldable pub replace_decision :
    Setting → String → Text → Text → Text → Fields → Text → Text → Tool NoteError Unit
replace_decision s agent scope old_path rel_path fm body content_hash w =
    elim (close_document s old_path rel_path (
      insert_or_rewrite s.now rel_path fm body content_hash "decision" agent scope
        (parse_iso_ts s (get "valid_from" fm)) w)) [
          | err e ↦ (err e, w)
          | ok after ↦ (ok tt, after)
        ]

unfoldable pub queue_path : Text → Service → Service
queue_path path w = elim (lookup by_path path w.documents) [
  | none ↦ w
  | some row ↦ queue_embedding row.id w
]

supersede_args : Setting → Text → Text → Fields → Fields
supersede_args s old_path rel_path rest =
    field "old" (str (s.string old_path)) (field "new" (str (s.string rel_path)) rest)

unfoldable pub supersede_body : Text → Text → Text → Text
supersede_body old_path reason new_body = concat (
    text "Supersedes [["
    ∷ old_path
    ∷ text "]]\n\n**Reason:** "
    ∷ reason
    ∷ text "\n\n"
    ∷ new_body
    ∷ [])

unfoldable pub supersede_frontmatter : Setting → AgentContext → Text → Fields
supersede_frontmatter s agent_ctx old_path =
    let old = arr (cons (str (s.string old_path)) nil) in
    with_freshness s (
      field "type" (str "decision") (
        field "created" (str s.now_iso) (
          field "updated" (str s.now_iso) (
            field "agent" (str agent_ctx.agent) (
              field "tags" (texts ("supersedes" ∷ [])) (
                field "related" old (field "priority" (str "P2") (field "supersedes" old end))))))))

-- what follows the transaction
unfoldable pub finish_supersede :
    Setting → String → Text → Text → Text → Option Text → Tool NoteError Text
unfolding mark_closed queue_path supersede_args
finish_supersede s agent old_path rel_path content old_md = do
  write_file s rel_path content
  mark_closed s old_path rel_path old_md
  λ (w : Service). (
    ok (concat (text "created: " ∷ rel_path ∷ text " (supersedes " ∷ old_path ∷ text ")" ∷ [])),
    logged s agent "supersede_decision"
        (supersede_args s old_path rel_path (field "closed" (bool true) end)) "ok" none
        (queue_path rel_path w),
  )

unfoldable pub is_unchanged : Text → Text → Service → Bool
is_unchanged path content_hash w = elim (lookup by_path path w.documents) [
  | none ↦ false
  | some row ↦ text_eq row.sha256 content_hash
]

-- the path of the new decision
unfoldable pub decision_path : Setting → Text → Text → Text
decision_path s folder title =
    concat (folder ∷ text "/" ∷ s.today ∷ text "-" ∷ slugify s title ∷ text ".md" ∷ [])

unfoldable pub supersede_decision :
    Setting → Result AuthError AgentContext → Text → Text → Text → Text → Tool NoteError Text
unfolding check_exists read_quietly finish_supersede is_unchanged supersede_args
supersede_decision s caller given new_title new_body reason = do
  agent_ctx ← lift (authenticate caller)
  target ← lift (on_path (resolve_write_target s.sha256 agent_ctx "30-decisions"))
  old_path ← lift (on_path (normalize_rel_path given))
  lift (on_path (check_path old_path))
  check_exists old_path
  let rel_path = decision_path s target.1 new_title
  lift (on_path (check_path rel_path))
  let body = supersede_body old_path reason new_body
  let fm = supersede_frontmatter s agent_ctx old_path
  let content = note_content s fm new_title body
  λ (w : Service).
      if is_unchanged rel_path (s.sha256 content) w
      then (
        ok (text "unchanged: " ++ rel_path),
        logged s agent_ctx.agent "supersede_decision" (supersede_args s old_path rel_path end)
            "unchanged" none w,
      )
      else (replace_decision s agent_ctx.agent target.0 old_path rel_path fm body (s.sha256 content)
            >> finish_supersede s agent_ctx.agent old_path rel_path content
                (read_quietly s old_path w))
          w
