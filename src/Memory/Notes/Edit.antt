-- ===== src/Memory/Notes/Edit.antt =====
-- The tools of services/memory_mcp/tools.py that write to notes that are there: append_daily_log and
-- update_document.
pub mod Editing
pub mod Confined
use public_gbrain_agentos.Base.{
  ℕ, String, Bool, true, false, not, ◌&&◌, Option, none, some, List, [], ◌∷◌, ◌++◌, ltb, length,
  take, Result, ok, err, if◌then◌else◌,
}
use public_gbrain_agentos.Base.Text.{Text, text, text_eq, concat, strip}
use public_gbrain_agentos.Base.Json.{Json, str, bool, arr, Items, nil, cons, Fields, end, field}
use public_gbrain_agentos.Base.Json.Dicts.{get, set_key}
use public_gbrain_agentos.Base.Table.{update_where}
use public_gbrain_agentos.Base.Table.Keys.{lookup}
use public_gbrain_agentos.Auth.Errors.{AuthError}
use public_gbrain_agentos.Auth.Scopes.{AgentContext, check_write_scope}
use public_gbrain_agentos.Memory.Paths.{
  normalize_rel_path, check_path, canonical_kind_from_path, assert_ops_subtree_owner,
  resolve_write_target,
}
use public_gbrain_agentos.Memory.Service.{
  Service, Document, Setting, Tool, lift, logged, by_path, ◌>>=◌, ◌>>◌,
}
use public_gbrain_agentos.Memory.Notes.{
  NoteError, no_write_scope, short_basis, document_not_found, superseded_note, immutable_decision,
  immutable_error_pattern, data_error, slugify, with_freshness, build_frontmatter, declared_author,
  add_author, texts, scope_from_path, parse_frontmatter, extract_frontmatter_block, body_part,
  strip_newlines, parse_iso_ts,
}
use public_gbrain_agentos.Memory.Notes.Store.{
  upsert_document, queue_embedding, insert_or_rewrite, close_document, stamp, at_path, exists,
  read_file, write_file,
}
use public_gbrain_agentos.Memory.Notes.Create.{authenticate, on_path, note_content}

-- the daily log as it is, or a new one
unfoldable pub log_so_far : Setting → Text → Tool NoteError Text
log_so_far s rel_path w =
    if exists rel_path w
    then (read_file s rel_path >>= λ old. lift (ok (strip_newlines old ++ text "\n"))) w
    else let fm = with_freshness s (
        field "type" (str "daily") (
          field "created" (str s.now_iso) (
            field "updated" (str s.now_iso)
              (field "agent" (str "system") (field "tags" (texts ("daily" ∷ [])) end))))) in
      (ok (build_frontmatter s fm ++ concat (text "\n# " ∷ s.today ∷ text "\n" ∷ [])), w)

unfoldable pub byline : AgentContext → Option String → Text
byline agent_ctx none = text agent_ctx.agent
byline agent_ctx (some author) =
    concat (text agent_ctx.agent ∷ text " (declared: " ∷ text author ∷ text ")" ∷ [])

unfoldable pub append_daily_log :
    Setting → Result AuthError AgentContext → String → Text → Tool NoteError Text
unfolding log_so_far byline
append_daily_log s caller agent body = do
  agent_ctx ← lift (authenticate caller)
  target ← lift (on_path (resolve_write_target s.sha256 agent_ctx "20-daily"))
  let rel_path = concat (target.1 ∷ text "/" ∷ s.today ∷ text ".md" ∷ [])
  lift (on_path (check_path rel_path))
  let author = declared_author (some agent) agent_ctx
  let entry = concat (
      text "\n## "
      ∷ text s.now_iso
      ∷ text " ["
      ∷ byline agent_ctx author
      ∷ text "]\n\n"
      ∷ body
      ∷ text "\n"
      ∷ [])
  so_far ← log_so_far s rel_path
  let content = so_far ++ entry
  write_file s rel_path content
  λ (w : Service).
      let fm =
        with_freshness s (field "type" (str "daily") (field "date" (str (s.string s.today)) end)) in
      let (written, after) =
        upsert_document s rel_path fm content (s.sha256 content) "daily" agent_ctx.agent w in
      (
        ok (text "appended: " ++ rel_path),
        logged s agent_ctx.agent "append_daily_log"
            (add_author author
              (field "agent" (str agent_ctx.agent) (field "path" (str (s.string rel_path)) end)))
            "ok" none after,
      )

-- the guard of the notes that are append-only
unfoldable pub check_mutable : Text → Result NoteError Unit
check_mutable path =
    let kind = canonical_kind_from_path path in
    if text_eq kind (text "30-decisions")
    then err immutable_decision
    else if text_eq kind (text "80-error-patterns")
    then err immutable_error_pattern
    else ok tt

-- write scope and owner of a path that the caller gives
unfoldable pub check_owned : Setting → AgentContext → Text → Result NoteError Unit
check_owned s agent_ctx path =
    if check_write_scope agent_ctx (s.string (scope_from_path path))
    then on_path (assert_ops_subtree_owner s.sha256 agent_ctx path)
    else err no_write_scope

unfoldable pub check_exists : Text → Tool NoteError Unit
check_exists path w = (if exists path w then ok tt else err document_not_found, w)

-- `fm_dict.get("type", "unknown")`, which the column takes only where it is a text
unfoldable pub source_type : Fields → Result NoteError String
source_type fm = elim (get "type" fm) [
  | none ↦ ok "unknown"
  | some v ↦ elim v [ str s ↦ ok s | _ ↦ err data_error ]
]

-- the frontmatter block stays as it is, and the body is replaced
unfoldable pub replaced : Text → Text → Text
replaced existing body = elim (extract_frontmatter_block existing) [
  | none ↦ body ++ text "\n"
  | some block ↦ block ++ concat (text "\n" ∷ body ∷ text "\n" ∷ [])
]

unfoldable pub update_document :
    Setting → Result AuthError AgentContext → Text → Text → Tool NoteError Text
unfolding check_exists source_type replaced
update_document s caller given body = do
  agent_ctx ← lift (authenticate caller)
  path ← lift (on_path (normalize_rel_path given))
  lift (check_mutable path)
  lift (check_owned s agent_ctx path)
  lift (on_path (check_path path))
  check_exists path
  existing ← read_file s path
  let content = replaced existing body
  write_file s path content
  parsed ← lift (parse_frontmatter s existing)
  let fm = set_key "updated" (str s.now_iso) parsed
  kind ← lift (source_type fm)
  λ (w : Service).
      let (written, after) =
        upsert_document s path fm body (s.sha256 content) kind agent_ctx.agent w in
      let queued = if written.1 then queue_embedding written.0 after else after in
      let status = if written.1 then "ok" else "unchanged" in
      (
        ok (concat (text status ∷ text ": " ∷ path ∷ [])),
        logged s agent_ctx.agent "update_document" (field "path" (str (s.string path)) end) status
            none queued,
      )
