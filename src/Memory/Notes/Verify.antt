-- ===== src/Memory/Notes/Verify.antt =====
-- verify_note of services/memory_mcp/tools.py.
use public_gbrain_agentos.Base.{
  ℕ, String, Option, none, some, ◌++◌, ltb, length, take, Result, ok, err, if◌then◌else◌,
}
use public_gbrain_agentos.Base.Text.{Text, text, strip}
use public_gbrain_agentos.Base.Json.{str, end, field}
use public_gbrain_agentos.Base.Json.Dicts.{set_key}
use public_gbrain_agentos.Base.Table.{update_where}
use public_gbrain_agentos.Base.Table.Keys.{lookup}
use public_gbrain_agentos.Auth.Errors.{AuthError}
use public_gbrain_agentos.Auth.Scopes.{AgentContext}
use public_gbrain_agentos.Memory.Paths.{normalize_rel_path, check_path}
use public_gbrain_agentos.Memory.Service.{
  Service, Document, Setting, Tool, lift, logged, by_path, ◌>>=◌, ◌>>◌,
}
use public_gbrain_agentos.Memory.Notes.{
  NoteError, short_basis, document_not_found, superseded_note, parse_frontmatter,
}
use public_gbrain_agentos.Memory.Notes.Store.{stamp, at_path, read_file}
use public_gbrain_agentos.Memory.Notes.Create.{authenticate, on_path}
use public_gbrain_agentos.Memory.Notes.Edit.{check_owned}
use public_gbrain_agentos.Memory.Notes.Supersession.{rewrite_old}

abbrev pub min_verify_basis_length : ℕ
min_verify_basis_length = 8

unfoldable pub check_basis : Text → Result NoteError Unit
check_basis basis = if ltb (length basis) min_verify_basis_length then err short_basis else ok tt

-- only a document that is there and current
unfoldable pub check_latest : Option Document → Result NoteError Unit
check_latest none = err document_not_found
check_latest (some row) = if row.is_latest then ok tt else err superseded_note

-- The stamp in the file's frontmatter; what goes wrong with the file itself is logged.
unfoldable pub mirror_stamp : Setting → String → Text → Text → Tool NoteError Unit
unfolding rewrite_old
mirror_stamp s agent path basis w = elim (on_path (check_path path)) [
  | err e ↦ (ok tt, w)
  | ok p ↦ elim (read_file s path w).0 [
    | err e ↦ (ok tt, w)
    | ok md ↦ elim (parse_frontmatter s md) [
      | err e ↦ (err e, w)
      | ok fm ↦ (
        ok tt,
        rewrite_old s path
            (set_key "updated" (str s.now_iso) (
              set_key "basis" (str (s.string basis))
                (set_key "verified_by" (str agent) (set_key "verified_at" (str s.now_iso) fm))))
            md w,
      )
    ]
  ]
]

unfoldable pub verify_note :
    Setting → Result AuthError AgentContext → Text → Text → Tool NoteError Text
unfolding check_basis check_latest mirror_stamp
verify_note s caller given basis = do
  agent_ctx ← lift (authenticate caller)
  let clean = strip basis
  lift (check_basis clean)
  path ← lift (on_path (normalize_rel_path given))
  lift (check_owned s agent_ctx path)
  λ (w : Service).
      (do
        lift (check_latest (lookup by_path path w.documents))
        λ (v : Service). (
          ok tt,
          record v {
            documents = update_where (at_path path) (stamp s agent_ctx.agent clean) v.documents;
          },
        )
        mirror_stamp s agent_ctx.agent path clean
        λ (v : Service). (
          ok (text "verified: " ++ path),
          logged s agent_ctx.agent "verify_note"
              (field "path" (str (s.string path))
                (field "basis" (str (s.string (take 200 clean))) end))
              "ok" none v,
        ))
        w
