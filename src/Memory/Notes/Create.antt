-- ===== src/Memory/Notes/Create.antt =====
-- The tools of services/memory_mcp/tools.py that create notes.
pub mod Editing
use public_gbrain_agentos.Base.{
  ℕ, String, Bool, true, false, not, Option, none, some, List, [], ◌∷◌, ◌++◌, Result, ok, err,
  if◌then◌else◌,
}
use public_gbrain_agentos.Base.Text.{Text, text, concat}
use public_gbrain_agentos.Base.Json.{Json, str, bool, arr, nil, Fields, end, field}
use public_gbrain_agentos.Auth.Errors.{AuthError}
use public_gbrain_agentos.Auth.Scopes.{AgentContext, check_write_scope}
use public_gbrain_agentos.Memory.Paths.{PathError, check_path, resolve_write_target}
use public_gbrain_agentos.Memory.Service.{Service, Setting, Tool, lift, logged, ◌>>=◌, ◌>>◌}
use public_gbrain_agentos.Memory.Notes.{
  NoteError, unauthenticated, bad_path, no_write_scope, slugify, with_freshness, build_frontmatter,
  handoff_rel_path, declared_author, add_author, texts,
}
use public_gbrain_agentos.Memory.Notes.Store.{upsert_document, queue_embedding, write_file}

-- `_authenticate_request`
abbrev pub authenticate : Result AuthError AgentContext → Result NoteError AgentContext
authenticate (ok agent_ctx) = ok agent_ctx
authenticate (err e) = err (unauthenticated e)

abbrev pub on_path : {A : Type 0} → Result PathError A → Result NoteError A
on_path (ok a) = ok a
on_path (err e) = err (bad_path e)

unfoldable pub note_content : Setting → Fields → Text → Text → Text
note_content s fm title body =
    build_frontmatter s fm ++ concat (text "\n# " ∷ title ∷ text "\n\n" ∷ body ∷ text "\n" ∷ [])

-- the steps that follow the check of the path in every tool that creates a note
unfoldable pub record_note :
    Setting → String → String → Fields → String → Text → Fields → Text → Text → Tool NoteError Text
record_note s agent tool args source_type rel_path fm title body w =
    let content = note_content s fm title body in
    let (written, after) =
      upsert_document s rel_path fm body (s.sha256 content) source_type agent w in
    if written.1
    then (do
      write_file s rel_path content
      λ (v : Service). (
        ok (text "created: " ++ rel_path),
        logged s agent tool args "ok" none (queue_embedding written.0 v),
      ))
        after
    else (ok (text "unchanged: " ++ rel_path), logged s agent tool args "unchanged" none after)

titled : Setting → Text → Text → Fields
titled s title rel_path =
    field "title" (str (s.string title)) (field "path" (str (s.string rel_path)) end)

-- the fields that every new note starts with
started : Setting → String → String → Json → Fields → Fields
started s kind agent tags rest = field "type" (str kind) (
    field "created" (str s.now_iso) (
      field "updated" (str s.later_iso)
        (field "agent" (str agent) (field "tags" tags (field "related" (arr nil) rest)))))

unfoldable pub create_runbook_note :
    Setting
    → Result AuthError AgentContext
    → Text
    → Text
    → List String
    → Option String
    → Tool NoteError Text
unfolding titled started
create_runbook_note s caller title body tags agent = do
  agent_ctx ← lift (authenticate caller)
  target ← lift (on_path (resolve_write_target s.sha256 agent_ctx "70-runbooks"))
  let rel_path = concat (target.1 ∷ text "/" ∷ slugify s title ∷ text ".md" ∷ [])
  lift (on_path (check_path rel_path))
  let fm =
      add_author (declared_author agent agent_ctx)
        (with_freshness s (started s "runbook" agent_ctx.agent (texts tags) end))
  record_note s agent_ctx.agent "create_runbook_note" (titled s title rel_path) "runbook" rel_path
      fm title body

dated : Setting → Text → Text → Text
dated s folder title =
    concat (folder ∷ text "/" ∷ s.today ∷ text "-" ∷ slugify s title ∷ text ".md" ∷ [])

unfoldable pub create_error_pattern_note :
    Setting
    → Result AuthError AgentContext
    → Text
    → String
    → String
    → String
    → String
    → Text
    → List String
    → Option String
    → Tool NoteError Text
unfolding titled started dated
create_error_pattern_note s caller title category severity trigger_condition prevention_rule body
      tags agent =
    do
      agent_ctx ← lift (authenticate caller)
      target ← lift (on_path (resolve_write_target s.sha256 agent_ctx "80-error-patterns"))
      let rel_path = dated s target.1 title
      lift (on_path (check_path rel_path))
      let fm = add_author (declared_author agent agent_ctx) (
          with_freshness s (
            started s "error-pattern" agent_ctx.agent (texts tags) (
              field "priority" (str "P2") (
                field "category" (str category) (
                  field "severity" (str severity) (
                    field "trigger_condition" (str trigger_condition)
                      (field "prevention_rule" (str prevention_rule) end)))))))
      record_note s agent_ctx.agent "create_error_pattern_note" (titled s title rel_path)
          "error-pattern" rel_path fm title body

unfoldable pub create_external_note :
    Setting
    → Result AuthError AgentContext
    → Text
    → String
    → Text
    → Text
    → List String
    → Tool NoteError Text
unfolding dated
create_external_note s caller source url title body tags = do
  agent_ctx ← lift (authenticate caller)
  target ← lift (on_path (resolve_write_target s.sha256 agent_ctx "50-external"))
  let rel_path = dated s (concat (target.1 ∷ text "/" ∷ slugify s source ∷ [])) title
  lift (on_path (check_path rel_path))
  let fm = with_freshness s (
      field "type" (str "external") (
        field "created" (str s.now_iso) (
          field "updated" (str s.later_iso) (
            field "agent" (str agent_ctx.agent) (
              field "source" (str (s.string source)) (
                field "url" (str url)
                  (field "tags" (texts tags) (field "related" (arr nil) end))))))))
  record_note s agent_ctx.agent "create_external_note"
      (field "title" (str (s.string title))
        (field "source" (str (s.string source)) (field "path" (str (s.string rel_path)) end)))
      "external" rel_path fm title body

unfoldable pub create_handoff :
    Setting → Result AuthError AgentContext → String → String → Text → Text → Tool NoteError Text
unfolding started
create_handoff s caller from_agent to_agent title body = do
  agent_ctx ← lift (authenticate caller)
  lift (if check_write_scope agent_ctx "90-inbox" then ok tt else err no_write_scope)
  let rel_path = handoff_rel_path s (text "90-inbox") (text from_agent) (text to_agent)
  lift (on_path (check_path rel_path))
  let fm =
      add_author (declared_author (some from_agent) agent_ctx)
        (with_freshness s (started s "handoff" agent_ctx.agent (texts ("handoff" ∷ [])) end))
  record_note s agent_ctx.agent "create_handoff"
      (field "from" (str from_agent)
        (field "to" (str to_agent) (field "path" (str (s.string rel_path)) end)))
      "handoff" rel_path fm title body
