-- ===== src/Memory/Notes/Decide.antt =====
-- create_decision_note of services/memory_mcp/tools.py: a decision, and what it supersedes.
pub mod Editing
use public_gbrain_agentos.Base.{
  ℕ, String, Bool, true, false, not, ◌&&◌, Option, none, some, List, [], ◌∷◌, ◌++◌, map, keep,
  length, take, ◌=ₛ◌, ◌+◌, Result, ok, err, if◌then◌else◌,
}
use public_gbrain_agentos.Base.Text.{Text, text, text_eq, concat}
use public_gbrain_agentos.Base.Json.{
  Json, str, bool, float, arr, Items, nil, cons, Fields, end, field,
}
use public_gbrain_agentos.Base.Json.Dicts.{get, set_key}
use public_gbrain_agentos.Base.Json.Repr.{py_str}
use public_gbrain_agentos.Base.Table.{update_where}
use public_gbrain_agentos.Base.Table.Keys.{lookup}
use public_gbrain_agentos.Base.Audit.{AuditEntry}
use public_gbrain_agentos.Auth.Errors.{AuthError}
use public_gbrain_agentos.Auth.Scopes.{AgentContext}
use public_gbrain_agentos.Memory.Paths.{PathError, check_path, resolve_write_target}
use public_gbrain_agentos.Memory.Service.{
  Service, Document, Setting, Tool, lift, logged, by_path, ◌>>=◌, ◌>>◌,
}
use public_gbrain_agentos.Memory.Similar.{
  Floats, Alphabet, Decision, Candidate, tokenize, member, find_supersession_candidates,
}
use public_gbrain_agentos.Memory.Notes.{
  NoteError, database_error, with_freshness, declared_author, add_author, texts,
}
use public_gbrain_agentos.Memory.Notes.Store.{
  upsert_document, queue_embedding, insert_or_rewrite, close_document, write_file,
}
use public_gbrain_agentos.Memory.Notes.Create.{authenticate, on_path, note_content}
use public_gbrain_agentos.Memory.Notes.Supersession.{
  decision_path, read_quietly, mark_closed, queue_path,
}
use public_gbrain_agentos.Memory.Notes.Auto.{
  path_items, titled, decision_fields, handled, on_error, paths, close_all, audit_all,
  supersede_all, old_files, mark_all, auto_supersede, Answer, done, suggest,
}

-- `frontmatter->>'is_latest' != 'false'`, or there is none
is_open : Fields → Bool
is_open fm = elim (get "is_latest" fm) [
  | none ↦ true
  | some v ↦ elim v [ bool b ↦ b | str s ↦ not (s =ₛ "false") | _ ↦ true ]
]

-- the rows of the SELECT
unfoldable pub is_candidate_row : Text → Text → Text → Document → Bool
unfolding is_open
is_candidate_row scope rel_path prefix r =
    text_eq r.scope scope
    && (r.source_type =ₛ "decision")
    && not (text_eq r.path rel_path)
    && text_eq (take (length prefix + 1) r.path) (prefix ++ b'/' ∷ [])
    && is_open r.frontmatter

abbrev as_decision : Document → Decision
as_decision r = record { path = r.path; frontmatter = r.frontmatter; body = r.body }

module _ (F : Floats) (s : Setting) where
  open F use {Float, less, divide}

  hint_answer : Text → Bool → Text → List (Candidate F) → Answer F
  hint_answer rel_path unchanged plain [] = done plain
  hint_answer rel_path unchanged plain (c ∷ cs) =
      suggest rel_path unchanged (map (λ c. (c.path, c.jaccard)) (c ∷ cs))

  hint_args : List (Candidate F) → Fields
  unfolding path_items paths
  hint_args [] = end
  hint_args (c ∷ cs) = field "hint_candidates" (arr (path_items s (paths F s (c ∷ cs)))) end

  -- the branches without auto-supersession
  plain_decision :
      AgentContext
      → Text
      → Text
      → Text
      → List String
      → Option (List String)
      → Option String
      → List (Candidate F)
      → Tool NoteError (Answer F)
  unfolding titled decision_fields hint_answer hint_args
  plain_decision agent_ctx rel_path title body tags related author hints w =
      let fm =
        add_author author (with_freshness s (decision_fields s agent_ctx.agent tags related end)) in
      let content = note_content s fm title body in
      let (written, after) =
        upsert_document s rel_path fm body (s.sha256 content) "decision" agent_ctx.agent w in
      if written.1
      then (do
        write_file s rel_path content
        λ (v : Service). (
          ok (hint_answer rel_path false (text "created: " ++ rel_path) hints),
          logged s agent_ctx.agent "create_decision_note"
              (titled s title rel_path (hint_args hints)) "ok" none (queue_embedding written.0 v),
        ))
          after
      else (
        ok (hint_answer rel_path true (text "unchanged: " ++ rel_path) hints),
        logged s agent_ctx.agent "create_decision_note" (titled s title rel_path end) "unchanged"
            none after,
      )

  -- An auto threshold below the hint threshold counts as none.
  effective_auto : Float → Float → Float
  effective_auto auto hint = if less auto hint && less (divide 0 1) auto then divide 0 1 else auto

  decide :
      Alphabet
      → (NoteError → String)
      → AgentContext
      → Text
      → Text
      → Text
      → Text
      → List String
      → Option (List String)
      → Option String
      → List (Candidate F) × List (Candidate F)
      → Tool NoteError (Answer F)
  unfolding auto_supersede plain_decision
  decide alphabet describe agent_ctx scope rel_path title body tags related author ([], hints) =
      plain_decision agent_ctx rel_path title body tags related author hints
  decide alphabet describe agent_ctx scope rel_path title body tags related author (c ∷ cs, hints) =
      auto_supersede F s alphabet describe agent_ctx scope rel_path title body tags related author
        (c ∷ cs)

  -- `auto` and `hint` are the thresholds that the environment gives
  unfoldable pub create_decision_note :
      Alphabet
      → (NoteError → String)
      → Float
      → Float
      → Result AuthError AgentContext
      → Text
      → Text
      → List String
      → Option (List String)
      → Option String
      → Tool NoteError (Answer F)
  unfolding effective_auto decide is_candidate_row
  create_decision_note alphabet describe auto hint caller title body tags related agent = do
    agent_ctx ← lift (authenticate caller)
    target ← lift (on_path (resolve_write_target s.sha256 agent_ctx "30-decisions"))
    let rel_path = decision_path s target.1 title
    lift (on_path (check_path rel_path))
    λ (w : Service).
        let rows = keep (is_candidate_row target.0 rel_path target.1) w.documents in
        let candidates =
          find_supersession_candidates F alphabet (tokenize alphabet (title ++ b' ' ∷ body))
            (map as_decision rows) (effective_auto auto hint) hint in
        decide alphabet describe agent_ctx target.0 rel_path title body tags related
          (declared_author agent agent_ctx) candidates w
