-- ===== src/Memory/Notes/Create/Editing.antt =====
-- The tools that create notes change the table of documents by its statements only.
use public_gbrain_agentos.Base.{String, Option, List, inl, inr, Bool-cases, Result}
use public_gbrain_agentos.Base.Text.{Text}
use public_gbrain_agentos.Base.Json.{Fields}
use public_gbrain_agentos.Auth.Errors.{AuthError}
use public_gbrain_agentos.Auth.Scopes.{AgentContext}
use public_gbrain_agentos.Memory.Service.{Service, Setting, logged}
use public_gbrain_agentos.Memory.Notes.Store.{upsert_document, queue_embedding, write_file}
use public_gbrain_agentos.Memory.Notes.Store.Edits.{
  start, Edits-trans, Between, Between-then, Between-check, write-Between, upsert-Between,
}
use public_gbrain_agentos.Memory.Notes.Create.{
  record_note, note_content, create_runbook_note, create_error_pattern_note, create_external_note,
  create_handoff,
}

pub record-Between :
    (s : Setting) (agent tool : String) (args : Fields) (source_type : String) (path : Text)
    (fm : Fields) (title body : Text) (w : Service)
    → Between w (record_note s agent tool args source_type path fm title body w).1
unfolding record_note logged queue_embedding
record-Between s agent tool args source_type path fm title body w =
    let hash = s.sha256 (note_content s fm title body) in
    let r = upsert_document s path fm body hash source_type agent w in
    let edits = upsert-Between s path fm body hash source_type agent w in
    elim (Bool-cases r.0.1) [
      | inr same ↦ rw same edits
      | inl changed ↦ rw changed (
          Edits-trans edits (
            Between-then _ r.1 (write_file s path (note_content s fm title body) r.1)
              (write-Between s path (note_content s fm title body) r.1) (λ u v. start)))
    ]

module _ (s : Setting) (caller : Result AuthError AgentContext) where
  pub runbook-Between :
      (title body : Text) (tags : List String) (agent : Option String) (w : Service)
      → Between w (create_runbook_note s caller title body tags agent w).1
  unfolding create_runbook_note
  runbook-Between title body tags agent w = Between-check _ w _ λ agent_ctx.
      Between-check _ w _
        λ target. Between-check _ w _ λ p. record-Between s _ _ _ _ _ _ title body w

  pub error_pattern-Between :
      (title : Text) (category severity trigger_condition prevention_rule : String) (body : Text)
      (tags : List String) (agent : Option String) (w : Service)
      → Between w
          (create_error_pattern_note s caller title category severity trigger_condition
            prevention_rule body tags agent w).1
  unfolding create_error_pattern_note
  error_pattern-Between title category severity trigger_condition prevention_rule body tags agent
        w =
      Between-check _ w _ λ agent_ctx.
        Between-check _ w _
          λ target. Between-check _ w _ λ p. record-Between s _ _ _ _ _ _ title body w

  pub external-Between :
      (source : Text) (url : String) (title body : Text) (tags : List String) (w : Service)
      → Between w (create_external_note s caller source url title body tags w).1
  unfolding create_external_note
  external-Between source url title body tags w = Between-check _ w _ λ agent_ctx.
      Between-check _ w _
        λ target. Between-check _ w _ λ p. record-Between s _ _ _ _ _ _ title body w

  pub handoff-Between :
      (from_agent to_agent : String) (title body : Text) (w : Service)
      → Between w (create_handoff s caller from_agent to_agent title body w).1
  unfolding create_handoff
  handoff-Between from_agent to_agent title body w = Between-check _ w _ λ agent_ctx.
      Between-check _ w _ λ u. Between-check _ w _ λ p. record-Between s _ _ _ _ _ _ title body w
