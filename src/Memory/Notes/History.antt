-- ===== src/Memory/Notes/History.antt =====
-- Any calls of the note tools, one after another.
use public_gbrain_agentos.Base.{◌≡◌, String, true, Option, List, [], ◌∷◌, Result}
use public_gbrain_agentos.Base.Text.{Text}
use public_gbrain_agentos.Auth.Errors.{AuthError}
use public_gbrain_agentos.Auth.Scopes.{AgentContext}
use public_gbrain_agentos.Memory.Service.{Service, Setting}
use public_gbrain_agentos.Memory.Similar.{Floats, Alphabet}
use public_gbrain_agentos.Memory.Notes.{NoteError}
use public_gbrain_agentos.Memory.Notes.Store.Edits.{Between}
use public_gbrain_agentos.Memory.Notes.Store.Rows.{
  IsSound, retired_at, Edits-IsSound, Edits-retired,
}
use public_gbrain_agentos.Memory.Notes.Create.{
  create_runbook_note, create_error_pattern_note, create_external_note, create_handoff,
}
use public_gbrain_agentos.Memory.Notes.Create.Editing.{
  runbook-Between, error_pattern-Between, external-Between, handoff-Between,
}
use public_gbrain_agentos.Memory.Notes.Edit.{append_daily_log, update_document}
use public_gbrain_agentos.Memory.Notes.Supersession.{supersede_decision}
use public_gbrain_agentos.Memory.Notes.Verify.{verify_note}
use public_gbrain_agentos.Memory.Notes.Edit.Editing.{
  daily-Between, update-Between, supersede-Between, verify-Between,
}
use public_gbrain_agentos.Memory.Notes.Decide.{create_decision_note}
use public_gbrain_agentos.Memory.Notes.Decide.Editing.{decision-Between}

-- a call of a tool that writes notes
pub data Call (F : Floats) : Type 0 where
  decision :
      F.Float → F.Float → Text → Text → List String → Option (List String) → Option String → Call F
  runbook : Text → Text → List String → Option String → Call F
  error_pattern :
      Text → String → String → String → String → Text → List String → Option String → Call F
  external : Text → String → Text → Text → List String → Call F
  handoff : String → String → Text → Text → Call F
  daily_log : String → Text → Call F
  update : Text → Text → Call F
  supersede : Text → Text → Text → Text → Call F
  verify : Text → Text → Call F

module _ (F : Floats) (alphabet : Alphabet) (describe : NoteError → String) where
  -- the state after a call, whether it returns or raises
  unfoldable pub call : Setting → Result AuthError AgentContext → Call F → Service → Service
  call s caller (decision auto hint title body tags related agent) w =
      (create_decision_note F s alphabet describe auto hint caller title body tags related agent
        w).1
  call s caller (runbook title body tags agent) w =
      (create_runbook_note s caller title body tags agent w).1
  call s caller
        (error_pattern title category severity trigger_condition prevention_rule body tags agent)
        w =
      (create_error_pattern_note s caller title category severity trigger_condition prevention_rule
        body tags agent w).1
  call s caller (external source url title body tags) w =
      (create_external_note s caller source url title body tags w).1
  call s caller (handoff from_agent to_agent title body) w =
      (create_handoff s caller from_agent to_agent title body w).1
  call s caller (daily_log agent body) w = (append_daily_log s caller agent body w).1
  call s caller (update path body) w = (update_document s caller path body w).1
  call s caller (supersede old_path new_title new_body reason) w =
      (supersede_decision s caller old_path new_title new_body reason w).1
  call s caller (verify path basis) w = (verify_note s caller path basis w).1

  call-Between :
      (s : Setting) (caller : Result AuthError AgentContext) (c : Call F) (w : Service)
      → Between w (call s caller c w)
  unfolding call
  call-Between s caller (decision auto hint title body tags related agent) w =
      decision-Between F s alphabet describe auto hint caller title body tags related agent w
  call-Between s caller (runbook title body tags agent) w =
      runbook-Between s caller title body tags agent w
  call-Between s caller
        (error_pattern title category severity trigger_condition prevention_rule body tags agent)
        w =
      error_pattern-Between s caller title category severity trigger_condition prevention_rule body
        tags agent w
  call-Between s caller (external source url title body tags) w =
      external-Between s caller source url title body tags w
  call-Between s caller (handoff from_agent to_agent title body) w =
      handoff-Between s caller from_agent to_agent title body w
  call-Between s caller (daily_log agent body) w = daily-Between s caller agent body w
  call-Between s caller (update path body) w = update-Between s caller path body w
  call-Between s caller (supersede old_path new_title new_body reason) w =
      supersede-Between s caller old_path new_title new_body reason w
  call-Between s caller (verify path basis) w = verify-Between s caller path basis w

  unfoldable pub run : List (Setting × Result AuthError AgentContext × Call F) → Service → Service
  run [] w = w
  run ((s, caller, c) ∷ calls) w = run calls (call s caller c w)

  -- Any calls of the note tools, by any callers, whether they return or raise, keep the constraints
  -- of the table `documents`: no two documents share a path, ids stay below the sequence, a document
  -- with valid_until or superseded_by is not current, none supersedes itself, and verified_at and
  -- verified_by are set together.
  pub notes-IsSound :
      (calls : List (Setting × Result AuthError AgentContext × Call F)) (w : Service)
      → IsSound w.documents w.next_document
      → IsSound (run calls w).documents (run calls w).next_document
  unfolding run
  notes-IsSound [] w h = h
  notes-IsSound ((s, caller, c) ∷ calls) w h =
      notes-IsSound calls (call s caller c w)
        (Edits-IsSound w.documents w.next_document (call-Between s caller c w) h)

  -- A document that is no longer current never becomes current again: whatever calls of the note
  -- tools follow, its row stays in the table with is_latest = false. A tool that writes a new note to
  -- its path does not bring it back either.
  pub retired_forever :
      (path : Text) (calls : List (Setting × Result AuthError AgentContext × Call F)) (w : Service)
      → retired_at path w.documents ≡ true
      → retired_at path (run calls w).documents ≡ true
  unfolding run
  retired_forever path [] w h = h
  retired_forever path ((s, caller, c) ∷ calls) w h =
      retired_forever path calls (call s caller c w)
        (Edits-retired path w.documents w.next_document (call-Between s caller c w) h)
