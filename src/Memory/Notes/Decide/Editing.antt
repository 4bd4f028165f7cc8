-- ===== src/Memory/Notes/Decide/Editing.antt =====
-- create_decision_note changes the table of documents by its statements only.
use mathlib.Core.Path.{subst}
use public_gbrain_agentos.Base.{
  ◌≡◌, String, Option, none, List, [], ◌∷◌, arith, inl, inr, Result, ok, err, Result-cases,
}
use public_gbrain_agentos.Base.Text.{Text}
use public_gbrain_agentos.Base.Json.{Fields, end}
use public_gbrain_agentos.Auth.Errors.{AuthError}
use public_gbrain_agentos.Auth.Scopes.{AgentContext}
use public_gbrain_agentos.Memory.Service.{Service, Setting, logged}
use public_gbrain_agentos.Memory.Notes.{NoteError, add_author, with_freshness}
use public_gbrain_agentos.Memory.Notes.Store.{
  upsert_document, queue_embedding, write_file, close_document, insert_or_rewrite,
}
use public_gbrain_agentos.Memory.Notes.Store.Edits.{
  start, Edits-trans, Between, Between-then, Between-check, write-Between, upsert-Between,
  insert-Between,
}
use public_gbrain_agentos.Memory.Similar.{Floats, Alphabet, Candidate}
use public_gbrain_agentos.Memory.Notes.Create.{note_content}
use public_gbrain_agentos.Memory.Notes.Supersession.{mark_closed}
use public_gbrain_agentos.Memory.Notes.Edit.Editing.{
  close-Between, queue_path-Between, mark-Between, choose,
}
use public_gbrain_agentos.Memory.Notes.Auto.{
  decision_fields, handled, on_error, close_all, supersede_all, old_files, mark_all, auto_supersede,
}
use public_gbrain_agentos.Memory.Notes.Decide.{plain_decision, decide, create_decision_note}

handled-Between :
    {A : Type 0} (handler : NoteError → Service → Service)
    → ((e : NoteError) (v : Service) → Between v (handler e v))
    → (w : Service) (p : Result NoteError A × Service) → Between w p.1
    → Between w (handled handler p).1
unfolding handled
handled-Between handler logs w (ok a, v) es = es
handled-Between handler logs w (err e, v) es = Edits-trans es (logs e v)

module _ (F : Floats) (s : Setting) where
  close_all-Between :
      (rel_path : Text) (cs : List (Candidate F)) (w v : Service)
      → close_all F s rel_path cs w ≡ ok v
      → Between w v
  unfolding close_all
  close_all-Between rel_path [] w v h =
      let it : w ≡ v = ground (arith, h) in subst (Between w) it start
  close_all-Between rel_path (c ∷ cs) w v h =
      elim (Result-cases (close_document s c.path rel_path w)) [
        | inl (e, wrong) ↦ absurd (ground (arith, h, wrong))
        | inr (x, done) ↦
            Edits-trans (close-Between s c.path rel_path w x done)
              (close_all-Between rel_path cs x v (ground (arith, h, done)))
      ]

  supersede_all-Between :
      (agent : String) (scope rel_path : Text) (fm : Fields) (body hash : Text)
      (cs : List (Candidate F)) (w : Service)
      → Between w (supersede_all F s agent scope rel_path fm body hash cs w).1
  unfolding supersede_all
  supersede_all-Between agent scope rel_path fm body hash cs w =
      let v = insert_or_rewrite s.now rel_path fm body hash "decision" agent scope none w in
      elim (Result-cases (close_all F s rel_path cs v)) [
        | inl (e, wrong) ↦ rw (wrong, supersede_all) start
        | inr (x, done) ↦
            rw (done, supersede_all)
              (choose s.audit_written w _ _
                (Edits-trans
                  (insert-Between s.now rel_path fm body hash "decision" agent scope none w)
                  (close_all-Between rel_path cs v x done))
                start)
      ]

  mark_all-Between :
      (rel_path : Text) (files : List (Text × Option Text)) (w : Service)
      → Between w (mark_all F s rel_path files w).1
  unfolding mark_all
  mark_all-Between rel_path [] w = start
  mark_all-Between rel_path ((path, md) ∷ files) w =
      Between-then _ w (mark_closed s path rel_path md w) (mark-Between s path rel_path md w)
        λ u v. mark_all-Between rel_path files v

  module _ (alphabet : Alphabet) (describe : NoteError → String) (agent_ctx : AgentContext)
      (scope rel_path title body : Text) (tags : List String) (related : Option (List String))
      (author : Option String) where
    auto-Between :
        (cs : List (Candidate F)) (w : Service)
        → Between w
            (auto_supersede F s alphabet describe agent_ctx scope rel_path title body tags related
              author cs w).1
    unfolding auto_supersede logged on_error
    auto-Between cs w =
        Between-then _ w _
          (handled-Between _ (λ e v. start) w _
            (Between-then _ w (supersede_all F s agent_ctx.agent scope rel_path _ body _ cs w)
              (supersede_all-Between agent_ctx.agent scope rel_path _ body _ cs w)
              λ u v.
                Between-then _ v (write_file s rel_path _ v) (write-Between s rel_path _ v) λ u' x.
                  Between-then _ x (mark_all F s rel_path (old_files F s cs w) x)
                    (mark_all-Between rel_path (old_files F s cs w) x)
                    λ u'' y. queue_path-Between rel_path y))
          λ u v. start

    plain-Between :
        (hints : List (Candidate F)) (w : Service)
        → Between w (plain_decision F s agent_ctx rel_path title body tags related author hints w).1
    unfolding plain_decision logged queue_embedding
    plain-Between hints w =
        let fm =
          add_author author
            (with_freshness s (decision_fields s agent_ctx.agent tags related end)) in
        let content = note_content s fm title body in
        let r =
          upsert_document s rel_path fm body (s.sha256 content) "decision" agent_ctx.agent w in
        let edits =
          upsert-Between s rel_path fm body (s.sha256 content) "decision" agent_ctx.agent w in
        choose r.0.1 w _ _
          (Edits-trans edits (
            Between-then _ r.1 (write_file s rel_path content r.1)
              (write-Between s rel_path content r.1) (λ u v. start)))
          edits

    decide-Between :
        (found : List (Candidate F) × List (Candidate F)) (w : Service)
        → Between w
            (decide F s alphabet describe agent_ctx scope rel_path title body tags related author
              found w).1
    unfolding decide
    decide-Between ([], hints) w = plain-Between hints w
    decide-Between (c ∷ cs, hints) w = auto-Between (c ∷ cs) w

  pub decision-Between :
      (alphabet : Alphabet) (describe : NoteError → String) (auto hint : F.Float)
      (caller : Result AuthError AgentContext) (title body : Text) (tags : List String)
      (related : Option (List String)) (agent : Option String) (w : Service)
      → Between w
          (create_decision_note F s alphabet describe auto hint caller title body tags related agent
            w).1
  unfolding create_decision_note
  decision-Between alphabet describe auto hint caller title body tags related agent w =
      Between-check _ w _ λ agent_ctx. Between-check _ w _ λ target.
        Between-check _ w _
          λ p. decide-Between alphabet describe agent_ctx target.0 _ title body tags related _ _ w
