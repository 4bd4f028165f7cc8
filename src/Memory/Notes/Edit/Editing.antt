-- ===== src/Memory/Notes/Edit/Editing.antt =====
-- The tools that change notes change the table of documents by its statements only.
use mathlib.Core.Path.{subst}
use public_gbrain_agentos.Base.{
  ℕ, ◌≡◌, sym, String, Bool, true, false, Option, none, some, ◌++◌, arith, inl, inr, Bool-cases,
  Option-cases, Result, ok, Result-cases, if◌then◌else◌,
}
use public_gbrain_agentos.Base.Text.{Text, text_eq, strip}
use public_gbrain_agentos.Base.Json.{Fields, str}
use public_gbrain_agentos.Base.Json.Dicts.{get, set_key}
use public_gbrain_agentos.Base.Table.Keys.{lookup, update-missing}
use public_gbrain_agentos.Base.Table.{update_where}
use public_gbrain_agentos.Auth.Errors.{AuthError}
use public_gbrain_agentos.Auth.Scopes.{AgentContext}
use public_gbrain_agentos.Memory.Paths.{check_path}
use public_gbrain_agentos.Memory.Service.{Service, Setting, logged, by_path}
use public_gbrain_agentos.Memory.Notes.{
  NoteError, parse_frontmatter, parse_iso_ts, build_frontmatter, body_part,
}
use public_gbrain_agentos.Memory.Notes.Store.{
  upsert_document, queue_embedding, write_file, read_file, exists, close, close_document,
  insert_or_rewrite, stamp, at_path,
}
use public_gbrain_agentos.Memory.Notes.Store.Edits.{
  Edits, start, then_edit, edited, closed, Edits-trans, Between, Between-then, Between-check,
  write-Between, read-Between, upsert-Between, insert-Between, stamp-Keeps,
}
use public_gbrain_agentos.Memory.Notes.Create.{on_path}
use public_gbrain_agentos.Memory.Notes.Edit.{
  replaced, log_so_far, append_daily_log, check_exists, update_document,
}
use public_gbrain_agentos.Memory.Notes.Supersession.{
  rewrite_old, mark_closed, replace_decision, queue_path, finish_supersede, supersede_decision,
}
use public_gbrain_agentos.Memory.Notes.Verify.{mirror_stamp, verify_note}

queued :
    (changed : Bool) (id : ℕ) (w v : Service)
    → Between w v
    → Between w (if changed then queue_embedding id v else v)
unfolding queue_embedding
queued true id w v es = es
queued false id w v es = es

pub close-Between :
    (s : Setting) (old_path new_path : Text) (w v : Service)
    → close_document s old_path new_path w ≡ ok v
    → Between w v
unfolding close_document
close-Between s old_path new_path w v h =
    let docs' = update_where (at_path old_path) (close s.string s.now new_path) w.documents in
    elim (Bool-cases (text_eq new_path old_path)) [
      | inr other ↦
          let it : record w { documents = docs' } ≡ v = ground (arith, h, other) in
          subst (Between w) it (then_edit start (closed s.string s.now old_path new_path other))
      | inl self ↦ elim (Option-cases (lookup by_path old_path w.documents)) [
        | inr (row, found) ↦ absurd (ground (arith, h, found, self))
        | inl missing ↦
            let it : record w { documents = docs' } ≡ v = ground (arith, h, missing) in
            subst (Between w) it (
              subst (λ docs. Edits w.documents w.next_document docs w.next_document)
                (sym (
                  update-missing by_path old_path (close s.string s.now new_path) w.documents
                    missing))
                start)
      ]
    ]

pub queue_path-Between : (path : Text) (w : Service) → Between w (queue_path path w)
unfolding queue_path queue_embedding
queue_path-Between path w = elim (Option-cases (lookup by_path path w.documents)) [
  | inl missing ↦ rw (missing, queue_path) start
  | inr (row, found) ↦ rw (found, queue_path) start
]

pub choose :
    {A : Type 0} (b : Bool) (w : Service) (p q : Result NoteError A × Service)
    → Between w p.1
    → Between w q.1
    → Between w (if b then p else q).1
choose true w p q hp hq = hp
choose false w p q hp hq = hq

module _ (s : Setting) where
  log-Between : (path : Text) (w : Service) → Between w (log_so_far s path w).1
  unfolding log_so_far
  log-Between path w = elim (Bool-cases (exists path w)) [
    | inl old ↦
        rw old (Between-then _ w (read_file s path w) (read-Between s path w) (λ md v. start))
    | inr new ↦ rw new start
  ]

  pub daily-Between :
      (caller : Result AuthError AgentContext) (agent : String) (body : Text) (w : Service)
      → Between w (append_daily_log s caller agent body w).1
  unfolding append_daily_log logged
  daily-Between caller agent body w = Between-check _ w _ λ agent_ctx. Between-check _ w _ λ target.
      Between-check _ w _ λ p. Between-then _ w (log_so_far s _ w) (log-Between _ w) λ so_far v.
        Between-then _ v (write_file s _ _ v) (write-Between s _ _ v)
          λ u x. upsert-Between s _ _ _ _ _ _ x

  pub update-Between :
      (caller : Result AuthError AgentContext) (given body : Text) (w : Service)
      → Between w (update_document s caller given body w).1
  unfolding update_document logged queue_embedding check_exists
  update-Between caller given body w = Between-check _ w _ λ agent_ctx. Between-check _ w _ λ path.
      Between-check _ w _ λ u. Between-check _ w _ λ u'. Between-check _ w _ λ p.
        Between-check _ w _ λ found.
          Between-then _ w (read_file s path w) (read-Between s path w) λ md v.
            Between-then _ v (write_file s path _ v) (write-Between s path _ v) λ done x.
              Between-check _ x _ λ fm. Between-check _ x _ λ kind.
                let fm' = set_key "updated" (str s.now_iso) fm in
                let hash = s.sha256 (replaced md body) in
                let r = upsert_document s path fm' body hash kind agent_ctx.agent x in
                queued r.0.1 r.0.0 x r.1
                  (upsert-Between s path fm' body hash kind agent_ctx.agent x)

  rewrite_old-Between :
      (path : Text) (fm : Fields) (md : Text) (w : Service) → Between w (rewrite_old s path fm md w)
  unfolding rewrite_old
  rewrite_old-Between path fm md w = write-Between s path (build_frontmatter s fm ++ body_part md) w

  pub mark-Between :
      (old_path rel_path : Text) (md : Option Text) (w : Service)
      → Between w (mark_closed s old_path rel_path md w).1
  unfolding mark_closed
  mark-Between old_path rel_path none w = start
  mark-Between old_path rel_path (some md) w = elim (Result-cases (parse_frontmatter s md)) [
    | inl (e, wrong) ↦ rw (wrong, mark_closed) start
    | inr (fm, parsed) ↦ rw (parsed, mark_closed) (rewrite_old-Between old_path _ md w)
  ]

  replace-Between :
      (agent : String) (scope old_path rel_path : Text) (fm : Fields) (body hash : Text)
      (w : Service)
      → Between w (replace_decision s agent scope old_path rel_path fm body hash w).1
  unfolding replace_decision
  replace-Between agent scope old_path rel_path fm body hash w =
      let t = parse_iso_ts s (get "valid_from" fm) in
      let v = insert_or_rewrite s.now rel_path fm body hash "decision" agent scope t w in
      elim (Result-cases (close_document s old_path rel_path v)) [
        | inl (e, wrong) ↦ rw (wrong, replace_decision) start
        | inr (x, done) ↦
            rw (done, replace_decision)
              (Edits-trans (insert-Between s.now rel_path fm body hash "decision" agent scope t w)
                (close-Between s old_path rel_path v x done))
      ]

  finish-Between :
      (agent : String) (old_path rel_path content : Text) (md : Option Text) (w : Service)
      → Between w (finish_supersede s agent old_path rel_path content md w).1
  unfolding finish_supersede logged
  finish-Between agent old_path rel_path content md w =
      Between-then _ w (write_file s rel_path content w) (write-Between s rel_path content w) λ u v.
        Between-then _ v (mark_closed s old_path rel_path md v)
          (mark-Between old_path rel_path md v) λ u' x. queue_path-Between rel_path x

  mirror-Between :
      (agent : String) (path basis : Text) (w : Service)
      → Between w (mirror_stamp s agent path basis w).1
  unfolding mirror_stamp
  mirror-Between agent path basis w = elim (Result-cases (on_path (check_path path))) [
    | inl (e, wrong) ↦ rw (wrong, mirror_stamp) start
    | inr (p, fine) ↦ elim (Result-cases (read_file s path w).0) [
      | inl (e, wrong) ↦ rw (fine, mirror_stamp, wrong) start
      | inr (md, read) ↦ elim (Result-cases (parse_frontmatter s md)) [
        | inl (e, wrong) ↦ rw (fine, mirror_stamp, read, wrong) start
        | inr (fm, parsed) ↦ rw (fine, mirror_stamp, read, parsed) (rewrite_old-Between path _ md w)
      ]
    ]
  ]

  pub supersede-Between :
      (caller : Result AuthError AgentContext) (given new_title new_body reason : Text)
      (w : Service)
      → Between w (supersede_decision s caller given new_title new_body reason w).1
  unfolding supersede_decision logged check_exists
  supersede-Between caller given new_title new_body reason w = Between-check _ w _ λ agent_ctx.
      Between-check _ w _ λ target. Between-check _ w _ λ old_path. Between-check _ w _ λ p.
        Between-check _ w _ λ found. Between-check _ w _ λ q. choose _ w _ _ start (
          Between-then _ w (replace_decision s _ _ old_path _ _ _ _ w)
            (replace-Between _ _ old_path _ _ _ _ w)
            λ u v. finish-Between agent_ctx.agent old_path _ _ _ v)

  pub verify-Between :
      (caller : Result AuthError AgentContext) (given basis : Text) (w : Service)
      → Between w (verify_note s caller given basis w).1
  unfolding verify_note logged
  verify-Between caller given basis w = Between-check _ w _ λ agent_ctx. Between-check _ w _ λ u.
      Between-check _ w _ λ path. Between-check _ w _ λ u'. Between-check _ w _ λ current.
        Between-then _ w _
          (then_edit start (
            edited path (stamp s agent_ctx.agent (strip basis))
              (stamp-Keeps s agent_ctx.agent (strip basis))))
          λ done v.
            Between-then _ v (mirror_stamp s agent_ctx.agent path (strip basis) v)
              (mirror-Between agent_ctx.agent path (strip basis) v) λ u x. start
