-- ===== src/Memory/Notes/Edit/Confined.antt =====
-- The notes that update_document and verify_note of services/memory_mcp/tools.py can reach.
use public_gbrain_agentos.Base.{
  not, ◌||◌, ℕ, ◌≡◌, refl, ap, String, Bool, true, false, ◌&&◌, Option, none, arith, inl, inr,
  Bool-cases, Result, ok, err, Result-cases, is_ok, if◌then◌else◌,
}
use public_gbrain_agentos.Base.Text.{Text, text, text_eq, strip}
use public_gbrain_agentos.Base.Json.{Fields, str}
use public_gbrain_agentos.Base.Json.Dicts.{set_key}
use public_gbrain_agentos.Auth.Errors.{AuthError}
use public_gbrain_agentos.Auth.Scopes.{AgentContext, check_write_scope}
use public_gbrain_agentos.Memory.Paths.{
  check_path, normalize_rel_path, canonical_kind_from_path, assert_ops_subtree_owner,
}
use public_gbrain_agentos.Memory.Service.{Service, Setting, logged}
use public_gbrain_agentos.Base.Text.Equality.{text_eq_iff}
use public_gbrain_agentos.Memory.Notes.{parse_frontmatter, scope_from_path}
use public_gbrain_agentos.Memory.Notes.Store.{
  upsert_document, queue_embedding, write_file, read_file, stamp,
}
use public_gbrain_agentos.Memory.Notes.Store.Elsewhere.{
  KeepsAt, as_before, KeepsAt-then, KeepsAt-check, read-KeepsAt, write-KeepsAt, update-KeepsAt,
  upsert-KeepsAt,
}
use public_gbrain_agentos.Memory.Notes.Create.{on_path, authenticate}
use public_gbrain_agentos.Memory.Notes.Edit.{
  check_mutable, check_owned, check_exists, replaced, update_document,
}
use public_gbrain_agentos.Memory.Notes.Supersession.{rewrite_old}
use public_gbrain_agentos.Memory.Notes.Verify.{mirror_stamp, verify_note}

abbrev pub append_only : Text → Bool
append_only p =
    let kind = canonical_kind_from_path p in
    text_eq kind (text "30-decisions") || text_eq kind (text "80-error-patterns")

abbrev pub may_write : Setting → AgentContext → Text → Bool
may_write s agent_ctx p =
    check_write_scope agent_ctx (s.string (scope_from_path p))
    && is_ok (assert_ops_subtree_owner s.sha256 agent_ctx p)

abbrev pub may_update : Setting → Result AuthError AgentContext → Text → Bool
may_update s (err e) p = false
may_update s (ok agent_ctx) p = not (append_only p) && may_write s agent_ctx p

abbrev pub may_verify : Setting → Result AuthError AgentContext → Text → Bool
may_verify s (err e) p = false
may_verify s (ok agent_ctx) p = may_write s agent_ctx p

check_mutable_lem : (path : Text) → check_mutable path ≡ ok tt → append_only path ≡ false
unfolding check_mutable
check_mutable_lem path h = ground (arith, h)

check_owned_lem :
    (s : Setting) (agent_ctx : AgentContext) (path : Text)
    → check_owned s agent_ctx path ≡ ok tt
    → may_write s agent_ctx path ≡ true
unfolding check_owned
check_owned_lem s agent_ctx path h = ground (arith, h)

same_caller :
    (may : Result AuthError AgentContext → Bool) (caller : Result AuthError AgentContext)
    (agent_ctx : AgentContext)
    → authenticate caller ≡ ok agent_ctx
    → may caller ≡ false
    → may (ok agent_ctx) ≡ false
same_caller may (err e) agent_ctx known denied = absurd (ground (arith, known))
same_caller may (ok c) agent_ctx known denied = ground (arith, known, denied)

-- a path that passes a check is not one that does not pass it
differ :
    (check : Text → Bool) (path p : Text)
    → check path ≡ true
    → check p ≡ false
    → text_eq path p ≡ false
differ check path p passes fails = elim (Bool-cases (text_eq path p)) [
  | inl same ↦ absurd (cc (ap check ((text_eq_iff path p).0 same), passes, fails))
  | inr other ↦ other
]

logged-KeepsAt :
    (s : Setting) (p : Text) (agent tool : String) (args : Fields) (status : String)
    (error : Option String) (w v : Service)
    → KeepsAt p w v
    → KeepsAt p w (logged s agent tool args status error v)
unfolding logged
logged-KeepsAt s p agent tool args status error w v h = record { row = h.row; file = h.file }

queued-KeepsAt :
    (b : Bool) (p : Text) (id : ℕ) (w v : Service)
    → KeepsAt p w v
    → KeepsAt p w (if b then queue_embedding id v else v)
unfolding queue_embedding
queued-KeepsAt true p id w v h = record { row = h.row; file = h.file }
queued-KeepsAt false p id w v h = h

-- update_document leaves the row and the file of a note alone that the caller may not update: one
-- of an append-only kind (30-decisions, 80-error-patterns), also in an agent's own tree below
-- 50-ops, one outside the caller's write scopes, or one in another agent's tree. This holds for any
-- path that the caller gives, and whether the call returns or raises.
pub update_confined :
    (s : Setting) (caller : Result AuthError AgentContext) (given body p : Text) (w : Service)
    → may_update s caller p ≡ false
    → KeepsAt p w (update_document s caller given body w).1
unfolding update_document check_exists
update_confined s caller given body p w denied =
    KeepsAt-check p _ w (authenticate caller) λ agent_ctx known.
      KeepsAt-check p _ w (on_path (normalize_rel_path given)) λ path normal.
        KeepsAt-check p _ w (check_mutable path) λ u mutable.
          KeepsAt-check p _ w (check_owned s agent_ctx path) λ u' owned.
            let other =
              differ (may_update s (ok agent_ctx)) path p
                (rw (check_mutable_lem path mutable, check_owned_lem s agent_ctx path owned) refl)
                (same_caller (λ c. may_update s c p) caller agent_ctx known denied) in
            KeepsAt-check p _ w (on_path (check_path path)) λ q fine.
              KeepsAt-check p _ w _ λ found there.
                KeepsAt-then p _ w (read_file s path w) (read-KeepsAt s p path w) λ md v.
                  KeepsAt-then p _ v (write_file s path _ v) (write-KeepsAt s p path other _ v)
                    λ done x. KeepsAt-check p _ x (parse_frontmatter s md) λ fm parsed.
                      KeepsAt-check p _ x _ λ kind typed.
                        let fm' = set_key "updated" (str s.now_iso) fm in
                        let hash = s.sha256 (replaced md body) in
                        let r = upsert_document s path fm' body hash kind agent_ctx.agent x in
                        logged-KeepsAt s p agent_ctx.agent "update_document" _ _ none x _ (
                          queued-KeepsAt r.0.1 p r.0.0 x r.1
                            (upsert-KeepsAt s p path other fm' body hash kind agent_ctx.agent x))

rewrite_old-KeepsAt :
    (s : Setting) (p path : Text) (fm : Fields) (md : Text) (w : Service)
    → text_eq path p ≡ false
    → KeepsAt p w (rewrite_old s path fm md w)
unfolding rewrite_old
rewrite_old-KeepsAt s p path fm md w other = write-KeepsAt s p path other _ w

mirror-KeepsAt :
    (s : Setting) (agent : String) (p path basis : Text) (w : Service)
    → text_eq path p ≡ false
    → KeepsAt p w (mirror_stamp s agent path basis w).1
unfolding mirror_stamp
mirror-KeepsAt s agent p path basis w other = elim (Result-cases (on_path (check_path path))) [
  | inl (e, wrong) ↦ rw (wrong, mirror_stamp) (as_before p w)
  | inr (q, fine) ↦ elim (Result-cases (read_file s path w).0) [
    | inl (e, wrong) ↦ rw (fine, mirror_stamp, wrong) (as_before p w)
    | inr (md, read) ↦ elim (Result-cases (parse_frontmatter s md)) [
      | inl (e, wrong) ↦ rw (fine, mirror_stamp, read, wrong) (as_before p w)
      | inr (fm, parsed) ↦
          rw (fine, mirror_stamp, read, parsed) (rewrite_old-KeepsAt s p path _ md w other)
    ]
  ]
]

-- verify_note leaves the row and the file of a note alone that is outside the caller's write scopes
-- or in another agent's tree below 50-ops, for any path that the caller gives, and whether the call
-- returns or raises.
pub verify_confined :
    (s : Setting) (caller : Result AuthError AgentContext) (given basis p : Text) (w : Service)
    → may_verify s caller p ≡ false
    → KeepsAt p w (verify_note s caller given basis w).1
unfolding verify_note
verify_confined s caller given basis p w denied =
    KeepsAt-check p _ w (authenticate caller) λ agent_ctx known. KeepsAt-check p _ w _ λ u long.
      KeepsAt-check p _ w (on_path (normalize_rel_path given)) λ path normal.
        KeepsAt-check p _ w (check_owned s agent_ctx path) λ u' owned.
          let other =
            differ (may_verify s (ok agent_ctx)) path p (check_owned_lem s agent_ctx path owned)
              (same_caller (λ c. may_verify s c p) caller agent_ctx known denied) in
          KeepsAt-check p _ w _ λ u'' current.
            KeepsAt-then p _ w _
              (update-KeepsAt s p path other (stamp s agent_ctx.agent (strip basis)) w (λ _. refl))
              λ done v.
                KeepsAt-then p _ v (mirror_stamp s agent_ctx.agent path (strip basis) v)
                  (mirror-KeepsAt s agent_ctx.agent p path (strip basis) v other)
                  λ u3 x.
                    logged-KeepsAt s p agent_ctx.agent "verify_note" _ "ok" none x x (as_before p x)
