-- ===== src/Memory/Notes/Supersession/Effect.antt =====
-- supersede_decision of services/memory_mcp/tools.py on the table `documents`.
use public_gbrain_agentos.Base.{
  ℕ, ◌≡◌, refl, String, Bool, true, false, Option, none, some, List, [], ◌∷◌, arith, inl, inr,
  Option-cases, ok,
}
use public_gbrain_agentos.Base.Text.{Text, text_eq}
use public_gbrain_agentos.Base.Json.{Fields}
use public_gbrain_agentos.Base.Json.Dicts.{get}
use public_gbrain_agentos.Base.Table.Keys.{
  lookup, lookup-append, lookup-update, lookup-one, or_none,
}
use public_gbrain_agentos.Base.Table.{update_where}
use public_gbrain_agentos.Auth.Scopes.{AgentContext}
use public_gbrain_agentos.Memory.Paths.{normalize_rel_path, check_path, resolve_write_target}
use public_gbrain_agentos.Memory.Service.{Service, Document, Setting, by_path, and_then}
use public_gbrain_agentos.Base.Text.Equality.{text_eq_iff}
use public_gbrain_agentos.Memory.Notes.{parse_iso_ts}
use public_gbrain_agentos.Memory.Notes.Store.{
  exists, close, close_document, insert_or_rewrite, rewrite, fresh_document, at_path,
}
use public_gbrain_agentos.Memory.Notes.Create.{note_content}
use public_gbrain_agentos.Memory.Notes.Edit.{check_exists}
use public_gbrain_agentos.Memory.Notes.Supersession.{
  read_quietly, replace_decision, is_unchanged, supersede_decision, decision_path, supersede_body,
  supersede_frontmatter,
}
use public_gbrain_agentos.Memory.Notes.Supersession.Files.{finish-documents}

-- A row with the body, found under the new path.
abbrev pub holds_body : Text → Option Document → Bool
holds_body body none = false
holds_body body (some r) = text_eq r.body body

text_eq-flip : (a b : Text) → text_eq a b ≡ false → text_eq b a ≡ false
text_eq-flip a b differ = ground (arith, differ, text_eq_iff a b, text_eq_iff b a)

pub unchanged_row :
    (p path : Text) (f : Document → Document) (docs : List Document)
    → ((r : Document) → (f r).path ≡ r.path)
    → text_eq path p ≡ false
    → lookup by_path p (update_where (at_path path) f docs) ≡ lookup by_path p docs
unchanged_row p path f docs keeps other =
    rw (lookup-update by_path path p (λ _. true) f keeps docs, other) refl

pub changed_row :
    (path : Text) (f : Document → Document) (docs : List Document) (row : Document)
    → ((r : Document) → (f r).path ≡ r.path)
    → lookup by_path path docs ≡ some row
    → lookup by_path path (update_where (at_path path) f docs) ≡ some (f row)
changed_row path f docs row keeps found =
    rw
      (
        lookup-update by_path path path (λ _. true) f keeps docs,
        (text_eq_iff path path).1 refl,
        found,
      )
      refl

module _ (now : ℕ) (path : Text) (fm : Fields) (body hash : Text) (source_type agent : String)
    (scope : Text) (valid_from : Option ℕ) (w : Service) where
  abbrev pub inserted : List Document
  inserted =
      (insert_or_rewrite now path fm body hash source_type agent scope valid_from w).documents

  pub insert-lookup : holds_body body (lookup by_path path inserted) ≡ true
  unfolding insert_or_rewrite
  insert-lookup = elim (Option-cases (lookup by_path path w.documents)) [
    | inl new ↦
        let row =
          fresh_document now w.next_document path fm body hash source_type agent scope valid_from in
        rw
          (
            new,
            inserted,
            insert_or_rewrite,
            lookup-append by_path path w.documents (row ∷ []),
            new,
            lookup-one by_path row path,
            (text_eq_iff path path).1 refl,
          )
          ((text_eq_iff body body).1 refl)
    | inr (row, found) ↦
        rw
          (
            found,
            inserted,
            insert_or_rewrite,
            changed_row path (rewrite now fm body hash source_type agent scope) w.documents row
                (λ _. refl) found,
          )
          ((text_eq_iff body body).1 refl)
  ]

  pub insert-other :
      (p : Text) → text_eq path p ≡ false → lookup by_path p inserted ≡ lookup by_path p w.documents
  unfolding insert_or_rewrite
  insert-other p other = elim (Option-cases (lookup by_path path w.documents)) [
    | inl new ↦
        let row =
          fresh_document now w.next_document path fm body hash source_type agent scope valid_from in
        rw
          (
            new,
            inserted,
            insert_or_rewrite,
            lookup-append by_path p w.documents (row ∷ []),
            lookup-one by_path row p,
            other,
          )
          (or_none (lookup by_path p w.documents))
    | inr (row, found) ↦
        rw
          (
            found,
            inserted,
            insert_or_rewrite,
            unchanged_row p path (rewrite now fm body hash source_type agent scope) w.documents
                (λ _. refl) other,
          )
          refl
  ]

-- The table after supersession: the old row is closed, the new path has a row with the body, and
-- what stands at other paths is as it was.
pub record Superseded (s : Setting) (old_path rel_path body : Text) (old : Document)
    (before after : List Document) : Type 0 where
  pub closed : lookup by_path old_path after ≡ some (close s.string s.now rel_path old)
  pub created : holds_body body (lookup by_path rel_path after) ≡ true
  pub others :
      (p : Text)
      → text_eq rel_path p ≡ false
      → text_eq old_path p ≡ false
      → lookup by_path p after ≡ lookup by_path p before

module _ (s : Setting) (agent : String) (scope old_path rel_path : Text) (fm : Fields)
    (body hash : Text) (w : Service) (other : text_eq rel_path old_path ≡ false) where
  after_insert : Service
  after_insert =
      insert_or_rewrite s.now rel_path fm body hash "decision" agent scope
        (parse_iso_ts s (get "valid_from" fm)) w

  after_close : Service
  after_close = record after_insert {
    documents =
        update_where (at_path old_path) (close s.string s.now rel_path) after_insert.documents;
  }

  replace-effect :
      replace_decision s agent scope old_path rel_path fm body hash w ≡ (ok tt, after_close)
  unfolding replace_decision after_insert after_close close_document
  replace-effect = elim (Option-cases (lookup by_path old_path after_insert.documents)) [
    | inl missing ↦ rw (replace_decision, close_document, missing) refl
    | inr (row, found) ↦ rw (replace_decision, close_document, found, other) refl
  ]

  close-effect :
      (old : Document)
      → lookup by_path old_path w.documents ≡ some old
      → Superseded s old_path rel_path body old w.documents after_close.documents
  unfolding after_close after_insert
  close-effect old found =
      let f = close s.string s.now rel_path in
      let t = parse_iso_ts s (get "valid_from" fm) in
      record {
        closed =
            changed_row old_path f after_insert.documents old (λ _. refl)
              (cc (
                insert-other s.now rel_path fm body hash "decision" agent scope t w old_path other,
                found,
              ));
        created =
            rw
              (unchanged_row rel_path old_path f after_insert.documents (λ _. refl)
                (text_eq-flip rel_path old_path other))
              (insert-lookup s.now rel_path fm body hash "decision" agent scope t w);
        others = λ p new different.
            rw (unchanged_row p old_path f after_insert.documents (λ _. refl) different)
              (insert-other s.now rel_path fm body hash "decision" agent scope t w p new);
      }

-- When its guards pass, the new decision is not there with the same content, its path is not the
-- old one, and the old path has a document `old`, supersede_decision closes `old`: whatever its
-- scope and owner, and whether the writes of files that follow succeed or raise.
pub supersede_effect :
    (s : Setting) (agent_ctx : AgentContext) (target : Text × Text)
    (given old_path p q title new_body reason : Text) (old : Document) (w : Service)
    → resolve_write_target s.sha256 agent_ctx "30-decisions" ≡ ok target
    → normalize_rel_path given ≡ ok old_path
    → check_path old_path ≡ ok p
    → exists old_path w ≡ true
    → check_path (decision_path s target.1 title) ≡ ok q
    → is_unchanged
        (decision_path s target.1 title)
        (s.sha256 (
          note_content s
            (supersede_frontmatter s agent_ctx old_path)
            title
            (supersede_body old_path reason new_body)))
        w
      ≡ false
    → text_eq (decision_path s target.1 title) old_path ≡ false
    → lookup by_path old_path w.documents ≡ some old
    → Superseded s old_path
        (decision_path s target.1 title)
        (supersede_body old_path reason new_body)
        old
        w.documents
        (supersede_decision s (ok agent_ctx) given title new_body reason w).1.documents
unfolding supersede_decision and_then check_exists
supersede_effect s agent_ctx target given old_path p q title new_body reason old w may normal
      old_fine there new_fine changed other found =
    let rel_path = decision_path s target.1 title in
    let body = supersede_body old_path reason new_body in
    let fm = supersede_frontmatter s agent_ctx old_path in
    let content = note_content s fm title body in
    let v =
      after_close s agent_ctx.agent target.0 old_path rel_path fm body (s.sha256 content) w other in
    rw
      (
        may,
        normal,
        old_fine,
        there,
        new_fine,
        changed,
        replace-effect s agent_ctx.agent target.0 old_path rel_path fm body (s.sha256 content) w
            other,
        finish-documents s agent_ctx.agent old_path rel_path content (read_quietly s old_path w) v,
      )
      (close-effect s agent_ctx.agent target.0 old_path rel_path fm body (s.sha256 content) w other
        old found)
