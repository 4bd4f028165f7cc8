-- ===== src/Memory/Notes/Auto/Closing.antt =====
-- The transaction of create_decision_note that closes the decisions which the new one supersedes.
use public_gbrain_agentos.Base.{
  ◌≡◌, ◌⊎◌, refl, sym, ap, ◌∙◌, String, Bool, true, false, not, ◌&&◌, Option, none, some, List, [],
  ◌∷◌, ◌++◌, arith, All, inl, inr, Bool-cases, Option-cases, ok, err, Result-cases, if◌then◌else◌,
}
use mathlib.Core.Path.{subst}
use public_gbrain_agentos.Base.Text.{Text, text_eq}
use public_gbrain_agentos.Base.Text.Equality.{text_eq_iff}
use public_gbrain_agentos.Base.Json.{Fields}
use public_gbrain_agentos.Base.Table.{update_where}
use public_gbrain_agentos.Base.Table.Keys.{lookup, lookup-update, updated}
use public_gbrain_agentos.Memory.Service.{Service, Document, Setting, by_path}
use public_gbrain_agentos.Memory.Similar.{Floats, Candidate}
use public_gbrain_agentos.Memory.Notes.{NoteError, database_error}
use public_gbrain_agentos.Memory.Notes.Store.{close, close_document, insert_or_rewrite, at_path}
use public_gbrain_agentos.Memory.Notes.Supersession.Effect.{holds_body, insert-lookup, insert-other}
use public_gbrain_agentos.Memory.Notes.Auto.{close_all, audit_all, supersede_all}

abbrev is_path : Text → Option Text → Bool
is_path path none = false
is_path path (some p) = text_eq p path

-- a row, if there is one, that is superseded by the path
abbrev pub closed_by : Text → Option Document → Bool
closed_by path none = true
closed_by path (some r) = not r.is_latest && is_path path r.superseded_by

closed_document :
    (s : Setting) (old_path new_path : Text) (w v : Service)
    → close_document s old_path new_path w ≡ ok v
    → record w {
      documents = update_where (at_path old_path) (close s.string s.now new_path) w.documents;
    }
      ≡ v
unfolding close_document
closed_document s old_path new_path w v h =
    elim (Option-cases (lookup by_path old_path w.documents)) [
      | inl missing ↦ ground (arith, h, missing)
      | inr (row, found) ↦ elim (Bool-cases (text_eq new_path old_path)) [
        | inl self ↦ absurd (ground (arith, h, found, self))
        | inr other ↦ ground (arith, h, found, other)
      ]
    ]

-- what an UPDATE that closes rows does to a row that is closed, and to the one that it finds
closes :
    (s : Setting) (new_path : Text) (hit : Bool) (o : Option Document)
    → (hit ≡ true) ⊎ (closed_by new_path o ≡ true)
    → closed_by new_path (if hit then updated (λ _. true) (close s.string s.now new_path) o else o)
      ≡ true
closes s new_path false o (inl h) = absurd (ground (arith, h))
closes s new_path false o (inr h) = h
closes s new_path true none h = refl
closes s new_path true (some r) h = (text_eq_iff new_path new_path).1 refl

module _ (F : Floats) (s : Setting) (rel_path : Text) where
  -- what closing the candidates does to the table
  record Closes (cs : List (Candidate F)) (w v : Service) : Type 0 where
    closed : All (λ c. closed_by rel_path (lookup by_path c.path v.documents) ≡ true) cs
    stays :
        (p : Text)
        → closed_by rel_path (lookup by_path p w.documents) ≡ true
        → closed_by rel_path (lookup by_path p v.documents) ≡ true
    others :
        (p : Text)
        → All (λ c. text_eq c.path p ≡ false) cs
        → lookup by_path p v.documents ≡ lookup by_path p w.documents

  -- what is found after one candidate has been closed
  one :
      (c : Candidate F) (x w : Service)
      → close_document s c.path rel_path w ≡ ok x
      → (p : Text)
      → lookup by_path p x.documents ≡ (
          if text_eq c.path p
          then updated (λ _. true) (close s.string s.now rel_path) (lookup by_path p w.documents)
          else lookup by_path p w.documents)
  one c x w done p =
      ap (λ (v : Service). lookup by_path p v.documents)
        (sym (closed_document s c.path rel_path w x done))
      ∙ lookup-update by_path c.path p (λ _. true) (close s.string s.now rel_path) (λ _. refl)
          w.documents

  close_all-Closes :
      (cs : List (Candidate F)) (w v : Service) → close_all F s rel_path cs w ≡ ok v → Closes cs w v
  unfolding close_all
  close_all-Closes [] w v h =
      let same : w.documents ≡ v.documents = ground (arith, h) in
      record {
        closed = tt;
        stays = λ p k.
            subst (λ (docs : List Document). closed_by rel_path (lookup by_path p docs) ≡ true) same
              k;
        others = λ p k.
            subst (λ (docs : List Document). lookup by_path p docs ≡ lookup by_path p w.documents)
              same refl;
      }
  close_all-Closes (c ∷ cs) w v h = elim (Result-cases (close_document s c.path rel_path w)) [
    | inl (e, refused) ↦ absurd (ground (arith, h, refused))
    | inr (x, done) ↦
        let ih = close_all-Closes cs x v (ground (arith, h, done)) in
        record {
          closed = (
            ih.stays c.path (
                rw (one c x w done c.path) (
                  closes s rel_path (text_eq c.path c.path) (lookup by_path c.path w.documents)
                    (inl ((text_eq_iff c.path c.path).1 refl)))),
            ih.closed,
          );
          stays = λ p k. ih.stays p (
              rw (one c x w done p)
                (closes s rel_path (text_eq c.path p) (lookup by_path p w.documents) (inr k)));
          others = λ p apart. ih.others p apart.1 ∙ (rw (one c x w done p, apart.0) refl);
        }
  ]

  -- The table after the transaction, where it commits: the candidates' rows are superseded by the new
  -- path, the new path has a row with the body, and what stands at other paths is as it was.
  pub record Decided (cs : List (Candidate F)) (body : Text) (w v : Service) : Type 0 where
    pub closed : All (λ c. closed_by rel_path (lookup by_path c.path v.documents) ≡ true) cs
    pub created : holds_body body (lookup by_path rel_path v.documents) ≡ true
    pub others :
        (p : Text)
        → text_eq rel_path p ≡ false
        → All (λ c. text_eq c.path p ≡ false) cs
        → lookup by_path p v.documents ≡ lookup by_path p w.documents

  -- The transaction of an auto-supersession is all or nothing: it raises and leaves the state as it
  -- was, or it supersedes every candidate by the new decision and changes no other document. The
  -- candidates are not at the new path, as the query sees to.
  pub supersede_all-Decided :
      (agent : String) (scope : Text) (fm : Fields) (body hash : Text) (cs : List (Candidate F))
      (w : Service)
      → All (λ c. text_eq c.path rel_path ≡ false) cs
      → ((e : NoteError) × (supersede_all F s agent scope rel_path fm body hash cs w ≡ (err e, w)))
        ⊎ ((v : Service) × (supersede_all F s agent scope rel_path fm body hash cs w ≡ (ok tt, v))
            × Decided cs body w v)
  unfolding supersede_all
  supersede_all-Decided agent scope fm body hash cs w apart =
      let w' = insert_or_rewrite s.now rel_path fm body hash "decision" agent scope none w in
      elim (Result-cases (close_all F s rel_path cs w')) [
        | inl (e, refused) ↦ inl (e, rw (supersede_all, refused) refl)
        | inr (x, done) ↦ elim (Bool-cases s.audit_written) [
          | inr lost ↦ inl (database_error, rw (supersede_all, done, lost) refl)
          | inl written ↦
              let r = close_all-Closes cs w' x done in
              inr (
                record x { audit = x.audit ++ audit_all F s agent rel_path scope cs },
                rw (supersede_all, done, written) refl,
                record {
                  closed = r.closed;
                  created =
                      rw (r.others rel_path apart)
                        (insert-lookup s.now rel_path fm body hash "decision" agent scope none w);
                  others = λ p new different.
                      r.others p different
                      ∙ insert-other s.now rel_path fm body hash "decision" agent scope none w p
                          new;
                },
              )
        ]
      ]
