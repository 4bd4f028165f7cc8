-- ===== src/Memory/Notes/Auto.antt =====
-- The branch of create_decision_note of services/memory_mcp/tools.py that supersedes earlier
-- decisions.
pub mod Closing
use public_gbrain_agentos.Base.{
  ℕ, String, Bool, true, false, not, ◌&&◌, Option, none, some, List, [], ◌∷◌, ◌++◌, map, keep,
  length, take, ◌=ₛ◌, ◌+◌, Result, ok, err, if◌then◌else◌,
}
use public_gbrain_agentos.Base.Text.{Text, text, text_eq, concat}
use public_gbrain_agentos.Base.Json.{
  Json, str, bool, float, arr, Items, nil, cons, Fields, end, field,
}
use public_gbrain_agentos.Base.Json.Dicts.{get, set_key}
use public_gbrain_agentos.Base.Json.Repr.{py_str}
use public_gbrain_agentos.Base.Table.{update_where}
use public_gbrain_agentos.Base.Table.Keys.{lookup}
use public_gbrain_agentos.Base.Audit.{AuditEntry}
use public_gbrain_agentos.Auth.Errors.{AuthError}
use public_gbrain_agentos.Auth.Scopes.{AgentContext}
use public_gbrain_agentos.Memory.Paths.{PathError, check_path, resolve_write_target}
use public_gbrain_agentos.Memory.Service.{
  Service, Document, Setting, Tool, lift, logged, by_path, ◌>>=◌, ◌>>◌,
}
use public_gbrain_agentos.Memory.Similar.{
  Floats, Alphabet, Decision, Candidate, tokenize, member, find_supersession_candidates,
}
use public_gbrain_agentos.Memory.Notes.{
  NoteError, database_error, with_freshness, declared_author, add_author, texts,
}
use public_gbrain_agentos.Memory.Notes.Store.{
  upsert_document, queue_embedding, insert_or_rewrite, close_document, write_file,
}
use public_gbrain_agentos.Memory.Notes.Create.{authenticate, on_path, note_content}
use public_gbrain_agentos.Memory.Notes.Supersession.{
  decision_path, read_quietly, mark_closed, queue_path,
}

item_texts : (Text → Text) → Items → List Text
item_texts repr_str nil = []
item_texts repr_str (cons x xs) = py_str repr_str x ∷ item_texts repr_str xs

prior : (Text → Text) → Option Json → List Text
unfolding item_texts
prior repr_str (some (arr xs)) = item_texts repr_str xs
prior repr_str _ = []

-- each path once, in the order in which they come
unique : List Text → List Text → List Text
unique seen [] = []
unique seen (p ∷ ps) = let rest = unique (p ∷ seen) ps in if member p seen then rest else p ∷ rest

-- the answer: a text, or the JSON with what the note may supersede
pub data Answer (F : Floats) : Type 0 where
  done : Text → Answer F
  suggest : Text → Bool → List (Text × F.Float) → Answer F

unfoldable pub path_items : Setting → List Text → Items
path_items s [] = nil
path_items s (p ∷ ps) = cons (str (s.string p)) (path_items s ps)

unfoldable pub titled : Setting → Text → Text → Fields → Fields
titled s title rel_path rest =
    field "title" (str (s.string title)) (field "path" (str (s.string rel_path)) rest)

-- the fields of a decision
unfoldable pub decision_fields :
    Setting → String → List String → Option (List String) → Fields → Fields
decision_fields s agent tags related rest = field "type" (str "decision") (
    field "created" (str s.now_iso) (
      field "updated" (str s.now_iso) (
        field "agent" (str agent) (
          field "tags" (texts tags)
            (field "related" (texts (or_no_texts related)) (field "priority" (str "P2") rest))))))
  where
    or_no_texts : Option (List String) → List String
    or_no_texts none = []
    or_no_texts (some xs) = xs

unfoldable pub handled :
    {A : Type 0}
    → (NoteError → Service → Service)
    → Result NoteError A × Service
    → Result NoteError A × Service
handled handler (ok a, v) = (ok a, v)
handled handler (err e, v) = (err e, handler e v)

-- `try: … except Exception as exc: …; raise`
unfoldable pub on_error :
    {A : Type 0} → (NoteError → Service → Service) → Tool NoteError A → Tool NoteError A
unfolding handled
on_error handler m w = handled handler (m w)

module _ (F : Floats) (s : Setting) where
  open F use {Float, less, divide}

  unfoldable pub paths : List (Candidate F) → List Text
  paths cs = map (λ c. c.path) cs

  -- the superseded paths, then what those superseded
  supersedes_chain : Alphabet → List (Candidate F) → List Text
  unfolding paths unique prior
  supersedes_chain alphabet cs = unique [] (paths cs ++ inherited cs)
    where
      inherited : List (Candidate F) → List Text
      inherited [] = []
      inherited (c ∷ cs) = prior alphabet.repr_str (get "supersedes" c.frontmatter) ++ inherited cs

  unfoldable pub close_all : Text → List (Candidate F) → Service → Result NoteError Service
  close_all rel_path [] w = ok w
  close_all rel_path (c ∷ cs) w = elim (close_document s c.path rel_path w) [
    | err e ↦ err e
    | ok v ↦ close_all rel_path cs v
  ]

  -- the audit rows inside the transaction
  unfoldable pub audit_all : String → Text → Text → List (Candidate F) → List AuditEntry
  audit_all agent rel_path scope [] = []
  audit_all agent rel_path scope (c ∷ cs) =
      record {
        agent = agent;
        tool = "decision_auto_supersede";
        args_summary = field "old_path" (str (s.string c.path)) (
            field "new_path" (str (s.string rel_path)) (
              field "jaccard" (float (F.show c.jaccard))
                (field "scope" (str (s.string scope)) end)));
        result_status = "ok";
        latency_ms = s.latency;
        error = none;
      }
      ∷ audit_all agent rel_path scope cs

  -- An audit row that is refused takes the whole transaction back.
  unfoldable pub supersede_all :
      String → Text → Text → Fields → Text → Text → List (Candidate F) → Tool NoteError Unit
  unfolding close_all audit_all
  supersede_all agent scope rel_path fm body content_hash cs w =
      elim (close_all rel_path cs
        (insert_or_rewrite s.now rel_path fm body content_hash "decision" agent scope none w)) [
          | err e ↦ (err e, w)
          | ok v ↦
              if s.audit_written
              then (ok tt, record v { audit = v.audit ++ audit_all agent rel_path scope cs })
              else (err database_error, w)
        ]

  -- the candidates' files, read before the transaction
  unfoldable pub old_files : List (Candidate F) → Service → List (Text × Option Text)
  old_files [] w = []
  old_files (c ∷ cs) w = (c.path, old_file (check_path c.path)) ∷ old_files cs w
    where
      old_file : Result PathError Text → Option Text
      old_file (err e) = none
      old_file (ok p) = read_quietly s c.path w

  unfoldable pub mark_all : Text → List (Text × Option Text) → Tool NoteError Unit
  mark_all rel_path [] w = (ok tt, w)
  mark_all rel_path ((path, md) ∷ files) w =
      (mark_closed s path rel_path md >> mark_all rel_path files) w

  unfoldable pub auto_supersede :
      Alphabet
      → (NoteError → String)
      → AgentContext
      → Text
      → Text
      → Text
      → Text
      → List String
      → Option (List String)
      → Option String
      → List (Candidate F)
      → Tool NoteError (Answer F)
  unfolding supersedes_chain paths supersede_all old_files mark_all path_items titled
      decision_fields on_error
  auto_supersede alphabet describe agent_ctx scope rel_path title body tags related author cs w =
      let fm = add_author author (
        decision_fields s agent_ctx.agent tags related (
          field "is_latest" (bool true) (
            field "valid_from" (str s.now_iso)
              (field "supersedes" (arr (path_items s (supersedes_chain alphabet cs))) end)))) in
      let content = note_content s fm title body in
      let failed : NoteError → Service → Service = λ e v.
        logged s agent_ctx.agent "create_decision_note"
          (titled s title rel_path (field "auto_supersede_attempted" (bool true) end)) "error"
          (some (describe e)) v in
      (do
        on_error failed do
          supersede_all agent_ctx.agent scope rel_path fm body (s.sha256 content) cs
          write_file s rel_path content
          mark_all rel_path (old_files cs w)
          λ (v : Service). (ok tt, queue_path rel_path v)
        λ (v : Service). (
          ok (done (text "created: " ++ rel_path)),
          logged s agent_ctx.agent "create_decision_note"
              (titled s title rel_path (field "superseded" (arr (path_items s (paths cs))) end))
              "ok" none v,
        ))
        w
