-- ===== src/Ingest/Worker.antt =====
-- services/ingest_worker/worker.py over the tables `embedding_jobs`, `chunks` and `documents` of
-- migrations/001_initial_schema.sql. The ids of chunks, which nothing reads, are left out.
pub mod Jobs
pub mod Stuck
use public_gbrain_agentos.Base.{
  ℕ, suc, Bool, true, false, not, ◌&&◌, Option, none, some, List, [], ◌∷◌, ◌++◌, map, any, length,
  leb, ◌==◌, if◌then◌else◌,
}
use public_gbrain_agentos.Base.Text.{Text, text, join}
use public_gbrain_agentos.Base.Text.Words.{split_words}
use public_gbrain_agentos.Base.Table.{update_where, delete_where, select}
use public_gbrain_agentos.Ingest.Chunker.{chunk_text, window_size_default, overlap_default}
use public_gbrain_agentos.Ingest.Embedder.{Cache, embed}

pub data JobStatus : Type 0 where
  pending processing completed failed : JobStatus

abbrev pub same_status : JobStatus → JobStatus → Bool
same_status pending pending = true
same_status processing processing = true
same_status completed completed = true
same_status failed failed = true
same_status _ _ = false

pub record Job : Type 0 where
  pub id : ℕ
  pub doc_id : ℕ
  pub status : JobStatus
  pub created_at : ℕ
  pub updated_at : ℕ

pub record Chunk : Type 0 where
  pub doc_id : ℕ
  pub position : ℕ
  pub content : Text
  pub chunk_hash : Text
  pub embedding : Text
  pub embedded_at : ℕ

-- what the worker reads of a document
pub record Source : Type 0 where
  pub id : ℕ
  pub body : Text

pub record Store : Type 0 where
  pub jobs : List Job
  pub chunks : List Chunk
  pub documents : List Source

-- What a turn of the worker meets: the time of its transaction, the rows that other transactions
-- have locked, the job before which a shutdown was requested, and which vectors the column takes;
-- and SHA-256, `str` of a float, and FastEmbed.
pub record World (F : Type 0) : Type 0 where
  pub now : ℕ
  pub locked : ℕ → Bool
  pub shutdown : ℕ → Bool
  pub is_vector : Text → Bool
  pub sha256 : Text → Text
  pub show : F → Text
  pub model : List Text → Option (List (List F))

abbrev pub poll_batch_size : ℕ
poll_batch_size = 10

-- `_vec_to_str`
unfoldable pub vec_to_str : {F : Type 0} → (F → Text) → List F → Text
vec_to_str show embedding = text "[" ++ (join (text ",") (map show embedding) ++ text "]")

abbrev pub set_status : ℕ → JobStatus → Job → Job
set_status now status j = record j { status = status; updated_at = now }

-- `UNIQUE (doc_id, status)`: another job of the document that has the status
abbrev pub conflicts : ℕ → ℕ → JobStatus → Job → Bool
conflicts job_id doc_id status j =
    not (j.id == job_id) && (j.doc_id == doc_id) && same_status j.status status

-- SQL_UPDATE_STATUS, on a job of the document; `none` where the constraint refuses it
unfoldable pub update_status : ℕ → ℕ → ℕ → JobStatus → Store → Option Store
update_status now job_id doc_id status t =
    if any (conflicts job_id doc_id status) t.jobs
    then none
    else some
        (record t { jobs = update_where (λ j. j.id == job_id) (set_status now status) t.jobs })

-- SQL_DELETE_CHUNKS
unfoldable pub delete_chunks : ℕ → Store → Store
delete_chunks doc_id t = record t { chunks = delete_where (λ c. c.doc_id == doc_id) t.chunks }

-- SQL_INSERT_CHUNK; `none` where the position is taken or the vector is none
unfoldable pub insert_chunk : (Text → Bool) → Chunk → List Chunk → Option (List Chunk)
insert_chunk is_vector c chunks =
    if any (λ d. (d.doc_id == c.doc_id) && (d.position == c.position)) chunks
    then none
    else if is_vector c.embedding
    then some (chunks ++ c ∷ [])
    else none

-- the chunks of the default window; the loop ends, since the fuel is more than the words
unfoldable pub chunks_of : Text → List Text
chunks_of body =
    elim (chunk_text (suc (length (split_words body))) body window_size_default overlap_default) [
      | none ↦ []
      | some chunks ↦ chunks
    ]

abbrev pub is_pending : JobStatus → Bool
is_pending status = same_status status pending

abbrev pub earlier_first : Job → Job → Bool
earlier_first a b = leb a.created_at b.created_at

-- a row of SQL_FETCH_JOBS
pub record Row : Type 0 where
  pub id : ℕ
  pub doc_id : ℕ
  pub body : Text

body_of : ℕ → List Source → Option Text
body_of doc_id [] = none
body_of doc_id (d ∷ docs) = if d.id == doc_id then some d.body else body_of doc_id docs

is_document : Option Text → Bool
is_document none = false
is_document (some body) = true

joined : List Source → List Job → List Row
unfolding body_of
joined docs [] = []
joined docs (j ∷ jobs) = elim (body_of j.doc_id docs) [
  | none ↦ joined docs jobs
  | some body ↦ record { id = j.id; doc_id = j.doc_id; body = body } ∷ joined docs jobs
]

-- the outcome of a transaction: committed; aborted by a failed statement, which takes everything
-- back; or left by an exception, which ends the worker
pub data Outcome : Type 0 where
  committed : Store → Outcome
  aborted crashed : Outcome

-- what the transaction leaves in the tables
abbrev pub kept : Store → Outcome → Store
kept t (committed t') = t'
kept t aborted = t
kept t crashed = t

module _ {F : Type 0} (world : World F) where
  unfoldable pub fetch_jobs : Store → List Row
  unfolding joined body_of is_document
  fetch_jobs t = joined t.documents (
      select
        (λ j.
          is_pending j.status
          && is_document (body_of j.doc_id t.documents)
          && not (world.locked j.id))
        earlier_first poll_batch_size t.jobs)

  -- the loop over the chunks and their embeddings
  unfoldable pub insert_chunks :
      ℕ → ℕ → List Text → List (List F) → List Chunk → Option (List Chunk)
  unfolding insert_chunk vec_to_str
  insert_chunks doc_id position [] embeddings chunks = some chunks
  insert_chunks doc_id position (c ∷ texts) [] chunks = some chunks
  insert_chunks doc_id position (c ∷ texts) (v ∷ embeddings) chunks =
      elim (insert_chunk world.is_vector
        (record {
          doc_id = doc_id;
          position = position;
          content = c;
          chunk_hash = world.sha256 c;
          embedding = vec_to_str world.show v;
          embedded_at = world.now;
        })
        chunks) [
          | none ↦ none
          | some chunks' ↦ insert_chunks doc_id (suc position) texts embeddings chunks'
        ]

  -- the chunks are replaced, and the job is completed
  store_chunks : Row → List Text → List (List F) → Store → Option Store
  unfolding delete_chunks insert_chunks update_status
  store_chunks r texts embeddings t =
      elim (insert_chunks r.doc_id 0 texts embeddings (delete_chunks r.doc_id t).chunks) [
        | none ↦ none
        | some chunks ↦
            update_status world.now r.id r.doc_id completed (record t { chunks = chunks })
      ]

  -- `none` where something is raised
  process_chunks : Row → List Text → Store → Cache (List F) → Option Store × Cache (List F)
  unfolding update_status embed store_chunks
  process_chunks r [] t cache = (update_status world.now r.id r.doc_id completed t, cache)
  process_chunks r (c ∷ texts) t cache =
      let (embeddings, after) = embed world.sha256 world.model (c ∷ texts) cache in
      (elim embeddings [ none ↦ none | some vs ↦ store_chunks r (c ∷ texts) vs t ], after)

  unfoldable pub process_job : Row → Store → Cache (List F) → Option Store × Cache (List F)
  unfolding update_status chunks_of process_chunks
  process_job r t cache = elim (update_status world.now r.id r.doc_id processing t) [
    | none ↦ (none, cache)
    | some t' ↦ process_chunks r (chunks_of r.body) t' cache
  ]

  -- Once a statement has failed outside a savepoint, the next savepoint raises.
  after_abort : List Row → Outcome
  after_abort [] = aborted
  after_abort (r ∷ rows) = if world.shutdown r.id then aborted else crashed

  -- the loop over the rows of a batch; a job that raises is rolled back and marked as failed
  unfoldable pub process_batch : List Row → Store → Cache (List F) → Outcome × Cache (List F)
  unfolding process_job update_status after_abort
  process_batch [] t cache = (committed t, cache)
  process_batch (r ∷ rows) t cache = elim (world.shutdown r.id) [
    | true ↦ (committed t, cache)
    | false ↦
        let (done, after) = process_job r t cache in
        elim done [
          | some t' ↦ process_batch rows t' after
          | none ↦ elim (update_status world.now r.id r.doc_id failed t) [
            | some t' ↦ process_batch rows t' after
            | none ↦ (after_abort rows, after)
          ]
        ]
  ]

  unfoldable pub run_turn : Store → Cache (List F) → Store × Cache (List F)
  unfolding fetch_jobs process_batch
  run_turn t cache =
      let (outcome, after) = process_batch (fetch_jobs t) t cache in (kept t outcome, after)
