-- ===== src/Ingest/Worker/Jobs.antt =====
-- What a job does to the chunks of its document.
use public_gbrain_agentos.Base.{
  ℕ, suc, ◌≡◌, refl, sym, ap, true, false, ◌&&◌, some, List, [], ◌∷◌, ◌++◌, map, any, length, arith,
  All, All-append, All-map, Bool-cases, inl, inr, ◌==◌, leb,
}
use mathlib.Core.List.{append_assoc, append-nil}
use public_gbrain_agentos.Base.Text.{Text}
use public_gbrain_agentos.Base.Table.{update_where, delete_where}
use public_gbrain_agentos.Base.Text.Words.{split_words}
use public_gbrain_agentos.Ingest.Chunker.{chunk_text, window_size_default, overlap_default}
use public_gbrain_agentos.Ingest.Chunker.Windows.{chunk_words-returns}
use public_gbrain_agentos.Ingest.Embedder.{Cache, cache_key}
use public_gbrain_agentos.Ingest.Embedder.Cached.{IsSound, embed_lem}
use public_gbrain_agentos.Ingest.Worker.{
  processing, completed, Chunk, Store, World, Row, set_status, conflicts, update_status, vec_to_str,
  insert_chunk, insert_chunks, delete_chunks, chunks_of, store_chunks, process_chunks, process_job,
}
use public_gbrain_agentos.Ingest.Worker.Stuck.{conflicts-update}

-- no chunk of the document stands at the position or behind it
abbrev Room : ℕ → ℕ → List Chunk → Type 0
Room doc_id position = All (λ c. ((c.doc_id == doc_id) && leb position c.position) ≡ false)

Room-any :
    (doc_id position : ℕ) (chunks : List Chunk)
    → Room doc_id position chunks
    → any (λ d. (d.doc_id == doc_id) && (d.position == position)) chunks ≡ false
Room-any doc_id position [] h = refl
Room-any doc_id position (c ∷ chunks) h = ground (arith, h.0, Room-any doc_id position chunks h.1)

delete-Room :
    (doc_id : ℕ) (chunks : List Chunk)
    → Room doc_id 0 (delete_where (λ c. c.doc_id == doc_id) chunks)
unfolding delete_where
delete-Room doc_id [] = tt
delete-Room doc_id (c ∷ chunks) = elim (Bool-cases (c.doc_id == doc_id)) [
  | inl gone ↦ rw gone (delete-Room doc_id chunks)
  | inr stays ↦ rw stays (rw stays refl, delete-Room doc_id chunks)
]

next-Room :
    (doc_id position : ℕ) (chunks : List Chunk)
    → Room doc_id position chunks
    → Room doc_id (suc position) chunks
next-Room doc_id position chunks h =
    All-map (λ c. ((c.doc_id == doc_id) && leb position c.position) ≡ false)
      (λ c. ((c.doc_id == doc_id) && leb (suc position) c.position) ≡ false)
      (λ c k. ground (arith, k)) chunks h

module _ {F : Type 0} (world : World F) (vec : Text → List F) where
  -- the chunk of a text
  abbrev pub chunk_row : ℕ → ℕ → Text → Chunk
  chunk_row doc_id position c = record {
    doc_id = doc_id;
    position = position;
    content = c;
    chunk_hash = world.sha256 c;
    embedding = vec_to_str world.show (vec c);
    embedded_at = world.now;
  }

  -- the texts, numbered from a position on
  abbrev pub chunk_rows : ℕ → ℕ → List Text → List Chunk
  chunk_rows doc_id position [] = []
  chunk_rows doc_id position (c ∷ texts) =
      chunk_row doc_id position c ∷ chunk_rows doc_id (suc position) texts

  -- The chunks of a document whose body has none are not deleted.
  abbrev pub replaced : ℕ → List Text → List Chunk → List Chunk
  replaced doc_id [] chunks = chunks
  replaced doc_id (c ∷ texts) chunks =
      delete_where (λ c. c.doc_id == doc_id) chunks ++ chunk_rows doc_id 0 (c ∷ texts)

  module _ (vectors : (v : Text) → world.is_vector v ≡ true) where
    insert_chunks_lem :
        (doc_id position : ℕ) (texts : List Text) (chunks : List Chunk)
        → Room doc_id position chunks
        → insert_chunks world doc_id position texts (map vec texts) chunks
          ≡ some (chunks ++ chunk_rows doc_id position texts)
    unfolding insert_chunks insert_chunk
    insert_chunks_lem doc_id position [] chunks h = ap some (sym (append-nil chunks))
    insert_chunks_lem doc_id position (c ∷ texts) chunks h =
        let row = chunk_row doc_id position c in
        rw
          (
            insert_chunks,
            insert_chunk,
            Room-any doc_id position chunks h,
            vectors (vec_to_str world.show (vec c)),
            insert_chunks_lem doc_id (suc position) texts (chunks ++ row ∷ []) (
                All-append (λ c. ((c.doc_id == doc_id) && leb (suc position) c.position) ≡ false)
                  chunks (row ∷ []) (next-Room doc_id position chunks h) (ground arith, tt)),
          )
          (ap some (append_assoc chunks (row ∷ []) (chunk_rows doc_id (suc position) texts)))

    module _
        (safe : (t u : Text) → cache_key world.sha256 t ≡ cache_key world.sha256 u → vec t ≡ vec u)
        (answers : (ts : List Text) → world.model ts ≡ some (map vec ts)) (r : Row) where
      chunks_lem :
          (texts : List Text) (t : Store) (cache : Cache (List F))
          → IsSound world.sha256 vec cache
          → any (conflicts r.id r.doc_id completed) t.jobs ≡ false
          → (process_chunks world r texts t cache).0
            ≡ some (record t {
              jobs = update_where (λ j. j.id == r.id) (set_status world.now completed) t.jobs;
              chunks = replaced r.doc_id texts t.chunks;
            })
      unfolding process_chunks update_status
      chunks_lem [] t cache sound free = rw free refl
      chunks_lem (c ∷ texts) t cache sound free =
          let gone = delete_where (λ c. c.doc_id == r.doc_id) t.chunks in
          rw
            (
              process_chunks,
              (embed_lem world.sha256 vec safe world.model answers (c ∷ texts) cache sound).0,
              store_chunks,
              delete_chunks,
              insert_chunks_lem r.doc_id 0 (c ∷ texts) gone (delete-Room r.doc_id t.chunks),
              update_status,
              free,
            )
            refl

      -- A job is completed, and the chunks of its document are the windows of its body in order, with
      -- their digests and vectors, in place of the old ones, while those of other documents stay: where
      -- no other job of the document is being processed or completed, and the model gives each text
      -- its vector, which the column takes. A body without words keeps the old chunks.
      pub process_job_effect :
          (t : Store) (cache : Cache (List F))
          → IsSound world.sha256 vec cache
          → any (conflicts r.id r.doc_id processing) t.jobs ≡ false
          → any (conflicts r.id r.doc_id completed) t.jobs ≡ false
          → (process_job world r t cache).0
            ≡ some (record t {
              jobs =
                  update_where
                    (λ j. j.id == r.id)
                    (set_status world.now completed)
                    (update_where (λ j. j.id == r.id) (set_status world.now processing) t.jobs);
              chunks = replaced r.doc_id (chunks_of r.body) t.chunks;
            })
      unfolding process_job update_status
      process_job_effect t cache sound free fresh =
          rw (process_job, update_status, free)
            (chunks_lem (chunks_of r.body) _ cache sound
              (rw (conflicts-update r.id r.doc_id world.now completed processing t.jobs) fresh))

-- The loop over the default window ends, so that the chunks of a body are what chunk_text returns.
chunks_of_lem :
    (body : Text)
    → chunk_text (suc (length (split_words body))) body window_size_default overlap_default
      ≡ some (chunks_of body)
unfolding chunk_text chunks_of
chunks_of_lem body =
    let words = split_words body in
    let (chunks, found, stitched, bounded) =
      chunk_words-returns 500 50 (suc (length words)) words (omega arith) (omega arith) in
    rw (chunks_of, chunk_text, found) refl
