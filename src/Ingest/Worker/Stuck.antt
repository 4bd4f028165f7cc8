-- ===== src/Ingest/Worker/Stuck.antt =====
-- Jobs that the UNIQUE constraint of embedding_jobs keeps from being completed.
use public_gbrain_agentos.Base.{
  ℕ, ◌≡◌, refl, true, false, none, List, [], ◌∷◌, any, arith, Option-cases, Bool-cases, inl, inr,
  ◌==◌,
}
use public_gbrain_agentos.Base.Text.{Text}
use public_gbrain_agentos.Base.Table.{update_where}
use public_gbrain_agentos.Ingest.Embedder.{Cache, embed}
use public_gbrain_agentos.Ingest.Worker.{
  JobStatus, processing, completed, failed, Job, Store, World, Row, set_status, conflicts,
  update_status, insert_chunks, delete_chunks, chunks_of, store_chunks, process_chunks, process_job,
  process_batch, after_abort, fetch_jobs, run_turn, kept,
}

-- a change of the job itself is none to its conflicts
pub conflicts-update :
    (job_id doc_id now : ℕ) (status new_status : JobStatus) (jobs : List Job)
    → any
        (conflicts job_id doc_id status)
        (update_where (λ j. j.id == job_id) (set_status now new_status) jobs)
      ≡ any (conflicts job_id doc_id status) jobs
unfolding update_where
conflicts-update job_id doc_id now status new_status [] = refl
conflicts-update job_id doc_id now status new_status (j ∷ jobs) =
    ground (arith, conflicts-update job_id doc_id now status new_status jobs)

module _ {F : Type 0} (world : World F) (r : Row) where
  refused :
      (t : Store)
      → any (conflicts r.id r.doc_id completed) t.jobs ≡ true
      → update_status world.now r.id r.doc_id completed t ≡ none
  unfolding update_status
  refused t done = rw done refl

  store-refused :
      (texts : List Text) (vs : List (List F)) (t : Store)
      → any (conflicts r.id r.doc_id completed) t.jobs ≡ true
      → store_chunks world r texts vs t ≡ none
  unfolding store_chunks
  store-refused texts vs t done =
      elim (Option-cases
        (insert_chunks world r.doc_id 0 texts vs (delete_chunks r.doc_id t).chunks)) [
          | inl raised ↦ rw (raised, store_chunks) refl
          | inr (chunks, stored) ↦
              rw (stored, store_chunks) (refused (record t { chunks = chunks }) done)
        ]

  chunks-refused :
      (texts : List Text) (t : Store) (cache : Cache (List F))
      → any (conflicts r.id r.doc_id completed) t.jobs ≡ true
      → (process_chunks world r texts t cache).0 ≡ none
  unfolding process_chunks
  chunks-refused [] t cache done = refused t done
  chunks-refused (c ∷ texts) t cache done =
      elim (Option-cases (embed world.sha256 world.model (c ∷ texts) cache).0) [
        | inl raised ↦ rw (raised, process_chunks) refl
        | inr (vs, embedded) ↦ rw (embedded, process_chunks) (store-refused (c ∷ texts) vs t done)
      ]

  -- A document is embedded once: where another job of it has been completed, process_job raises,
  -- whatever the body, the embeddings and the other tables are, so that nothing of it is kept.
  pub process_job-refused :
      (t : Store) (cache : Cache (List F))
      → any (conflicts r.id r.doc_id completed) t.jobs ≡ true
      → (process_job world r t cache).0 ≡ none
  unfolding process_job update_status
  process_job-refused t cache done =
      elim (Bool-cases (any (conflicts r.id r.doc_id processing) t.jobs)) [
        | inl taken ↦ rw (process_job, update_status, taken) refl
        | inr free ↦
            rw (process_job, update_status, free)
              (chunks-refused (chunks_of r.body) _ cache
                (rw (conflicts-update r.id r.doc_id world.now completed processing t.jobs) done))
      ]

  batch-refused :
      (rows : List Row) (t : Store) (cache : Cache (List F))
      → world.shutdown r.id ≡ false
      → any (conflicts r.id r.doc_id completed) t.jobs ≡ true
      → any (conflicts r.id r.doc_id failed) t.jobs ≡ true
      → kept t (process_batch world (r ∷ rows) t cache).0 ≡ t
  unfolding process_batch
  batch-refused rows t cache runs done gave_up =
      rw (process_batch, runs, process_job-refused t cache done, update_status, gave_up)
        (left_alone rows)
    where
      left_alone : (rows : List Row) → kept t (after_abort world rows) ≡ t
      left_alone [] = unfold after_abort in refl
      left_alone (q ∷ rows) = unfold after_abort in ground arith

  -- The whole queue gets stuck: where the first job of a batch belongs to a document that has a
  -- completed and a failed job, the turn changes nothing in the tables, so that the next turn meets
  -- the same job again.
  pub run_turn-stuck :
      (rows : List Row) (t : Store) (cache : Cache (List F))
      → fetch_jobs world t ≡ r ∷ rows
      → world.shutdown r.id ≡ false
      → any (conflicts r.id r.doc_id completed) t.jobs ≡ true
      → any (conflicts r.id r.doc_id failed) t.jobs ≡ true
      → (run_turn world t cache).0 ≡ t
  unfolding run_turn
  run_turn-stuck rows t cache fetched runs done gave_up =
      rw fetched (batch-refused rows t cache runs done gave_up)
