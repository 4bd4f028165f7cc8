-- ===== src/Ingest/Tests.antt =====
-- The ingest service at concrete inputs.
use public_gbrain_agentos.Base.{
  ℕ, ◌≡◌, ◌≤◌, refl, true, false, none, some, List, [], ◌∷◌, map, arith, All, length, take, ◌==◌,
}
use public_gbrain_agentos.Base.Int.{pos}
use public_gbrain_agentos.Base.Text.{Text, text, decimal, join}
use public_gbrain_agentos.Base.Text.Words.{split_words}
use public_gbrain_agentos.Base.Table.{update_where, select, sort_by, insert_by}
use public_gbrain_agentos.Ingest.Chunker.{chunk_text, chunk_words, chunk_loop}
use public_gbrain_agentos.Ingest.Chunker.Windows.{stitch, chunk_words-returns, chunk_words-endless}
use public_gbrain_agentos.Ingest.Embedder.{cache_key, embed}
use public_gbrain_agentos.Ingest.Embedder.Cached.{IsSound, embed_lem}
use public_gbrain_agentos.Ingest.Worker.{
  JobStatus, pending, completed, failed, processing, Job, Store, World, Row, set_status,
  process_job, fetch_jobs, run_turn, chunks_of,
}
use public_gbrain_agentos.Ingest.Worker.Jobs.{process_job_effect, replaced}
use public_gbrain_agentos.Ingest.Worker.Stuck.{process_job-refused, run_turn-stuck}

windows_test :
    chunk_text 9 (text "a b c d e") (pos 3) (pos 1) ≡ some (text "a b c" ∷ text "c d e" ∷ [])
unfolding chunk_text chunk_words chunk_loop split_words join
windows_test = refl

abbrev words : List Text
words = text "a" ∷ text "b" ∷ text "c" ∷ []

chunk_words-returns_example :
    (chunks : List (List Text)) × (chunk_words 4 (pos 2) (pos 1) words ≡ some chunks)
    × (stitch 1 chunks ≡ words)
    × All (λ c. length c ≤ 2) chunks
chunk_words-returns_example = chunk_words-returns 2 1 4 words (omega arith) (omega arith)

chunk_words-endless_example : chunk_words 1000 (pos 2) (pos 2) words ≡ none
chunk_words-endless_example = chunk_words-endless 2 2 1000 words (omega arith) (omega arith)

-- a vector of code points in place of the model's
abbrev vec : Text → List ℕ
vec t = take 32 t

abbrev world : World ℕ
world = record {
  now = 9;
  locked = λ id. false;
  shutdown = λ id. false;
  is_vector = λ v. true;
  sha256 = λ t. t;
  show = decimal;
  model = λ ts. some (map vec ts);
}

vec-safe : (t u : Text) → cache_key world.sha256 t ≡ cache_key world.sha256 u → vec t ≡ vec u
unfolding cache_key
vec-safe t u h = h

empty-IsSound : IsSound world.sha256 vec []
empty-IsSound = record { right = tt; bounded = omega arith }

embed_lem_example :
    ((embed world.sha256 world.model words []).0 ≡ some (map vec words))
    × IsSound world.sha256 vec (embed world.sha256 world.model words []).1
embed_lem_example =
    embed_lem world.sha256 vec vec-safe world.model (λ ts. refl) words [] empty-IsSound

abbrev job : ℕ → JobStatus → Job
job id status = record { id = id; doc_id = 7; status = status; created_at = id; updated_at = id }

abbrev row : Row
row = record { id = 3; doc_id = 7; body = text "new text" }

abbrev store : List Job → Store
store jobs = record {
  jobs = jobs;
  chunks =
      record {
        doc_id = 7;
        position = 0;
        content = text "old";
        chunk_hash = [];
        embedding = [];
        embedded_at = 1;
      }
      ∷ [];
  documents = record { id = 7; body = text "new text" } ∷ [];
}

process_job_effect_example :
    (process_job world row (store (job 3 pending ∷ [])) []).0
    ≡ some (record (store (job 3 pending ∷ [])) {
      jobs =
          update_where
            (λ j. j.id == 3)
            (set_status 9 completed)
            (update_where (λ j. j.id == 3) (set_status 9 processing) (job 3 pending ∷ []));
      chunks =
          replaced world vec 7 (chunks_of (text "new text")) (store (job 3 pending ∷ [])).chunks;
    })
process_job_effect_example =
    process_job_effect world vec (λ v. refl) vec-safe (λ ts. refl) row (store (job 3 pending ∷ []))
      [] empty-IsSound refl refl

-- a document that was embedded before
process_job-refused_example :
    (process_job world row (store (job 1 completed ∷ job 3 pending ∷ [])) []).0 ≡ none
process_job-refused_example =
    process_job-refused world row (store (job 1 completed ∷ job 3 pending ∷ [])) [] refl

abbrev stuck : Store
stuck = store (job 1 completed ∷ job 2 failed ∷ job 3 pending ∷ [])

run_turn-stuck_example : (run_turn world stuck []).0 ≡ stuck
unfolding fetch_jobs select sort_by insert_by
run_turn-stuck_example = run_turn-stuck world row [] stuck [] refl refl refl refl
