-- ===== src/Recall/Tests.antt =====
-- The cache at concrete inputs: numbers for keys and values.
use public_gbrain_agentos.Base.{ℕ, refl, none, some, [], ◌∷◌, ◌==◌, ==_iff, arith}
use public_gbrain_agentos.Base.{◌+◌, ◌≤◌, List}
use public_gbrain_agentos.Base.Text.{Text, text}
use public_gbrain_agentos.Recall.Ranking.{Item, truncate_snippets}
use public_gbrain_agentos.Recall.Ranking.Budget.{total_lines, truncate_snippets-bounded}
use public_gbrain_agentos.Recall.Cache.{RecallCache, find}
use public_gbrain_agentos.Recall.Cache.Bounded.{
  IsBounded, looked, stored, cleared, run_cache, run-IsBounded,
}

abbrev cache : RecallCache ℕ ℕ
cache = record {
  store = record { key = 1; ts = 10; value = 100 } ∷ record { key = 2; ts = 20; value = 200 } ∷ [];
  ttl_sec = 90;
  max_entries = 2;
}

cache-IsBounded : IsBounded (◌==◌) ==_iff cache
unfolding find
cache-IsBounded = record { keys = (refl, (refl, tt)); size = omega arith }

run-IsBounded_example :
    IsBounded
      (◌==◌)
      ==_iff
      (run_cache (◌==◌) (stored 30 3 300 ∷ looked 40 2 ∷ looked 500 3 ∷ cleared ∷ []) cache)
run-IsBounded_example =
    run-IsBounded (◌==◌) ==_iff (stored 30 3 300 ∷ looked 40 2 ∷ looked 500 3 ∷ cleared ∷ []) cache
      cache-IsBounded

abbrev line : Text
line = text "a line"

abbrev results : List Item
results =
    record { doc_id = some 1; scope = "30-decisions"; snippet = line ∷ line ∷ [] }
    ∷ record { doc_id = some 1; scope = "30-decisions"; snippet = line ∷ [] }
    ∷ record { doc_id = none; scope = "20-daily"; snippet = line ∷ line ∷ [] }
    ∷ []

truncate_snippets-bounded_example : total_lines (truncate_snippets 3 0 results) ≤ 3 + 3
truncate_snippets-bounded_example = truncate_snippets-bounded 3 results
