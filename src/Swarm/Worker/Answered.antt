-- ===== src/Swarm/Worker/Answered.antt =====
-- What the state of a letter after a poll says of its delivery.
use public_gbrain_agentos.Base.{◌+◌, ◌≤◌, ◌≡◌, ◌⊎◌}
use public_gbrain_agentos.Base.Text.{Text}
use public_gbrain_agentos.Swarm.Outbox.Rows.{Row, Status, Outbox, pending, sent}
use public_gbrain_agentos.Swarm.Deliver.{Config, Request, PostOutcome, failed}
use public_gbrain_agentos.Swarm.Deliver.Outcomes.{IsAnswered, is_success, is_refusal}

module _ (c : Config) (post : Request → PostOutcome) where
  -- what a fetched letter's row `s` owes to the answer: nothing if it still waits
  abbrev pub IsExplained : Row → Row → Type 0
  IsExplained b s =
      (s.status ≡ pending)
      ⊎ ((s.status ≡ sent) × IsAnswered c post b is_success)
      ⊎ ((s.status ≡ Status.failed)
          × (IsAnswered c post b is_refusal ⊎ (b.max_attempts ≤ b.attempts + 1)))
