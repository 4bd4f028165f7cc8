-- ===== src/Swarm/Tests/Queue.antt =====
-- The outbox, the worker and the history of the service at concrete inputs.
use public_gbrain_agentos.Base.{◌≡◌, refl, true, Option, none, some, [], ◌∷◌, ◌=ₛ◌, if◌then◌else◌}
use public_gbrain_agentos.Base.Text.{Text}
use public_gbrain_agentos.Base.Table.Keys.{lookup, updated, or_else}
use public_gbrain_agentos.Base.Table.{select, sort_by, insert_by}
use public_gbrain_agentos.Swarm.Outbox.Rows.{Row, by_task_id}
use public_gbrain_agentos.Swarm.Outbox.Steps.{Advances}
use public_gbrain_agentos.Swarm.Outbox.Invariant.{IsWellFormed}
use public_gbrain_agentos.Swarm.Outbox.{enqueue, choose_task_id, fetch_due, touch, fresh_row}
use public_gbrain_agentos.Swarm.Outbox.Queries.{enqueue_effect}
use public_gbrain_agentos.Swarm.Deliver.{Verdict, delivered}
use public_gbrain_agentos.Swarm.Worker.{poll, batch_size}
use public_gbrain_agentos.Swarm.Worker.Effects.{poll_rollback}
use public_gbrain_agentos.Swarm.Server.History.{history, history_safe}
use public_gbrain_agentos.Swarm.Tests.{
  outbox, outbox-IsWellFormed, service, free, events, pending_row, other_row, greeting,
}

history_safe_example :
    IsWellFormed (history events service).outbox
    × Advances service.outbox.rows (history events service).outbox.rows
history_safe_example = history_safe events service outbox-IsWellFormed

batch : fetch_due 95 free batch_size outbox ≡ other_row ∷ pending_row ∷ []
unfolding fetch_due select sort_by insert_by
batch = refl

-- the letter to "bob" raises, after the one to "eve" was delivered
abbrev broken_answers : Row → Option (Verdict × Text)
broken_answers row = if row.to_agent =ₛ "bob" then none else some (delivered, [])

poll_rollback_example : poll broken_answers 95 free outbox ≡ outbox
poll_rollback_example =
    poll_rollback broken_answers 95 free outbox (other_row ∷ []) pending_row [] batch refl

enqueue_effect_example :
    ((enqueue 100 "0" "ann" "bob" greeting (some "b") 5 outbox).0 ≡ "b")
    × (lookup by_task_id "b" (enqueue 100 "0" "ann" "bob" greeting (some "b") 5 outbox).1.rows ≡ (
        if "b" =ₛ "b"
        then or_else
            (updated (λ _. true) (touch 100) (lookup by_task_id "b" outbox.rows))
            (some (fresh_row 100 4 "b" "ann" "bob" greeting 5))
        else lookup by_task_id "b" outbox.rows))
unfolding choose_task_id
enqueue_effect_example = enqueue_effect 100 "0" "ann" "bob" greeting (some "b") 5 outbox "b"
