-- ===== src/Swarm/Worker/Attempts.antt =====
-- What a poll does to the attempts of the letters: `deliver_one` gives the error text, and the loop
-- reads it back to tell a missing gateway from other failures.
use public_gbrain_agentos.Base.{
  ℕ, ◌+◌, ◌≡◌, ◌≢◌, refl, ◌∙◌, String, Bool, false, Option, some, none, List, ◌++◌, arith, All,
  All-map, All-zip, Option-cases, inl, inr,
}
use public_gbrain_agentos.Base.Text.{Text, text, starts_with}
use public_gbrain_agentos.Swarm.Outbox.Rows.{Row, Outbox, by_task_id, pending}
use public_gbrain_agentos.Base.Table.Keys.{lookup}
use public_gbrain_agentos.Swarm.Outbox.{fetch_due}
use public_gbrain_agentos.Swarm.Outbox.Invariant.{IsWellFormed}
use public_gbrain_agentos.Swarm.Worker.{poll, batch_size}
use public_gbrain_agentos.Swarm.Worker.Batch.{fetched_row}
use public_gbrain_agentos.Swarm.Deliver.{
  Config, Request, PostOutcome, response, timeout_exception, http_error, uncaught, Verdict,
  delivered, retry, failed, no_gateway_prefix, gateway_url, build_request, classify, http_status,
  deliver_one,
}
use public_gbrain_agentos.Swarm.Worker.Effects.{settled, IsSettled, poll_effect}

-- No answer of the transport reads like a missing gateway.
classify_error :
    (o : PostOutcome) (v : Verdict) (e : Text)
    → classify o ≡ some (v, e)
    → starts_with e no_gateway_prefix ≡ false
unfolding classify http_status
classify_error (response code body) v e h = ground arith
classify_error (timeout_exception m) v e h = ground arith
classify_error (http_error name m) v e h = ground arith
classify_error uncaught v e h = absurd (ground arith)

-- what an answer adds to the attempts of a letter
abbrev pub cost : Option String → Verdict → ℕ
cost none v = 0
cost (some url) delivered = 0
cost (some url) retry = 1
cost (some url) failed = 1

settled-pays :
    (now : ℕ) (row : Row) (v : Verdict) (e : Text) (url : String)
    → starts_with e no_gateway_prefix ≡ false
    → (settled now row v e).attempts ≡ row.attempts + cost (some url) v
unfolding settled
settled-pays now row delivered e url h = omega arith
settled-pays now row failed e url h = refl
settled-pays now row retry e url h = rw (h, settled) (ground arith)

settled-waits :
    (now : ℕ) (row : Row) (v : Verdict) (e : Text)
    → v ≡ retry
    → e ≡ no_gateway_prefix ++ (text " for agent=" ++ text row.to_agent)
    → (settled now row v e).attempts ≡ row.attempts + cost none v
unfolding settled
settled-waits now row v e h k = rw (h, k, settled) (omega arith)

settled_attempts :
    (c : Config) (post : Request → PostOutcome) (now : ℕ) (row : Row) (v : Verdict) (e : Text)
    → deliver_one c post row ≡ some (v, e)
    → (settled now row v e).attempts ≡ row.attempts + cost (gateway_url c row.to_agent) v
unfolding deliver_one
settled_attempts c post now row v e h = elim (Option-cases (gateway_url c row.to_agent)) [
  | inl missing ↦
      rw missing (settled-waits now row v e (ground (arith, missing)) (ground (arith, missing)))
  | inr (url, found) ↦ rw found (
      settled-pays now row v e url (elim (Option-cases (build_request c row url)) [
        | inl held ↦ ground (arith, found, held)
        | inr (request, built) ↦ classify_error (post request) v e (ground (arith, found, built))
      ]))
]

settled_waits :
    (c : Config) (post : Request → PostOutcome) (now : ℕ) (row : Row) (v : Verdict) (e : Text)
    → deliver_one c post row ≡ some (v, e)
    → gateway_url c row.to_agent ≡ none
    → (settled now row v e).status ≡ row.status
unfolding deliver_one settled
settled_waits c post now row v e h missing =
    let waits : v ≡ retry = ground (arith, missing) in
    let reason : e ≡ no_gateway_prefix ++ (text " for agent=" ++ text row.to_agent) =
      ground (arith, missing) in
    rw (waits, reason, settled) (ground arith)

-- The row that stands under a letter's task_id after its delivery was answered by `v`.
pub record IsCounted (c : Config) (post : Request → PostOutcome) (rows : List Row) (b : Row)
    : Type 0 where
  pub verdict : Verdict
  pub last_error : Text
  pub row : Row
  pub answered : deliver_one c post b ≡ some (verdict, last_error)
  pub found : lookup by_task_id b.task_id rows ≡ some row
  pub attempts : row.attempts ≡ b.attempts + cost (gateway_url c b.to_agent) verdict
  pub waits : gateway_url c b.to_agent ≡ none → row.status ≡ pending

-- If no delivery raises, then after a poll of a well-formed table every letter that was fetched has
-- one attempt more if it was not delivered, and as many as before if it was, or if its recipient
-- has no gateway URL; in the last case it is still pending.
pub poll_attempts :
    (c : Config) (post : Request → PostOutcome) (now : ℕ) (locked : ℕ → Bool) (t : Outbox)
    → IsWellFormed t
    → All (λ b. deliver_one c post b ≢ none) (fetch_due now locked batch_size t)
    → All
        (IsCounted c post (poll (deliver_one c post) now locked t).rows)
        (fetch_due now locked batch_size t)
poll_attempts c post now locked t h answered =
    let rows = (poll (deliver_one c post) now locked t).rows in
    let bs = fetch_due now locked batch_size t in
    All-map
      (λ b.
        IsSettled (deliver_one c post) now rows b
        × ((lookup by_task_id b.task_id t.rows ≡ some b) × (b.status ≡ pending)))
      (IsCounted c post rows)
      (λ b ((v, e, said, here), (was, due)). record {
        verdict = v;
        last_error = e;
        row = settled now b v e;
        answered = said;
        found = here;
        attempts = settled_attempts c post now b v e said;
        waits = λ missing. settled_waits c post now b v e said missing ∙ due;
      })
      bs
      (All-zip (IsSettled (deliver_one c post) now rows)
        (λ b. (lookup by_task_id b.task_id t.rows ≡ some b) × (b.status ≡ pending)) bs
        (poll_effect (deliver_one c post) now locked t h answered).0
        (fetched_row now locked batch_size t h))
