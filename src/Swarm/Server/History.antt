-- ===== src/Swarm/Server/History.antt =====
-- Any history of the service: tools called by any agents, failing or not, and turns of the worker.
use public_gbrain_agentos.Base.{ℕ, String, Option, none, List, [], ◌∷◌, Result, ok, err}
use public_gbrain_agentos.Base.Json.{Fields}
use public_gbrain_agentos.Auth.Errors.{AuthError}
use public_gbrain_agentos.Swarm.Outbox.Rows.{Row, Outbox}
use public_gbrain_agentos.Swarm.Outbox.Steps.{Advances, Advances-refl, Advances-trans}
use public_gbrain_agentos.Swarm.Outbox.Invariant.{
  IsWellFormed, enqueue-IsWellFormed, mark_acked-IsWellFormed,
}
use public_gbrain_agentos.Swarm.Outbox.Lifecycle.{enqueue-Advances, mark_acked-Advances}
use public_gbrain_agentos.Swarm.Outbox.{enqueue}
use public_gbrain_agentos.Swarm.Worker.{Turn, turn}
use public_gbrain_agentos.Swarm.Worker.Safety.{turn_safe}
use public_gbrain_agentos.Swarm.Server.{
  Swarm, Setting, Tool, notify, ack, broadcast, escalate, enqueue_all,
}

pub data Event : Type 0 where
  notified :
      Setting → Result AuthError String → String → String → Fields → Option String → ℕ → Event
  was_acked : Setting → Result AuthError String → String → Event
  was_broadcast : Setting → Result AuthError String → List (String × String) → Fields → ℕ → Event
  escalated : Setting → Result AuthError String → String → String → Fields → String → Event
  worked : Turn → ℕ → Event

-- A tool that raises leaves the state alone.
abbrev after : {A : Type 0} → Tool A → Swarm → Swarm
after tool w = elim (tool w) [ ok (a, w') ↦ w' | err e ↦ w ]

pub step : Event → Swarm → Swarm
step (notified s caller nonce to payload k n) w = after (notify s caller nonce to payload k n) w
step (was_acked s caller k) w = after (ack s caller k) w
step (was_broadcast s caller agents payload n) w = after (broadcast s caller agents payload n) w
step (escalated s caller nonce to payload reason) w =
    after (escalate s caller nonce to payload reason) w
step (worked e tick) w = record w { outbox = (turn e (tick, w.outbox)).1 }

pub history : List Event → Swarm → Swarm
history [] w = w
history (e ∷ es) w = history es (step e w)

abbrev IsGood : List Row → Outbox → Type 0
IsGood rows t = IsWellFormed t × Advances rows t.rows

module _ (rows : List Row) where
  enqueue-IsGood :
      (now : ℕ) (nonce from_agent to_agent : String) (payload : Fields) (k : Option String) (n : ℕ)
      (t : Outbox)
      → IsGood rows t
      → IsGood rows (enqueue now nonce from_agent to_agent payload k n t).1
  enqueue-IsGood now nonce from_agent to_agent payload k n t h = (
    enqueue-IsWellFormed t h.0 now nonce from_agent to_agent payload k n,
    Advances-trans rows t.rows _ h.1 (enqueue-Advances t now nonce from_agent to_agent payload k n),
  )

  enqueue_all-IsGood :
      (now : ℕ) (from_agent : String) (payload : Fields) (n : ℕ)
      (agents task_ids : List (String × String)) (t : Outbox)
      → IsGood rows t
      → IsGood rows (enqueue_all now from_agent payload n agents task_ids t).1
  unfolding enqueue_all
  enqueue_all-IsGood now from_agent payload n [] task_ids t h = h
  enqueue_all-IsGood now from_agent payload n ((to, nonce) ∷ rest) task_ids t h =
      enqueue_all-IsGood now from_agent payload n rest _ _
        (enqueue-IsGood now nonce from_agent to payload none n t h)

  step-IsGood : (e : Event) (w : Swarm) → IsGood rows w.outbox → IsGood rows (step e w).outbox
  unfolding step notify ack broadcast escalate
  step-IsGood (notified s (ok agent) nonce to payload k n) w h =
      enqueue-IsGood s.now nonce agent to payload k n w.outbox h
  step-IsGood (notified s (err e) nonce to payload k n) w h = h
  step-IsGood (was_acked s (ok agent) k) w h = (
    mark_acked-IsWellFormed w.outbox h.0 s.now k,
    Advances-trans rows w.outbox.rows _ h.1 (mark_acked-Advances w.outbox s.now k),
  )
  step-IsGood (was_acked s (err e) k) w h = h
  step-IsGood (was_broadcast s (ok agent) agents payload n) w h =
      enqueue_all-IsGood s.now agent payload n agents [] w.outbox h
  step-IsGood (was_broadcast s (err e) agents payload n) w h = h
  step-IsGood (escalated s (ok agent) nonce to payload reason) w h =
      enqueue-IsGood s.now nonce agent to _ none 10 w.outbox h
  step-IsGood (escalated s (err e) nonce to payload reason) w h = h
  step-IsGood (worked e tick) w h = turn_safe e rows (tick, w.outbox) h

  history-IsGood :
      (es : List Event) (w : Swarm) → IsGood rows w.outbox → IsGood rows (history es w).outbox
  unfolding history
  history-IsGood [] w h = h
  history-IsGood (e ∷ es) w h = history-IsGood es (step e w) (step-IsGood e w h)

-- Through any events (tools called by any agents, failing or not, and turns of the worker), the
-- constraints of the table hold, and every letter is still there, moved only along the state
-- machine pending, sent, ack_missing, acked or failed, with its addresses and payload unchanged.
pub history_safe :
    (es : List Event) (w : Swarm)
    → IsWellFormed w.outbox
    → IsWellFormed (history es w).outbox × Advances w.outbox.rows (history es w).outbox.rows
history_safe es w h = history-IsGood w.outbox.rows es w (h, Advances-refl w.outbox.rows)
