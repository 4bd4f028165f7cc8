-- ===== src/Swarm/Tests.antt =====
-- A small outbox, and a service around it, for the tests of the swarm.
mod Queue
mod Letters
use public_gbrain_agentos.Base.{
  ℕ, String, ◌≡◌, ◌≢◌, refl, Bool, true, false, Option, none, some, List, [], ◌∷◌, arith, Result,
  ok, err,
}
use public_gbrain_agentos.Base.Text.{Text, text}
use public_gbrain_agentos.Base.Json.{Fields, field, end, str}
use public_gbrain_agentos.Base.Table.Keys.{lookup}
use public_gbrain_agentos.Swarm.Outbox.Rows.{Row, Outbox, pending, sent, Status}
use public_gbrain_agentos.Swarm.Outbox.Invariant.{IsWellFormed}
use public_gbrain_agentos.Swarm.Render.{Unicode}
use public_gbrain_agentos.Swarm.Server.{Swarm, Setting}
use public_gbrain_agentos.Swarm.Deliver.{Verdict, delivered, retry, failed, no_gateway_prefix}
use public_gbrain_agentos.Swarm.Worker.{Turn}
use public_gbrain_agentos.Swarm.Server.History.{Event, worked, was_acked, notified}

abbrev pub greeting : Fields
greeting =
    field "title" (str "Hello") (field "body" (str "the body") (field "deadline" (str "today") end))

abbrev pub sent_row : Row
sent_row = record {
  id = 1;
  task_id = "a";
  from_agent = "ann";
  to_agent = "bob";
  payload = greeting;
  status = sent;
  attempts = 0;
  max_attempts = 5;
  next_retry_at = 10;
  created_at = 10;
  updated_at = 12;
}

abbrev pub pending_row : Row
pending_row = record sent_row {
  id = 2;
  task_id = "b";
  status = pending;
  created_at = 20;
  next_retry_at = 20;
  updated_at = 20;
}

abbrev pub other_row : Row
other_row = record pending_row { id = 3; task_id = "c"; to_agent = "eve"; created_at = 15 }

abbrev pub outbox : Outbox
outbox = record { rows = sent_row ∷ pending_row ∷ other_row ∷ []; next_id = 4 }

pub outbox-IsWellFormed : IsWellFormed outbox
unfolding lookup
outbox-IsWellFormed = record {
  task_ids = (refl, (refl, (refl, tt)));
  ids = (refl, (refl, (refl, tt)));
  sequence = (omega arith, (omega arith, (omega arith, tt)));
}

abbrev pub service : Swarm
service = record { outbox = outbox; audit = [] }

abbrev pub same_text : Text → Text
same_text s = s

abbrev pub unicode : Unicode
unicode = record { capitalize = same_text; repr_str = same_text }

abbrev pub setting : Setting
setting = record { now = 100; body_limit = none; unicode = unicode; audit_written = true }

abbrev pub free : ℕ → Bool
free i = false

-- one agent has no gateway, the other takes its letter
abbrev pub answers : Row → Option (Verdict × Text)
answers row = some (delivered, [])

abbrev pub work : Turn
work = record { sweep_now = 90; now = 95; locked = free; deliver = answers }

abbrev pub events : List Event
events =
    notified setting (ok "ann") "0" "bob" greeting none 5
    ∷ worked work 11
    ∷ was_acked setting (ok "bob") "a"
    ∷ []
