-- ===== src/Memory/Slots/Tools/Laws.antt =====
-- What any calls of the slot tools keep, and whose slots they can change.
use mathlib.Core.Path.{subst}
use public_gbrain_agentos.Base.{
  is_ok, ◌≡◌, refl, sym, ap, ◌∙◌, String, false, Option, some, List, [], ◌∷◌, arith, All, inl, inr,
  ◌=ₛ◌, Result, ok, err, Result-cases,
}
use public_gbrain_agentos.Base.Text.{Text}
use public_gbrain_agentos.Base.Table.Keys.{lookup}
use public_gbrain_agentos.Auth.Errors.{AuthError}
use public_gbrain_agentos.Auth.Scopes.{AgentContext}
use public_gbrain_agentos.Memory.Service.{Service, Slot, Setting, by_owner, same_owner, and_then}
use public_gbrain_agentos.Memory.Slots.{SlotError}
use public_gbrain_agentos.Memory.Slots.Tools.{
  writer, slot_create, slot_append, slot_replace, slot_delete, slot_get, slot_list, check_page,
}
use public_gbrain_agentos.Memory.Slots.Tools.Change.{Change, refused, content_at}
use public_gbrain_agentos.Memory.Slots.Tools.Rows.{
  content_of_key, content_elsewhere, IsSound, Change-IsSound,
}
use public_gbrain_agentos.Memory.Slots.Tools.Calls.{
  Call, list, fetch, create, append, replace, delete, call, target, new_content, call-Change,
}

-- The scratchpad of labelled contents that the tools promise: a call that raises changes no slot;
-- one that returns does to its own slot what `new_content` allows, and nothing to any other.
abbrev pub Refines : String → Call → List Slot → Result SlotError Unit × Service → Type 0
Refines agent c rows (err e, after) = after.slots ≡ rows
Refines agent c rows (ok u, after) =
    (new_content c (content_at (agent, target c) rows)
      ≡ some (content_at (agent, target c) after.slots))
    × ((j : String × Text)
        → same_owner (agent, target c) j ≡ false
        → lookup by_owner j after.slots ≡ lookup by_owner j rows)

refused_rows :
    (k : String × Text) (f : Option Text → Option (Option Text)) (rows : List Slot)
    {after : List Slot}
    → Change k f rows false after
    → after ≡ rows
refused_rows k f rows refused = refl

-- A call of a slot tool by an agent, whatever it asks, refines the scratchpad: if it raises, the
-- table keeps its slots; if it returns, the content of the slot that it names is what creating,
-- appending, replacing, deleting or reading makes of the content that was there, which creating
-- wants missing and the three others that write want present; and every other slot, those of other
-- agents included, is found as it was.
pub call-Refines :
    (s : Setting) (agent_ctx : AgentContext) (c : Call) (w : Service)
    → Refines agent_ctx.agent c w.slots (call s (ok agent_ctx) c w)
call-Refines s agent_ctx c w = refines (call s (ok agent_ctx) c w) (call-Change s agent_ctx c w)
  where
    refines :
        (r : Result SlotError Unit × Service)
        → Change (agent_ctx.agent, target c) (new_content c) w.slots (is_ok r.0) r.1.slots
        → Refines agent_ctx.agent c w.slots r
    refines (err e, after) h = refused_rows (agent_ctx.agent, target c) (new_content c) w.slots h
    refines (ok u, after) h = (
      content_of_key (agent_ctx.agent, target c) (new_content c) w.slots h,
      λ j other. content_elsewhere (agent_ctx.agent, target c) (new_content c) w.slots j other h,
    )

-- calls one after another, each with its setting and its caller
unfoldable pub run : List (Setting × Result AuthError AgentContext × Call) → Service → Service
run [] w = w
run ((s, caller, c) ∷ calls) w = run calls (call s caller c w).1

-- a caller that is not known changes no slot
stranger_keeps :
    (s : Setting) (e : AuthError) (c : Call) (w : Service) → (call s (err e) c w).1.slots ≡ w.slots
unfolding call slot_list slot_get slot_create slot_append slot_replace slot_delete writer and_then
stranger_keeps s e (list include_content limit offset) w =
    elim (Result-cases (check_page limit offset)) [
      | inl (wrong, bad) ↦ rw bad refl
      | inr (u, fine) ↦ rw fine refl
    ]
stranger_keeps s e (fetch label) w = refl
stranger_keeps s e (create label content size_limit hard_cap pinned) w = refl
stranger_keeps s e (append label added) w = refl
stranger_keeps s e (replace label content) w = refl
stranger_keeps s e (delete label) w = refl

call-IsSound :
    (s : Setting) (caller : Result AuthError AgentContext) (c : Call) (w : Service)
    → IsSound w.slots
    → IsSound (call s caller c w).1.slots
call-IsSound s (err e) c w h = subst IsSound (sym (stranger_keeps s e c w)) h
call-IsSound s (ok agent_ctx) c w h =
    keeps (call s (ok agent_ctx) c w) (call-Change s agent_ctx c w)
  where
    keeps :
        (r : Result SlotError Unit × Service)
        → Change (agent_ctx.agent, target c) (new_content c) w.slots (is_ok r.0) r.1.slots
        → IsSound r.1.slots
    keeps (r, after) change =
        Change-IsSound (agent_ctx.agent, target c) (new_content c) w.slots change h

-- Any calls of the slot tools, by any callers, keep the constraints of the table `slots`: an agent
-- has one slot under a label, each label is well formed, and for each slot 1 ≤ size_limit ≤ hard_cap
-- ≤ 20000 and the content has at most size_limit bytes of UTF-8.
pub slots-IsSound :
    (calls : List (Setting × Result AuthError AgentContext × Call)) (w : Service)
    → IsSound w.slots
    → IsSound (run calls w).slots
unfolding run
slots-IsSound [] w h = h
slots-IsSound ((s, caller, c) ∷ calls) w h =
    slots-IsSound calls (call s caller c w).1 (call-IsSound s caller c w h)

-- the caller is not known, or another agent than `a`
abbrev pub IsOther : String → Result AuthError AgentContext → Type 0
IsOther a (err e) = Unit
IsOther a (ok agent_ctx) = (agent_ctx.agent =ₛ a) ≡ false

other_keeps :
    (s : Setting) (caller : Result AuthError AgentContext) (c : Call) (w : Service) (a : String)
    (label : Text)
    → IsOther a caller
    → lookup by_owner (a, label) (call s caller c w).1.slots ≡ lookup by_owner (a, label) w.slots
other_keeps s (err e) c w a label h =
    ap (λ (rows : List Slot). lookup by_owner (a, label) rows) (stranger_keeps s e c w)
other_keeps s (ok agent_ctx) c w a label h =
    keeps (call s (ok agent_ctx) c w) (call-Change s agent_ctx c w)
  where
    keeps :
        (r : Result SlotError Unit × Service)
        → Change (agent_ctx.agent, target c) (new_content c) w.slots (is_ok r.0) r.1.slots
        → lookup by_owner (a, label) r.1.slots ≡ lookup by_owner (a, label) w.slots
    keeps (r, after) change =
        content_elsewhere (agent_ctx.agent, target c) (new_content c) w.slots (a, label)
          (ground (arith, h)) change

-- Slots are private: whatever calls other agents and unknown callers make, each slot of an agent
-- is found unchanged under its label.
pub run_private :
    (a : String) (label : Text) (calls : List (Setting × Result AuthError AgentContext × Call))
    (w : Service)
    → All (λ c. IsOther a c.1) calls
    → lookup by_owner (a, label) (run calls w).slots ≡ lookup by_owner (a, label) w.slots
unfolding run
run_private a label [] w h = refl
run_private a label ((s, caller, c) ∷ calls) w h =
    run_private a label calls (call s caller c w).1 h.1 ∙ other_keeps s caller c w a label h.0
