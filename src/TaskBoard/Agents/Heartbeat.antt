-- ===== src/TaskBoard/Agents/Heartbeat.antt =====
-- What a heartbeat leaves behind.
use mathlib.Core.Path.{subst}
use public_gbrain_agentos.Base.{
  ℕ, ◌≡◌, refl, String, true, Option, some, List, [], ◌∷◌, ◌=ₛ◌, eq_iff, arith, Option-cases, inl,
  inr, if◌then◌else◌,
}
use public_gbrain_agentos.Base.Json.{Fields}
use public_gbrain_agentos.Base.Table.Keys.{
  lookup, lookup-append, lookup-update, Distinct, Distinct-append_one, Distinct-update,
}
use public_gbrain_agentos.TaskBoard.Agents.{
  Agent, by_agent_name, parse_agent_status, new_agent, seen_again, upsert, heartbeat, get_agent,
  or_no_metadata,
}

upsert-lookup :
    (excluded : Agent) (agents : List Agent) (j : String)
    → lookup by_agent_name j (upsert excluded agents).1 ≡ (
        if excluded.agent_name =ₛ j
        then some (upsert excluded agents).0
        else lookup by_agent_name j agents)
unfolding upsert
upsert-lookup excluded agents j =
    elim (Option-cases (lookup by_agent_name excluded.agent_name agents)) [
      | inl new ↦
          rw (new, upsert, lookup-append by_agent_name j agents (excluded ∷ []))
            (unfold lookup in ground (arith, new, eq_iff excluded.agent_name j))
      | inr (r, old) ↦
          rw
            (
              old,
              upsert,
              lookup-update by_agent_name excluded.agent_name j (λ _. true) (seen_again excluded)
                  (λ _. refl) agents,
            )
            (ground (arith, old, eq_iff excluded.agent_name j))
    ]

upsert-Distinct :
    (excluded : Agent) (agents : List Agent)
    → Distinct by_agent_name agents
    → Distinct by_agent_name (upsert excluded agents).1
unfolding upsert
upsert-Distinct excluded agents h =
    elim (Option-cases (lookup by_agent_name excluded.agent_name agents)) [
      | inl new ↦ rw (new, upsert) (Distinct-append_one by_agent_name agents excluded h new)
      | inr (r, old) ↦
          rw (old, upsert)
            (Distinct-update by_agent_name _ (seen_again excluded) (λ _. refl) agents h)
    ]

upsert-last_seen :
    (excluded : Agent) (agents : List Agent)
    → (upsert excluded agents).0.last_seen ≡ excluded.last_seen
unfolding upsert
upsert-last_seen excluded agents =
    elim (Option-cases (lookup by_agent_name excluded.agent_name agents)) [
      | inl new ↦ rw (new, upsert) refl
      | inr (r, old) ↦ rw (old, upsert) refl
    ]

-- A heartbeat that returns keeps one row per agent; what it returns is what `get_agent` finds for
-- that agent afterwards, with the time of the heartbeat; and no other agent's row changes.
pub heartbeat_effect :
    (now : ℕ) (name status : String) (host version : Option String) (metadata : Option Fields)
    (agents after : List Agent) (r : Agent) (j : String)
    → Distinct by_agent_name agents
    → heartbeat now name status host version metadata agents ≡ some (r, after)
    → Distinct by_agent_name after
      × (get_agent j after ≡ (if name =ₛ j then some r else get_agent j agents))
      × (r.last_seen ≡ now)
unfolding heartbeat get_agent
heartbeat_effect now name status host version metadata agents after r j h returned =
    elim (Option-cases (parse_agent_status status)) [
      | inl unknown ↦ absurd (ground (arith, unknown, returned))
      | inr (s, known) ↦
          let excluded = new_agent now name s host version (or_no_metadata metadata) in
          let saved : upsert excluded agents ≡ (r, after) = ground (arith, known, returned) in
          (
            subst (λ p. Distinct by_agent_name p.1) saved (upsert-Distinct excluded agents h),
            subst
                (λ p.
                  lookup by_agent_name j p.1
                  ≡ (if name =ₛ j then some p.0 else lookup by_agent_name j agents))
                saved (upsert-lookup excluded agents j),
            subst (λ p. p.0.last_seen ≡ now) saved (upsert-last_seen excluded agents),
          )
    ]
