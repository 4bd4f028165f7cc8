-- ===== src/Gating/Modes.antt =====
-- The two tool sets against each other.
use mathlib.Core.Option.{some-injective}
use public_gbrain_agentos.Base.{
  sym, ap, String, ◌≡◌, Bool, true, false, Option, none, some, contains, ◌=ₛ◌, ◌||◌, if◌then◌else◌,
  Bool-cases, inl, inr, ◌⊎◌, eq_iff, arith,
}
use public_gbrain_agentos.Gating.{
  core_tools, always_on_tools, parse_tool_set, default_tool_set, should_register_tool,
}

registered :
    (tool_set server tool : String)
    → should_register_tool server tool tool_set ≡ (
        tool_set =ₛ "all"
        || contains (always_on_tools server) tool
        || contains (core_tools server) tool)
unfolding should_register_tool
registered tool_set server tool =
    cases (tool_set =ₛ "all") (contains (always_on_tools server) tool)
      (contains (core_tools server) tool)
  where
    cases : (a b c : Bool) → (if a then true else if b then true else c) ≡ (a || b || c)
    cases true b c = ground arith
    cases false true c = ground arith
    cases false false c = ground arith

-- A server that starts registers under "all" whatever it registers under the default, and under the
-- default exactly the tools that are always on or in the core set: a value of GBRAIN_TOOLS widens
-- the surface only if it is "all".
pub registered_modes :
    (raw : Option String) (tool_set server tool : String)
    → parse_tool_set raw ≡ some tool_set
    → should_register_tool server tool tool_set ≡ (
        (tool_set =ₛ "all")
        || contains (always_on_tools server) tool
        || contains (core_tools server) tool)
      × ((tool_set ≡ "core") ⊎ (raw ≡ some "all"))
unfolding parse_tool_set
registered_modes none tool_set server tool h =
    (registered tool_set server tool, inl (sym (some-injective default_tool_set tool_set h)))
registered_modes (some raw) tool_set server tool h = (
  registered tool_set server tool,
  elim (Bool-cases (raw =ₛ "")) [
    | inl unset ↦ inl (sym (ground (arith, unset)))
    | inr given ↦ elim (Bool-cases (raw =ₛ "all")) [
      | inl every ↦ inr (ap (λ (s : String). some s) (ground (arith, eq_iff raw "all")))
      | inr other ↦
          inl (ground (arith, given, other, eq_iff "core" raw, eq_iff raw "all", eq_iff "all" raw))
    ]
  ],
)
