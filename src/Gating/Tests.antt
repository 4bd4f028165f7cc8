-- ===== src/Gating/Tests.antt =====
-- Tool sets at concrete inputs.
use public_gbrain_agentos.Base.{◌≡◌, refl, some, String}
use public_gbrain_agentos.Gating.{parse_tool_set}

abbrev every : String
every = "all"

everything : parse_tool_set (some "all") ≡ some "all"
unfolding parse_tool_set
everything = refl
