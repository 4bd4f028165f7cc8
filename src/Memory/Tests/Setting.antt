-- ===== src/Memory/Tests/Setting.antt =====
-- A setting and agents for the tests of the memory tools.
use public_gbrain_agentos.Base.{true, some, [], ◌∷◌}
use public_gbrain_agentos.Base.Text.{text, lower}
use public_gbrain_agentos.Auth.Scopes.{AgentContext}
use public_gbrain_agentos.Memory.Service.{Setting, nothing}

-- the text as the database holds it is a stand-in
abbrev pub setting : Setting
setting = record {
  now = 100;
  now_iso = "2026-08-31T10:00:00Z";
  later_iso = "2026-08-31T10:00:00Z";
  today = text "2026-08-31";
  stamp = text "2026-08-31-100000";
  latency = 3;
  audit_written = true;
  writable = λ path. true;
  readable = λ path. true;
  string = λ s. "t";
  sha256 = λ s. s;
  dump = λ fields. text "k: v\n";
  load = λ s. nothing;
  lower = lower;
  from_iso = λ s. some 99;
  collation = λ a b. true;
}

abbrev pub ann : AgentContext
ann = record {
  agent = "ann";
  write_scopes = "slots" ∷ "30-decisions" ∷ "70-runbooks" ∷ [];
  read_scopes = [];
}

abbrev pub bob : AgentContext
bob = record { agent = "bob"; write_scopes = "slots" ∷ "50-ops" ∷ []; read_scopes = [] }
