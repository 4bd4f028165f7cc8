-- ===== src/Base/Audit.antt =====
-- services/shared/audit.py: the table `audit_log`. An insert that fails is logged and changes
-- nothing, so an entry may be missing: `written` tells whether the insert went through.
use Prim.Native.String.{String}
use mathlib.Core.Bool.{Bool}
use mathlib.Core.List.{List, [], ◌∷◌, ◌++◌}
use mathlib.Core.Option.{Option}
use public_gbrain_agentos.Base.Json.{Fields}
use public_gbrain_agentos.Base.Tests.{if◌then◌else◌}
use Prim.Native.Nat.{ℕ}

pub record AuditEntry : Type 0 where
  pub agent : String
  pub tool : String
  pub args_summary : Fields
  pub result_status : String
  pub latency_ms : ℕ
  pub error : Option String

unfoldable pub log_audit : Bool → AuditEntry → List AuditEntry → List AuditEntry
log_audit written entry log = if written then log ++ entry ∷ [] else log
