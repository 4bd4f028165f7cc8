-- ===== src/Memory/Service.antt =====
-- What the tools of services/memory_mcp/tools.py work on: the tables `slots`, `documents`,
-- `embedding_jobs` and `audit_log`, and the files of the vault by their paths. A tool that raises
-- keeps what it has written before, except what a transaction takes back.
use public_gbrain_agentos.Base.{
  ℕ, ◌≡◌, ◌↔◌, true, String, Bool, ◌&&◌, Option, List, arith, ◌=ₛ◌, eq_iff, Result, ok, err,
}
use public_gbrain_agentos.Base.Text.{Text, text_eq}
use public_gbrain_agentos.Base.Text.Equality.{text_eq_iff}
use public_gbrain_agentos.Base.Json.{Fields}
use public_gbrain_agentos.Base.Audit.{AuditEntry, log_audit}
use public_gbrain_agentos.Base.Table.Keys.{Keyed}

-- a row of `slots`, migrations/003_slots.sql
pub record Slot : Type 0 where
  pub id : ℕ
  pub label : Text
  pub content : Text
  pub size_limit : ℕ
  pub hard_cap : ℕ
  pub pinned : Bool
  pub agent : String
  pub created_at : ℕ
  pub updated_at : ℕ

-- a row of `documents`, migrations/001_initial_schema.sql and 007_freshness.sql
pub record Document : Type 0 where
  pub id : ℕ
  pub path : Text
  pub frontmatter : Fields
  pub body : Text
  pub sha256 : Text
  pub source_type : String
  pub agent : String
  pub scope : Text
  pub created_at : ℕ
  pub updated_at : ℕ
  pub valid_from : ℕ
  pub valid_until : Option ℕ
  pub is_latest : Bool
  pub superseded_by : Option Text
  pub verified_at : Option ℕ
  pub verified_by : Option String
  pub basis : Option Text

pub record File : Type 0 where
  pub path : Text
  pub content : Text

pub record Service : Type 0 where
  pub slots : List Slot
  pub next_slot : ℕ
  pub documents : List Document
  pub next_document : ℕ
  -- the documents of the pending rows of `embedding_jobs`
  pub jobs : List ℕ
  pub vault : List File
  pub audit : List AuditEntry

-- what `yaml.safe_load` gives: a mapping; nothing, where it raises or its value is false; or a value
-- of another kind
pub data Yaml : Type 0 where
  mapping : Fields → Yaml
  nothing other : Yaml

-- What a call meets: clocks, whether the audit insert goes through, and how files can be accessed;
-- and the functions of Python and YAML that it uses.
pub record Setting : Type 0 where
  pub now : ℕ
  -- the results of the first and of later calls of `_now_iso`, of `_today_iso`, and the second of
  -- a handoff
  pub now_iso : String
  pub later_iso : String
  pub today : Text
  pub stamp : Text
  pub latency : ℕ
  pub audit_written : Bool
  pub writable : Text → Bool
  pub readable : Text → Bool
  -- the same text as the database holds it
  pub string : Text → String
  pub sha256 : Text → Text
  pub dump : Fields → Text
  pub load : Text → Yaml
  -- `str.lower`
  pub lower : Text → Text
  pub from_iso : Text → Option ℕ
  -- `ORDER BY label` goes by the collation of the database
  pub collation : Text → Text → Bool

-- A tool returns or raises, beside the new state.
abbrev pub Tool : Type 0 → Type 0 → Type 0
Tool E A = Service → Result E A × Service

-- what follows, if nothing was raised
unfoldable pub and_then :
    {E A B : Type 0} → (A → Tool E B) → Result E A × Service → Result E B × Service
and_then f (ok a, w) = f a w
and_then f (err e, w) = (err e, w)

infixl 5 ◌>>=◌ ◌>>◌
abbrev pub ◌>>=◌ : {E A B : Type 0} → Tool E A → (A → Tool E B) → Tool E B
◌>>=◌ m f w = and_then f (m w)

abbrev pub ◌>>◌ : {E A B : Type 0} → Tool E A → Tool E B → Tool E B
m >> k = m >>= λ _. k

-- a check that writes nothing
abbrev pub lift : {E A : Type 0} → Result E A → Tool E A
lift r w = (r, w)

-- `log_audit`
unfoldable pub logged :
    Setting → String → String → Fields → String → Option String → Service → Service
unfolding log_audit
logged s agent tool args status error w = record w {
  audit =
      log_audit s.audit_written
        (record {
          agent = agent;
          tool = tool;
          args_summary = args;
          result_status = status;
          latency_ms = s.latency;
          error = error;
        })
        w.audit;
}

abbrev pub same_owner : String × Text → String × Text → Bool
same_owner (a, l) (b, m) = (a =ₛ b) && text_eq l m

pub same_owner_iff : (k j : String × Text) → (same_owner k j ≡ true) ↔ (k ≡ j)
same_owner_iff (a, l) (b, m) = ground (arith, eq_iff a b, text_eq_iff l m)

-- `UNIQUE (agent, label)`
abbrev pub by_owner : Keyed Slot (String × Text)
by_owner = record { key = λ r. (r.agent, r.label); same = same_owner; same_iff = same_owner_iff }

-- `path text NOT NULL UNIQUE`
abbrev pub by_path : Keyed Document Text
by_path = record { key = λ r. r.path; same = text_eq; same_iff = text_eq_iff }

abbrev pub by_file : Keyed File Text
by_file = record { key = λ r. r.path; same = text_eq; same_iff = text_eq_iff }
