-- ===== src/Usage/Ledger/Rows.antt =====
-- The tables of isekai_memory/continuity/usage.py. Identifiers, users, digests and names of time zones
-- are only compared, so they are numbers; times are microseconds. The columns that describe the host,
-- and the alert thresholds, are only copied and left out.
use isekai_memory.Base.{
  ℕ, ◌+◌, ◌*◌, Bool, true, false, ◌&&◌, Option, none, some, List, leb, ◌==◌, if◌then◌else◌,
}
use isekai_memory.Base.Table.{fetch}
use isekai_memory.Base.Classified.{Classification}
use isekai_memory.Base.Outcome.{ToolError, continuity, usage}
use isekai_memory.Continuity.Tables
use isekai_memory.Continuity.Filed.{Receipt}
use isekai_memory.Usage.Metrics.{Metrics}

pub data Coverage : Type 0 where
  partial complete : Coverage

pub data Completion : Type 0 where
  in_progress final : Completion

pub data Basis : Type 0 where
  source_reported server_first_received provisional : Basis

abbrev pub is_complete : Coverage → Bool
is_complete complete = true
is_complete partial = false

abbrev pub is_final : Completion → Bool
is_final final = true
is_final in_progress = false

-- A row of `memory_usage_sessions`.
pub record Session : Type 0 where
  pub id : ℕ
  pub project_id : ℕ
  pub actor_id : ℕ
  pub execution_attempt_id : ℕ
  pub meter_epoch : ℕ
  pub session_token_digest : ℕ
  pub register_digest : ℕ
  pub classification : Classification
  pub parent_session_id : Option ℕ
  pub work_unit_id : Option ℕ
  pub claim_generation : Option ℕ
  pub created_at : ℕ
  pub accepts_until : ℕ
  pub sequence : ℕ
  pub metrics : Option Metrics
  pub coverage : Coverage
  pub completion_state : Completion
  pub first_received_at : Option ℕ
  pub last_received_at : Option ℕ
  pub bucket_at : Option ℕ
  pub bucket_basis : Option Basis
  pub source_occurred_at : Option ℕ
  pub finalized_at : Option ℕ
  pub retired_at : Option ℕ

-- A row of `memory_usage_receipts`.
pub record Received : Type 0 where
  pub session_id : ℕ
  pub project_id : ℕ
  pub sequence : ℕ
  pub request_digest : ℕ
  pub received_at : ℕ
  pub bucket_at : Option ℕ
  pub completion_state : Completion

pub record Body : Type 0 where
  pub enabled : Bool
  pub retention_days : ℕ
  pub late_report_hours : ℕ
  pub timezone : ℕ

pub record PolicyRow : Type 0 where
  pub project_id : ℕ
  pub version : ℕ
  pub policy : Body

pub data Action : Type 0 where
  policy_event finalized_event prune_event : Action

-- An event, with the version, sequence or count that its details show.
pub record Event : Type 0 where
  pub project_id : ℕ
  pub actor_id : ℕ
  pub action : Action
  pub target_id : ℕ
  pub detail : ℕ

-- `work` holds the continuity tables, which a registration may bind to.
pub record Store : Type 0 where
  pub policies : List PolicyRow
  pub sessions : List Session
  pub received : List Received
  pub work : Tables.Store
  pub receipts : List Receipt
  pub events : List Event

-- The errors: `conflict` and `invalid` of common.py, `unavailable`, the errors of a retired session and
-- of a closed window, of a disabled policy, and `limited`.
abbrev pub conflict : ToolError
conflict = record { series = continuity; number = 2; http_status = 409 }

abbrev pub invalid : ToolError
invalid = record { series = continuity; number = 3; http_status = 400 }

abbrev pub unavailable : ToolError
unavailable = record { series = usage; number = 1; http_status = 404 }

abbrev pub gone : ToolError
gone = record { series = usage; number = 2; http_status = 410 }

abbrev pub disabled : ToolError
disabled = record { series = usage; number = 3; http_status = 409 }

abbrev pub limited : ToolError
limited = record { series = usage; number = 4; http_status = 429 }

-- `DEFAULT_POLICY`; the zone `UTC` is the number 0.
abbrev pub default_policy : Body
default_policy = record {
  enabled = false;
  retention_days = 30;
  late_report_hours = 168;
  timezone = 0;
}

abbrev version_and_body : Option PolicyRow → ℕ × Body
version_and_body none = (0, default_policy)
version_and_body (some r) = (r.version, r.policy)

-- `policy(conn, project)`
unfoldable pub policy : ℕ → Store → ℕ × Body
policy project s = version_and_body (fetch (λ (r : PolicyRow). r.project_id == project) s.policies)

abbrev pub has_id : ℕ → Session → Bool
has_id i r = r.id == i

-- `a == b` where either may be absent.
abbrev pub same_time : Option ℕ → Option ℕ → Bool
same_time none none = true
same_time (some a) (some b) = a == b
same_time _ _ = false

-- Microseconds.
abbrev pub hours : ℕ → ℕ
hours n = n * 3_600_000_000

abbrev pub minutes : ℕ → ℕ
minutes n = n * 60_000_000

-- `source_time` of isekai_memory/continuity/usage_periods.py, with the clock as its fallback.
unfoldable pub source_time : Option ℕ → ℕ → ℕ → ℕ × Basis
source_time none now late = (now, server_first_received)
source_time (some t) now late =
    if leb now (t + hours late) && leb t (now + minutes 5)
    then (t, source_reported)
    else (now, server_first_received)
