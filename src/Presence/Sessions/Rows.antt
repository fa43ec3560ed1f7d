-- ===== src/Presence/Sessions/Rows.antt =====
-- The tables of isekai_memory/continuity/presence.py. Identifiers, users, digests and keys are only
-- compared, so they are numbers; times are microseconds. Of the continuity tables only the columns
-- that the bindings of a report read are kept, and the host of an observer is not.
use isekai_memory.Base.{ℕ, Bool, true, false, Option, none, some, List, ◌==◌}
pub use isekai_memory.Base.Classified.{
  Classification, public, internal, confidential, restricted, rank, highest, highest_of,
}
use isekai_memory.Base.Int.{pos, Number, integer}
use isekai_memory.Base.Table.{fetch}
use isekai_memory.Continuity.Filed.{Receipt}
use isekai_memory.Base.Outcome.{ToolError, continuity, presence}
use isekai_memory.Presence.Times.{
  Reported, PresencePolicy, Stamp, missing, aware, Previous, presence_policy,
}
use isekai_memory.Presence.State.{Scope, worker, controller, other_scope, SessionRow}

-- A row of `memory_presence_sessions`. A scope that is neither kind of session is `partial`.
pub record Session : Type 0 where
  pub id : ℕ
  pub project_id : ℕ
  pub actor_id : ℕ
  pub client_instance_id : ℕ
  pub session_token_digest : ℕ
  pub register_digest : ℕ
  pub session_kind : Scope
  pub parent_session_id : Option ℕ
  pub classification : Classification
  pub sequence : ℕ
  pub state_sequence : ℕ
  pub report_digest : Option ℕ
  pub reported_policy_version : ℕ
  pub reported_state : Reported
  pub observation_scope : Scope
  pub state_observation_available : Bool
  pub active_work_count : ℕ
  pub work_unit_id : Option ℕ
  pub checkpoint_id : Option ℕ
  pub created_at : ℕ
  pub last_seen_at : Stamp
  pub state_since_at : Stamp
  pub idle_since_at : Stamp
  pub ended_at : Option ℕ
  pub retired_at : Option ℕ

-- The body of a policy, before its thresholds are checked.
pub record Body : Type 0 where
  pub enabled : Bool
  pub heartbeat_seconds : Number
  pub stale_after_seconds : Number
  pub idle_after_seconds : Number
  pub retention_hours : ℕ

pub record PolicyRow : Type 0 where
  pub project_id : ℕ
  pub version : ℕ
  pub policy : Body

pub record UnitRow : Type 0 where
  pub id : ℕ
  pub project_id : ℕ
  pub bundle_id : ℕ
  pub assignee_user_ids : List ℕ

pub record BundleRow : Type 0 where
  pub id : ℕ
  pub project_id : ℕ
  pub classification : Classification
  pub revoked_at : Option ℕ
  pub expires_at : ℕ

pub record DeliveryRow : Type 0 where
  pub bundle_id : ℕ
  pub project_id : ℕ
  pub recipient_user_id : ℕ
  pub revoked_at : Option ℕ

pub record CheckpointRow : Type 0 where
  pub id : ℕ
  pub project_id : ℕ
  pub from_user : ℕ
  pub classification : Classification
  pub forgotten_at : Option ℕ
  pub expires_at : ℕ

pub data Action : Type 0 where
  policy_event register_event state_event end_event prune_event : Action

-- An event, with the sequence, version or count that its details show.
pub record Event : Type 0 where
  pub project_id : ℕ
  pub actor_id : ℕ
  pub action : Action
  pub target_id : ℕ
  pub detail : ℕ

pub record Store : Type 0 where
  pub policies : List PolicyRow
  pub sessions : List Session
  pub units : List UnitRow
  pub bundles : List BundleRow
  pub deliveries : List DeliveryRow
  pub checkpoints : List CheckpointRow
  pub receipts : List Receipt
  pub events : List Event

-- The errors: `conflict` and `invalid` of common.py, and the four of this module.
abbrev pub conflict : ToolError
conflict = record { series = continuity; number = 2; http_status = 409 }

abbrev pub invalid : ToolError
invalid = record { series = continuity; number = 3; http_status = 400 }

abbrev pub unavailable : ToolError
unavailable = record { series = presence; number = 1; http_status = 404 }

abbrev pub retired : ToolError
retired = record { series = presence; number = 2; http_status = 410 }

abbrev pub disabled : ToolError
disabled = record { series = presence; number = 3; http_status = 409 }

abbrev pub limit_reached : ToolError
limit_reached = record { series = presence; number = 4; http_status = 429 }

-- `DEFAULT_POLICY`
abbrev pub default_policy : Body
default_policy = record {
  enabled = false;
  heartbeat_seconds = integer (pos 15);
  stale_after_seconds = integer (pos 60);
  idle_after_seconds = integer (pos 300);
  retention_hours = 168;
}

abbrev version_and_body : Option PolicyRow → ℕ × Body
version_and_body none = (0, default_policy)
version_and_body (some r) = (r.version, r.policy)

-- `policy(conn, project)`
unfoldable pub policy : ℕ → Store → ℕ × Body
policy project s = version_and_body (fetch (λ (r : PolicyRow). r.project_id == project) s.policies)

-- `policy_values(body)`; `none` is its `ValueError`.
unfoldable pub policy_values : Body → Option PresencePolicy
policy_values b = presence_policy b.heartbeat_seconds b.stale_after_seconds b.idle_after_seconds

abbrev pub same_scope : Scope → Scope → Bool
same_scope worker worker = true
same_scope controller controller = true
same_scope other_scope other_scope = true
same_scope _ _ = false

-- `a == b` where either may be absent.
abbrev pub same_unit : Option ℕ → Option ℕ → Bool
same_unit none none = true
same_unit (some a) (some b) = a == b
same_unit _ _ = false

-- `column = value` in SQL; a NULL is not.
abbrev pub holds : Option ℕ → ℕ → Bool
holds none v = false
holds (some w) v = w == v

abbrev pub has_id : ℕ → Session → Bool
has_id i r = r.id == i

-- What `next_times` reads of a row.
abbrev pub previous_of : Session → Previous
previous_of r = record {
  last_seen_at = r.last_seen_at;
  reported_state = r.reported_state;
  state_since_at = r.state_since_at;
  idle_since_at = r.idle_since_at;
}

abbrev stamp_of : Option ℕ → Stamp
stamp_of none = missing
stamp_of (some t) = aware t

-- What `session_state` reads of a row.
abbrev pub row_of : Session → SessionRow
row_of r = record {
  reported_state = r.reported_state;
  ended_at = stamp_of r.ended_at;
  last_seen_at = r.last_seen_at;
  state_since_at = r.state_since_at;
  idle_since_at = r.idle_since_at;
  state_observation_available = r.state_observation_available;
  observation_scope = r.observation_scope;
  active_work_count = integer (pos r.active_work_count);
}
