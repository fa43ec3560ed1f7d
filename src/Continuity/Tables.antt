-- ===== src/Continuity/Tables.antt =====
-- The tables behind continuity work (isekai_memory/continuity/common.py, delivery.py, work.py).
-- Identifiers, users, digests and reasons are only compared, so they are numbers; times are
-- microseconds.
use isekai_memory.Base.{
  ℕ, Bool, false, ◌&&◌, not, Option, none, some, List, ltb, leb, ◌==◌, if◌then◌else◌, is_some,
}
use isekai_memory.Base.Table.{fetch}
use isekai_memory.Base.Classified.{Classification}
use isekai_memory.Base.Outcome.{Result, ToolError, ok, raise, continuity}

pub data WorkState : Type 0 where
  available claimed completed cancelled : WorkState

pub record WorkUnit : Type 0 where
  pub id : ℕ
  pub project_id : ℕ
  pub bundle_id : ℕ
  pub assignee_user_ids : List ℕ
  pub state : WorkState
  pub claimed_by : Option ℕ
  pub claim_token_digest : Option ℕ
  pub claim_generation : ℕ
  pub lease_expires_at : Option ℕ

pub record Bundle : Type 0 where
  pub id : ℕ
  pub project_id : ℕ
  pub version : ℕ
  pub classification : Classification
  pub expires_at : ℕ
  pub revoked_at : Option ℕ

pub record Delivery : Type 0 where
  pub bundle_id : ℕ
  pub recipient_user_id : ℕ
  pub revoked_at : Option ℕ

pub record Claim : Type 0 where
  pub unit_id : ℕ
  pub actor_id : ℕ
  pub claim_token_digest : ℕ
  pub claim_generation : ℕ

-- What `release` answers.
pub record Released : Type 0 where
  pub unit_id : ℕ
  pub state : WorkState
  pub claim_generation : ℕ

-- A receipt of the operation `work_release`.
pub record Receipt : Type 0 where
  pub project_id : ℕ
  pub actor_id : ℕ
  pub idempotency_key : ℕ
  pub request_digest : ℕ
  pub result : Released

pub record Policy : Type 0 where
  pub project_id : ℕ
  pub enabled : Bool
  pub lease_seconds : ℕ

pub data Action : Type 0 where
  claim_event complete_event release_event : Action

pub record Event : Type 0 where
  pub project_id : ℕ
  pub actor_id : ℕ
  pub action : Action
  pub target_id : ℕ
  pub unit_id : ℕ
  pub claim_generation : ℕ

pub record Store : Type 0 where
  pub units : List WorkUnit
  pub bundles : List Bundle
  pub deliveries : List Delivery
  pub claims : List Claim
  pub receipts : List Receipt
  pub policies : List Policy
  pub events : List Event

-- `fail()`, `conflict(…)`, and the error of an absent policy
abbrev pub unavailable : ToolError
unavailable = record { series = continuity; number = 1; http_status = 404 }

abbrev pub conflict : ToolError
conflict = record { series = continuity; number = 2; http_status = 409 }

abbrev pub no_policy : ToolError
no_policy = record { series = continuity; number = 6; http_status = 409 }

abbrev state_index : WorkState → ℕ
state_index available = 0
state_index claimed = 1
state_index completed = 2
state_index cancelled = 3

abbrev pub is_state : WorkState → WorkUnit → Bool
is_state s u = state_index u.state == state_index s

-- `column == value`; a NULL is not.
abbrev pub holds : Option ℕ → ℕ → Bool
holds none v = false
holds (some w) v = w == v

-- `column > now`; a NULL is not.
abbrev pub is_after : Option ℕ → ℕ → Bool
is_after none now = false
is_after (some t) now = ltb now t

abbrev pub has_id : ℕ → WorkUnit → Bool
has_id i u = u.id == i

-- `policy(conn, project, enabled=…)`
abbrev pub check_policy : Bool → Option Policy → Result Policy
check_policy enabled none = raise no_policy
check_policy enabled (some p) = if enabled && not p.enabled then raise no_policy else ok p

abbrev pub policy : ℕ → Bool → Store → Result Policy
policy project enabled s =
    check_policy enabled (fetch (λ (p : Policy). p.project_id == project) s.policies)

-- `bundle(conn, project, bundle_id)`
abbrev pub check_bundle : ℕ → Option Bundle → Result Bundle
check_bundle now none = raise unavailable
check_bundle now (some b) =
    if is_some b.revoked_at
    then raise unavailable
    else if leb b.expires_at now
    then raise unavailable
    else ok b

abbrev pub bundle : ℕ → ℕ → ℕ → Store → Result Bundle
bundle project id now s =
    check_bundle now (fetch (λ (b : Bundle). b.project_id == project && b.id == id) s.bundles)
