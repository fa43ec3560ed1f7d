-- ===== src/Experience/Rows.antt =====
-- The tables `memory_experiences`, `memory_experience_events` and `memory_experience_suppressions`
-- (isekai_memory/experience/lifecycle.py, persistence.py). Identifiers, actors and digests are only
-- compared, so they are numbers; times are microseconds.
use isekai_memory.Base.{
  ℕ, ◌+◌, Bool, false, ◌&&◌, not, Option, none, List, [], ◌∷◌, ◌++◌, ◌==◌, if◌then◌else◌, any,
  is_some,
}
use isekai_memory.Base.Table.{update}
use isekai_memory.Base.Outcome.{ToolError, experience}

pub data Status : Type 0 where
  pending active rejected archived superseded forgotten : Status

-- The actions of a review.
pub data Action : Type 0 where
  approve reject archive forget : Action

-- The actions of an event.
pub data Logged : Type 0 where
  reviewed : Action → Logged
  supersede : Logged

-- `document` stands for title, content, tags, search text and source; an erased row has none.
pub record Experience : Type 0 where
  pub id : ℕ
  pub project_id : ℕ
  pub status : Status
  pub version : ℕ
  pub supersedes_id : Option ℕ
  pub supersedes_version : Option ℕ
  pub expires_at : Option ℕ
  pub valid_from : Option ℕ
  pub source_payload_digest : ℕ
  pub content_fingerprint : ℕ
  pub document : Option ℕ

pub record Event : Type 0 where
  pub memory_id : ℕ
  pub version : ℕ
  pub actor_id : ℕ
  pub action : Logged
  pub previous_status : Status
  pub applied_status : Status
  pub related_memory_id : Option ℕ

pub record Suppression : Type 0 where
  pub project_id : ℕ
  pub source_payload_digest : ℕ
  pub content_fingerprint : ℕ
  pub memory_id : ℕ
  pub reason : Status
  pub updated_by : ℕ
  pub version : ℕ
  pub released_at : Option ℕ

pub record Store : Type 0 where
  pub experiences : List Experience
  pub events : List Event
  pub suppressions : List Suppression

abbrev status_index : Status → ℕ
status_index pending = 0
status_index active = 1
status_index rejected = 2
status_index archived = 3
status_index superseded = 4
status_index forgotten = 5

abbrev pub is_status : Status → Experience → Bool
is_status s x = status_index x.status == status_index s

abbrev pub has_id : ℕ → Experience → Bool
has_id i x = x.id == i

abbrev action_index : Action → ℕ
action_index approve = 0
action_index reject = 1
action_index archive = 2
action_index forget = 3

abbrev pub is_action : Action → Logged → Bool
is_action a supersede = false
is_action a (reviewed b) = action_index b == action_index a

-- `missing()`, and `error(…)` with its number
abbrev pub missing : ToolError
missing = record { series = experience; number = 1; http_status = 404 }

abbrev pub error : ℕ → ToolError
error n = record { series = experience; number = n; http_status = 409 }

-- The identity of a source-backed claim.
abbrev pub is_claim : ℕ → ℕ → ℕ → Suppression → Bool
is_claim project digest fingerprint x =
    x.project_id == project
    && x.source_payload_digest == digest
    && x.content_fingerprint == fingerprint

-- The suppression of this claim that has not been released.
abbrev pub is_suppressing : ℕ → ℕ → ℕ → Suppression → Bool
is_suppressing project digest fingerprint x =
    is_claim project digest fingerprint x && not (is_some x.released_at)

-- `ensure_not_suppressed` raises.
abbrev pub is_suppressed : ℕ → ℕ → ℕ → Store → Bool
is_suppressed project digest fingerprint s =
    any (is_suppressing project digest fingerprint) s.suppressions

-- `ON CONFLICT … DO UPDATE`
abbrev pub renew_suppression : Experience → ℕ → Status → Suppression → Suppression
renew_suppression row actor reason x = record x {
  memory_id = row.id;
  reason = reason;
  updated_by = actor;
  version = x.version + 1;
  released_at = none;
}

abbrev pub new_suppression : Experience → ℕ → Status → Suppression
new_suppression row actor reason = record {
  project_id = row.project_id;
  source_payload_digest = row.source_payload_digest;
  content_fingerprint = row.content_fingerprint;
  memory_id = row.id;
  reason = reason;
  updated_by = actor;
  version = 1;
  released_at = none;
}

-- The statement of `suppress`.
abbrev pub upsert : Experience → ℕ → Status → List Suppression → List Suppression
upsert row actor reason t =
    let p = is_claim row.project_id row.source_payload_digest row.content_fingerprint in
    if any p t
    then update p (renew_suppression row actor reason) t
    else t ++ (new_suppression row actor reason ∷ [])

unfoldable pub suppress : Experience → ℕ → Status → Store → Store
suppress row actor reason s = record s { suppressions = upsert row actor reason s.suppressions }
