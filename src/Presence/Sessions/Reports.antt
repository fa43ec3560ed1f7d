-- ===== src/Presence/Sessions/Reports.antt =====
-- What a report may say, and the rows that it binds to: `_owned`, `_classification` and
-- `_validate_report` of isekai_memory/continuity/presence.py.
use isekai_memory.Base.{
  ℕ, ◌+◌, Bool, true, false, ◌&&◌, ◌||◌, not, Option, none, some, List, [], ◌∷◌, ◌++◌, ltb, leb,
  ◌==◌, if◌then◌else◌, any, is_some,
}
use isekai_memory.Base.Table.{fetch}
use isekai_memory.Base.Outcome.{Result, ok, raise, ◌>>=◌}
use isekai_memory.Presence.Times.{Reported, running, idle, unknown, same_report}
use isekai_memory.Presence.State.{Scope, other_scope}
use isekai_memory.Presence.Sessions.Rows.{
  Classification, highest_of, Session, UnitRow, BundleRow, DeliveryRow, CheckpointRow, Store,
  unavailable, retired, conflict, disabled, invalid, same_scope, same_unit, holds, has_id,
}

-- Who speaks: the session, and the digests of its token and of the whole request.
pub record Speaker : Type 0 where
  pub project_id : ℕ
  pub session_id : ℕ
  pub token : ℕ
  pub fingerprint : ℕ
  pub sequence : ℕ

-- The arguments of a heartbeat.
pub record Report : Type 0 where
  pub speaker : Speaker
  pub state_sequence : ℕ
  pub policy_version : ℕ
  pub reported_state : Reported
  pub observation_scope : Scope
  pub state_observation_available : Bool
  pub active_work_count : ℕ
  pub work_unit_id : Option ℕ
  pub checkpoint_id : Option ℕ
  pub classification : Classification

-- `_validate_report` raises nothing.
unfoldable pub is_valid_report : Report → Bool
is_valid_report a =
    let available =
      a.state_observation_available && not (same_scope a.observation_scope other_scope) in
    not (
      not (same_report a.reported_state unknown) && not available
      || same_report a.reported_state running && a.active_work_count == 0
      || same_report a.reported_state idle && not (a.active_work_count == 0))

-- `_owned`
abbrev pub is_owned : Speaker → ℕ → Session → Bool
is_owned a actor r = r.id == a.session_id && r.project_id == a.project_id && r.actor_id == actor

abbrev pub check_owned : Speaker → Option Session → Result Session
check_owned a none = raise unavailable
check_owned a (some r) =
    if not (r.session_token_digest == a.token)
    then raise unavailable
    else if is_some r.retired_at
    then raise retired
    else ok r

unfoldable pub owned : Speaker → ℕ → Store → Result Session
owned a actor s = check_owned a (fetch (is_owned a actor) s.sessions)

-- `any(reported_fields[key] != row[key] for key in STATE_FIELDS)`
unfoldable pub is_changed : Report → Session → Bool
is_changed a r =
    not (same_report a.reported_state r.reported_state)
    || not (same_scope a.observation_scope r.observation_scope)
    || not (
        if a.state_observation_available
        then r.state_observation_available
        else not r.state_observation_available)
    || not (a.active_work_count == r.active_work_count)
    || not (same_unit a.work_unit_id r.work_unit_id)

-- The tests of `heartbeat` before the bindings; the answer says whether the report is a replay.
unfoldable pub admit : Report → Bool → Session → Result Bool
admit a enabled r =
    if is_some r.ended_at
    then raise conflict
    else if a.speaker.sequence == r.sequence && holds r.report_digest a.speaker.fingerprint
    then ok true
    else if leb a.speaker.sequence r.sequence
    then raise conflict
    else if not enabled
    then raise disabled
    else if not (
        same_scope a.observation_scope r.session_kind || same_scope a.observation_scope other_scope)
    then raise invalid
    else if not (a.state_sequence == r.state_sequence + (if is_changed a r then 1 else 0))
    then raise conflict
    else ok false

-- The bundle of a unit that the actor may work on, joined to it.
abbrev pub is_bundle_of : UnitRow → ℕ → ℕ → Store → BundleRow → Bool
is_bundle_of u actor now s b =
    b.id == u.bundle_id
    && b.project_id == u.project_id
    && not (is_some b.revoked_at)
    && ltb now b.expires_at
    && any
        (λ (d : DeliveryRow).
          d.bundle_id == b.id
          && d.project_id == b.project_id
          && d.recipient_user_id == actor
          && not (is_some d.revoked_at))
        s.deliveries

abbrev bundle_class : Option BundleRow → Result (List Classification)
bundle_class none = raise unavailable
bundle_class (some b) = ok (b.classification ∷ [])

abbrev joined_class : ℕ → ℕ → Store → Option UnitRow → Result (List Classification)
joined_class actor now s none = raise unavailable
joined_class actor now s (some u) = bundle_class (fetch (is_bundle_of u actor now s) s.bundles)

-- The classifications that the work unit adds.
unfoldable pub unit_class : ℕ → Option ℕ → ℕ → ℕ → Store → Result (List Classification)
unit_class project none actor now s = ok []
unit_class project (some unit) actor now s = joined_class actor now s (
    fetch
      (λ (u : UnitRow).
        u.id == unit && u.project_id == project && any (λ x. x == actor) u.assignee_user_ids)
      s.units)

abbrev checkpoint_found : Option CheckpointRow → Result (List Classification)
checkpoint_found none = raise unavailable
checkpoint_found (some c) = ok (c.classification ∷ [])

-- The classifications that the checkpoint adds.
unfoldable pub checkpoint_class : ℕ → Option ℕ → ℕ → ℕ → Store → Result (List Classification)
checkpoint_class project none actor now s = ok []
checkpoint_class project (some checkpoint) actor now s = checkpoint_found (
    fetch
      (λ (c : CheckpointRow).
        c.id == checkpoint
        && c.project_id == project
        && c.from_user == actor
        && not (is_some c.forgotten_at)
        && ltb now c.expires_at)
      s.checkpoints)

-- The parent's classification, and the maximum; `none` is the `ValueError` of a missing parent.
abbrev with_parent : Classification → List Classification → Option Session → Option Classification
with_parent c values none = none
with_parent c values (some parent) =
    some (highest_of (highest_of c values) (parent.classification ∷ []))

unfoldable pub maximum :
    Classification → List Classification → Option ℕ → Store → Option Classification
maximum c values none s = some (highest_of c values)
maximum c values (some parent) s = with_parent c values (fetch (has_id parent) s.sessions)

-- `_classification`
unfoldable pub classify : Report → ℕ → ℕ → Store → Session → Result (Option Classification)
classify a actor now s r = do
  u ← unit_class a.speaker.project_id a.work_unit_id actor now s
  c ← checkpoint_class a.speaker.project_id a.checkpoint_id actor now s
  ok (maximum (highest_of r.classification (a.classification ∷ [])) (u ++ c) r.parent_session_id s)
