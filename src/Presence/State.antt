-- ===== src/Presence/State.antt =====
-- `session_state`: one session as it is seen at an instant.
use isekai_memory.Base.{
  ℕ, ◌+◌, ◌-◌, ◌*◌, ◌/◌, Bool, true, false, ◌&&◌, ◌||◌, not, Option, none, some, ltb, leb, ◌==◌,
  if◌then◌else◌,
}
use isekai_memory.Base.Int.{pos, Number, integer}
use isekai_memory.Presence.Times.{
  Reported, running, idle, unknown, is_recognized, same_report, report_index, PresencePolicy, Stamp,
  aware, is_set, second,
}

pub data Freshness : Type 0 where
  not_known fresh stale ended : Freshness

-- The values of `effective_state`, those of the aggregate included. The first five are the
-- reported states, `observed s` in this model.
pub data Effective : Type 0 where
  observed : Reported → Effective
  session_ended is_stale waiting partially_unknown not_observed : Effective

pub data Reason : Type 0 where
  never_observed session_over clock_discontinuity report_delayed observation_incomplete : Reason
  state_unknown inconsistent_report reported_as_is idle_interval_unknown : Reason
  idle_threshold_reached idle_threshold_pending : Reason

pub data Scope : Type 0 where
  worker controller other_scope : Scope

-- A number for each value, to compare by.
abbrev effective_index : Effective → ℕ
effective_index session_ended = 0
effective_index is_stale = 1
effective_index waiting = 2
effective_index partially_unknown = 3
effective_index not_observed = 4
effective_index (observed r) = report_index r + 5

abbrev pub same_effective : Effective → Effective → Bool
same_effective a b = effective_index a == effective_index b

abbrev pub is_fresh_state : Freshness → Bool
is_fresh_state fresh = true
is_fresh_state _ = false

abbrev pub is_ended : Freshness → Bool
is_ended ended = true
is_ended _ = false

-- The columns of a session row that the decision reads.
pub record SessionRow : Type 0 where
  pub reported_state : Reported
  pub ended_at : Stamp
  pub last_seen_at : Stamp
  pub state_since_at : Stamp
  pub idle_since_at : Stamp
  pub state_observation_available : Bool
  pub observation_scope : Scope
  pub active_work_count : Number

pub record SessionState : Type 0 where
  pub reported_state : Reported
  pub freshness : Freshness
  pub effective_state : Effective
  pub reason : Reason
  pub state_seconds : Option ℕ
  pub idle_seconds : Option ℕ
  pub is_idle : Bool

-- The default result, before any observation.
abbrev pub unobserved : SessionRow → SessionState
unobserved row = record {
  reported_state = if is_recognized row.reported_state then row.reported_state else unknown;
  freshness = not_known;
  effective_state = observed unknown;
  reason = never_observed;
  state_seconds = none;
  idle_seconds = none;
  is_idle = false;
}

abbrev pub is_observer : Scope → Bool
is_observer worker = true
is_observer controller = true
is_observer other_scope = false

-- `_aware(state_since) and now < state_since`
abbrev pub is_after : Stamp → ℕ → Bool
is_after (aware t) now = ltb now t
is_after _ now = false

-- `int((now - since).total_seconds())`
abbrev pub seconds_since : ℕ → ℕ → ℕ
seconds_since since now = (now - since) / second

abbrev pub is_inconsistent : Reported → ℕ → Bool
is_inconsistent reported active =
    same_report reported running && active == 0 || same_report reported idle && not (active == 0)

-- The idle interval, from `since = row.get("idle_since_at")` on.
unfoldable pub idle_decision : SessionState → Stamp → ℕ → ℕ → ℕ → PresencePolicy → SessionState
idle_decision result (aware since) state_since last_seen now p =
    if ltb since state_since || ltb last_seen since || ltb now since
    then record result { reason = idle_interval_unknown }
    else let reached = leb p.idle_after_seconds (seconds_since since now) in
      record result {
        effective_state = if reached then observed idle else waiting;
        reason = if reached then idle_threshold_reached else idle_threshold_pending;
        idle_seconds = some (seconds_since since now);
        is_idle = reached;
      }
idle_decision result _ state_since last_seen now p = record result {
  reason = idle_interval_unknown;
}

-- A fresh report: from `result["freshness"] = "fresh"` on.
unfoldable pub fresh_decision : SessionRow → Stamp → Number → ℕ → ℕ → PresencePolicy → SessionState
fresh_decision row (aware since) (integer (pos active)) last_seen now p =
    let result = record (unobserved row) { freshness = fresh } in
    if not row.state_observation_available
      || not (is_observer row.observation_scope)
      || not (is_recognized row.reported_state)
      || ltb 128 active
    then record result { reason = observation_incomplete }
    else if same_report row.reported_state unknown
    then record result { reason = state_unknown }
    else if is_inconsistent row.reported_state active
    then record result { reason = inconsistent_report }
    else if not (same_report row.reported_state idle)
    then record result {
      state_seconds = some (seconds_since since now);
      effective_state = observed row.reported_state;
      reason = reported_as_is;
    }
    else idle_decision (record result { state_seconds = some (seconds_since since now) })
        row.idle_since_at since last_seen now p
fresh_decision row _ _ last_seen now p = record (unobserved row) {
  freshness = fresh;
  reason = observation_incomplete;
}

-- With an aware `last_seen_at`.
unfoldable pub seen_decision : SessionRow → Stamp → ℕ → PresencePolicy → SessionState
seen_decision row (aware last_seen) now p =
    if ltb now last_seen || is_after row.state_since_at now
    then record (unobserved row) { reason = clock_discontinuity }
    else if leb (p.stale_after_seconds * second) (now - last_seen)
    then record (unobserved row) {
      freshness = stale;
      effective_state = is_stale;
      reason = report_delayed;
    }
    else fresh_decision row row.state_since_at row.active_work_count last_seen now p
seen_decision row _ now p = unobserved row

-- The decision at an aware observation time.
unfoldable pub session_at : SessionRow → ℕ → PresencePolicy → SessionState
session_at row now p =
    if is_set row.ended_at
    then record (unobserved row) {
      freshness = ended;
      effective_state = session_ended;
      reason = session_over;
    }
    else seen_decision row row.last_seen_at now p

-- `none` is the `ValueError` of an observation time with no time zone.
unfoldable pub session_state : SessionRow → Stamp → PresencePolicy → Option SessionState
unfolding session_at
session_state row (aware now) p = some (session_at row now p)
session_state row _ p = none
