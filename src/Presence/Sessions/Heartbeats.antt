-- ===== src/Presence/Sessions/Heartbeats.antt =====
-- `heartbeat` and `end` of isekai_memory/continuity/presence.py.
use isekai_memory.Base.{
  ℕ, ◌-◌, ◌*◌, Bool, true, false, ◌&&◌, ◌||◌, not, Option, none, some, List, [], ◌∷◌, ltb, leb,
  ◌==◌, if◌then◌else◌, is_some,
}
use isekai_memory.Base.Outcome.{Result, ok, raise, raise_if, ◌>>=◌, ◌>>◌}
use isekai_memory.Access.Tokens.{Principal, write, contributed, authorize_tool}
use isekai_memory.Presence.Times.{PresencePolicy, aware, instant, second, StateTimes, next_times}
use isekai_memory.Presence.Sessions.Rows.{
  Classification, rank, Session, Body, state_event, end_event, Event, Store, conflict, invalid,
  policy, policy_values, holds, previous_of,
}
use isekai_memory.Presence.Sessions.Reports.{
  Speaker, Report, is_valid_report, owned, is_changed, admit, classify,
}
use isekai_memory.Presence.Sessions.Operations.{
  Reply, Plan, repeat_answer, rewrite_session, fault, recorded, perform,
}

-- The columns that the UPDATE of `heartbeat` sets.
abbrev pub report_row : Report → ℕ → Classification → StateTimes → Session → Session
report_row a now c t r = record r {
  sequence = a.speaker.sequence;
  state_sequence = a.state_sequence;
  report_digest = some a.speaker.fingerprint;
  reported_policy_version = a.policy_version;
  reported_state = a.reported_state;
  observation_scope = a.observation_scope;
  state_observation_available = a.state_observation_available;
  active_work_count = a.active_work_count;
  work_unit_id = a.work_unit_id;
  checkpoint_id = a.checkpoint_id;
  classification = c;
  last_seen_at = aware now;
  state_since_at = t.state_since_at;
  idle_since_at = t.idle_since_at;
}

-- `resumed`
abbrev pub is_resumed : Session → ℕ → PresencePolicy → Bool
is_resumed r now p =
    ltb now (instant r.last_seen_at)
    || leb (p.stale_after_seconds * second) (now - instant r.last_seen_at)

-- The event of a report that changes, resumes or reclassifies the session.
abbrev pub state_events : Report → ℕ → ℕ → Classification → PresencePolicy → Session → List Event
state_events a actor now c p r =
    if is_changed a r || is_resumed r now p || not (rank c == rank r.classification)
    then recorded a.speaker.project_id actor state_event r.id a.speaker.sequence ∷ []
    else []

abbrev pub timed_report :
    Report → ℕ → ℕ → ℕ → Session → Classification → PresencePolicy → Option StateTimes → Plan
timed_report a actor now version r c p none = fault
timed_report a actor now version r c p (some t) =
    rewrite_session (report_row a now c t) r version (state_events a actor now c p r)

-- The thresholds are checked again as they are read.
abbrev pub planned_report :
    Report → ℕ → ℕ → ℕ → Session → Option Classification → Option PresencePolicy → Plan
planned_report a actor now version r none p = fault
planned_report a actor now version r (some c) none = fault
planned_report a actor now version r (some c) (some p) =
    timed_report a actor now version r c p
      (next_times (some (previous_of r)) a.reported_state (aware now) p (is_changed a r))

-- After the tests of `admit`.
unfoldable pub take_report : Report → ℕ → ℕ → ℕ × Body → Store → Session → Bool → Result Plan
take_report a actor now (version, body) s r true = ok (repeat_answer r version)
take_report a actor now (version, body) s r false = classify a actor now s r >>= λ c.
    ok (planned_report a actor now version r c (policy_values body))

unfoldable pub heartbeat_plan : Report → Principal → ℕ → Store → Result Plan
heartbeat_plan a p now s = do
  authorize_tool p (contributed write true) (some a.speaker.project_id)
  raise_if (not (is_valid_report a)) invalid
  r ← owned a.speaker p.user_id s
  again ← admit a (policy a.speaker.project_id s).1.enabled r
  take_report a p.user_id now (policy a.speaker.project_id s) s r again

unfoldable pub heartbeat : Report → Principal → ℕ → Store → Store × Reply
heartbeat a p now s = perform (heartbeat_plan a p now s) s

abbrev pub end_row : Speaker → ℕ → Session → Session
end_row a now r = record r {
  sequence = a.sequence;
  report_digest = some a.fingerprint;
  ended_at = some now;
}

unfoldable pub take_end : Speaker → ℕ → ℕ → ℕ → Session → Result Plan
take_end a actor now version r =
    if is_some r.ended_at
    then (if a.sequence == r.sequence && holds r.report_digest a.fingerprint
        then ok (repeat_answer r version)
        else raise conflict)
    else if leb a.sequence r.sequence
    then raise conflict
    else ok (
        rewrite_session (end_row a now) r version
          (recorded a.project_id actor end_event r.id a.sequence ∷ []))

-- `end`
unfoldable pub end_session : Speaker → Principal → ℕ → Store → Store × Reply
end_session a p now s =
    perform
      (authorize_tool p (contributed write true) (some a.project_id)
        >> (owned a p.user_id s >>= λ r. take_end a p.user_id now (policy a.project_id s).0 r))
      s
