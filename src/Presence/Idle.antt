-- ===== src/Presence/Idle.antt =====
-- What a decision about one session rests on.
use isekai_memory.Base.{refl, ℕ, ◌+◌, ◌*◌, ◌≤◌, ◌<◌, ◌≡◌, true, false, some, arith}
use isekai_memory.Base.Int.{pos, integer, Number}
use isekai_memory.Presence.Times.{
  idle, PresencePolicy, Stamp, missing, aware, instant, is_set, second, Reported, report_index,
}
use isekai_memory.Presence.State.{
  SessionRow, SessionState, session_state, observed, fresh, seen_decision, fresh_decision,
  idle_decision, unobserved, seconds_since, is_observer, idle_threshold_reached, is_ended,
  session_at,
}

-- The evidence for idleness: an open session whose last report is fresh and complete, that reports
-- no active work, and whose idle interval began early enough.
pub record IsIdleAt (row : SessionRow) (now : ℕ) (p : PresencePolicy) : Type 0 where
  pub is_open : row.ended_at ≡ missing
  pub seen : row.last_seen_at ≡ aware (instant row.last_seen_at)
  pub state_known : row.state_since_at ≡ aware (instant row.state_since_at)
  pub interval_known : row.idle_since_at ≡ aware (instant row.idle_since_at)
  pub reports_idle : row.reported_state ≡ idle
  pub available : row.state_observation_available ≡ true
  pub by_observer : is_observer row.observation_scope ≡ true
  pub no_work : row.active_work_count ≡ integer (pos 0)
  pub is_fresh : now < instant row.last_seen_at + p.stale_after_seconds * second
  pub in_state : instant row.state_since_at ≤ instant row.idle_since_at
  pub before_report : instant row.idle_since_at ≤ instant row.last_seen_at
  pub not_ahead : instant row.last_seen_at ≤ now
  pub long_enough : instant row.idle_since_at + p.idle_after_seconds * second ≤ now

idle_decision_sound :
    (result : SessionState) (since : Stamp) (state_since seen now : ℕ) (p : PresencePolicy)
    → result.is_idle ≡ false
    → (idle_decision result since state_since seen now p).is_idle ≡ true
    → (since ≡ aware (instant since))
      × (state_since ≤ instant since)
      × (instant since ≤ seen)
      × (instant since + p.idle_after_seconds * second ≤ now)
      × ((idle_decision result since state_since seen now p).effective_state ≡ observed idle)
      × ((idle_decision result since state_since seen now p).freshness ≡ result.freshness)
unfolding idle_decision
idle_decision_sound result (aware t) state_since seen now p e h = ground arith
idle_decision_sound result _ state_since seen now p e h = cc

report_index_idle : (r : Reported) → report_index r ≡ 3 → r ≡ idle
report_index_idle r h = ground arith

fresh_decision_sound :
    (row : SessionRow) (since : Stamp) (active : Number) (seen now : ℕ) (p : PresencePolicy)
    → (fresh_decision row since active seen now p).is_idle ≡ true
    → (since ≡ aware (instant since))
      × (active ≡ integer (pos 0))
      × (row.reported_state ≡ idle)
      × (row.state_observation_available ≡ true)
      × (is_observer row.observation_scope ≡ true)
      × (row.idle_since_at ≡ aware (instant row.idle_since_at))
      × (instant since ≤ instant row.idle_since_at)
      × (instant row.idle_since_at ≤ seen)
      × (instant row.idle_since_at + p.idle_after_seconds * second ≤ now)
      × ((fresh_decision row since active seen now p).effective_state ≡ observed idle)
      × ((fresh_decision row since active seen now p).freshness ≡ fresh)
unfolding fresh_decision
fresh_decision_sound row (aware t) (integer (pos n)) seen now p h =
    let result = record (unobserved row) {
      freshness = fresh;
      state_seconds = some (seconds_since t now);
    } in
    ground (
      arith,
      idle_decision_sound result row.idle_since_at t seen now p,
      report_index_idle row.reported_state,
    )
fresh_decision_sound row _ _ seen now p h = cc

seen_decision_sound :
    (row : SessionRow) (seen : Stamp) (now : ℕ) (p : PresencePolicy)
    → (seen_decision row seen now p).is_idle ≡ true
    → (seen ≡ aware (instant seen))
      × (now < instant seen + p.stale_after_seconds * second)
      × (instant seen ≤ now)
      × (seen_decision row seen now p
          ≡ fresh_decision row row.state_since_at row.active_work_count (instant seen) now p)
unfolding seen_decision
seen_decision_sound row (aware t) now p h = ground arith
seen_decision_sound row _ now p h = cc

session_state_open :
    (row : SessionRow) (now : ℕ) (p : PresencePolicy) (s : SessionState)
    → session_state row (aware now) p ≡ some s
    → s.is_idle ≡ true
    → (row.ended_at ≡ missing) × (seen_decision row row.last_seen_at now p ≡ s)
unfolding session_state
session_state_open row now p s e h = ground arith

-- For a time-zone-aware observation time, a session is said to be idle only on the evidence of
-- `IsIdleAt`, and is then reported fresh, with the effective state `idle`.
pub session_state_idle_sound :
    (row : SessionRow) (now : ℕ) (p : PresencePolicy) (s : SessionState)
    → session_state row (aware now) p ≡ some s
    → s.is_idle ≡ true
    → IsIdleAt row now p × (s.effective_state ≡ observed idle) × (s.freshness ≡ fresh)
session_state_idle_sound row now p s e h =
    let o = session_state_open row now p s e h in
    let a = seen_decision_sound row row.last_seen_at now p (rw o.1 h) in
    let b =
      fresh_decision_sound row row.state_since_at row.active_work_count (instant row.last_seen_at)
        now p (rw (← a.3, o.1) h) in
    ground arith

-- The evidence of `IsIdleAt` suffices: the session is then reported idle, for the seconds since
-- its idle interval began.
pub session_state_idle_complete :
    (row : SessionRow) (now : ℕ) (p : PresencePolicy)
    → IsIdleAt row now p
    → session_state row (aware now) p
      ≡ some (record {
        reported_state = idle;
        freshness = fresh;
        effective_state = observed idle;
        reason = idle_threshold_reached;
        state_seconds = some (seconds_since (instant row.state_since_at) now);
        idle_seconds = some (seconds_since (instant row.idle_since_at) now);
        is_idle = true;
      })
unfolding session_state seen_decision fresh_decision idle_decision
session_state_idle_complete row now p h = ground arith

idle_decision-freshness :
    (result : SessionState) (since : Stamp) (state_since seen now : ℕ) (p : PresencePolicy)
    → (idle_decision result since state_since seen now p).freshness ≡ result.freshness
unfolding idle_decision
idle_decision-freshness result (aware t) state_since seen now p = ground arith
idle_decision-freshness result _ state_since seen now p = refl

fresh_decision-freshness :
    (row : SessionRow) (since : Stamp) (active : Number) (seen now : ℕ) (p : PresencePolicy)
    → (fresh_decision row since active seen now p).freshness ≡ fresh
unfolding fresh_decision
fresh_decision-freshness row (aware t) (integer (pos n)) seen now p =
    let result = record (unobserved row) {
      freshness = fresh;
      state_seconds = some (seconds_since t now);
    } in
    ground (arith, idle_decision-freshness result row.idle_since_at t seen now p)
fresh_decision-freshness row _ _ seen now p = refl

seen_decision-is_ended :
    (row : SessionRow) (seen : Stamp) (now : ℕ) (p : PresencePolicy)
    → is_ended (seen_decision row seen now p).freshness ≡ false
unfolding seen_decision
seen_decision-is_ended row (aware t) now p =
    ground (arith, fresh_decision-freshness row row.state_since_at row.active_work_count t now p)
seen_decision-is_ended row _ now p = refl

-- Only a session with an `ended_at` is said to have ended.
pub session_at-is_ended :
    (row : SessionRow) (now : ℕ) (p : PresencePolicy)
    → is_ended (session_at row now p).freshness ≡ is_set row.ended_at
unfolding session_at
session_at-is_ended row now p = ground (arith, seen_decision-is_ended row row.last_seen_at now p)
