-- ===== src/Presence/Heartbeat.antt =====
-- The times that reports leave behind stay in order, so the idle interval is never lost.
use isekai_memory.Base.{
  ℕ, ◌+◌, ◌*◌, ◌≤◌, ◌<◌, ◌≡◌, ◌≢◌, Bool, true, ◌⊎◌, none, some, arith, leb, if◌then◌else◌,
}
use isekai_memory.Base.Int.{pos, integer}
use isekai_memory.Presence.Times.{
  Reported, idle, PresencePolicy, missing, aware, instant, second, Previous, StateTimes, next_times,
  report_index,
}
use isekai_memory.Presence.State.{
  SessionRow, session_at, seconds_since, waiting, observed, is_observer, seen_decision,
  fresh_decision, idle_decision,
}

-- The idle interval of a session that reports itself idle lies between the start of its state and
-- its last report.
pub record IsIdleTimed (s : Previous) : Type 0 where
  pub known : s.idle_since_at ≡ aware (instant s.idle_since_at)
  pub in_state : instant s.state_since_at ≤ instant s.idle_since_at
  pub before_report : instant s.idle_since_at ≤ instant s.last_seen_at

-- The state began at a known time, not after the last report.
pub record IsTimed (s : Previous) : Type 0 where
  pub seen : s.last_seen_at ≡ aware (instant s.last_seen_at)
  pub since : s.state_since_at ≡ aware (instant s.state_since_at)
  pub ordered : instant s.state_since_at ≤ instant s.last_seen_at
  pub interval : (s.reported_state ≢ idle) ⊎ IsIdleTimed s

-- The session as a report at `now` leaves it.
abbrev pub reported_at : Reported → ℕ → StateTimes → Previous
reported_at r now t = record {
  last_seen_at = aware now;
  reported_state = r;
  state_since_at = t.state_since_at;
  idle_since_at = t.idle_since_at;
}

report_index_injective : (a b : Reported) → report_index a ≡ report_index b → a ≡ b
report_index_injective a b h = ground arith

-- If the first report of a session is accepted, the times that it leaves are in order (`IsTimed`).
pub next_times_first :
    (r : Reported) (now : ℕ) (p : PresencePolicy) (changed : Bool) (t : StateTimes)
    → next_times none r (aware now) p changed ≡ some t
    → IsTimed (reported_at r now t)
unfolding next_times
next_times_first r now p changed t e = ground arith

-- If a session whose times are in order accepts a later report, its times are in order again,
-- whatever the clock of the report reads.
pub next_times-IsTimed :
    (s : Previous) (r : Reported) (now : ℕ) (p : PresencePolicy) (changed : Bool) (t : StateTimes)
    → IsTimed s
    → next_times (some s) r (aware now) p changed ≡ some t
    → IsTimed (reported_at r now t)
unfolding next_times
next_times-IsTimed s r now p changed t h e =
    ground (arith, report_index_injective s.reported_state r)

-- The stored times of a session row.
abbrev pub times_of : SessionRow → Previous
times_of row = record {
  last_seen_at = row.last_seen_at;
  reported_state = row.reported_state;
  state_since_at = row.state_since_at;
  idle_since_at = row.idle_since_at;
}

-- A session whose times are in order and whose last report, still fresh, shows an idle observer
-- with no work is always given its idle time, and is idle as soon as that reaches the threshold.
pub session_at_idle_time :
    (row : SessionRow) (now : ℕ) (p : PresencePolicy)
    → IsTimed (times_of row)
    → row.reported_state ≡ idle
    → row.ended_at ≡ missing
    → row.state_observation_available ≡ true
    → is_observer row.observation_scope ≡ true
    → row.active_work_count ≡ integer (pos 0)
    → instant row.last_seen_at ≤ now
    → now < instant row.last_seen_at + p.stale_after_seconds * second
    → let s = session_at row now p in
      let seconds = seconds_since (instant row.idle_since_at) now in
      (s.idle_seconds ≡ some seconds)
      × (s.is_idle ≡ leb p.idle_after_seconds seconds)
      × (s.effective_state ≡ (if leb p.idle_after_seconds seconds then observed idle else waiting))
unfolding session_at seen_decision fresh_decision idle_decision
session_at_idle_time row now p h r o a b w l f = ground arith
