-- ===== src/Presence/Tests.antt =====
-- Runs of the presence decisions, and the theorems at concrete sessions.
use isekai_memory.Base.{
  ℕ, ◌≡◌, ◌≤◌, ◌⊎◌, inr, refl, true, false, none, some, [], ◌∷◌, arith, All, length,
}
use isekai_memory.Base.Int.{pos, negsuc, integer, not_integer}
use isekai_memory.Presence.Times.{
  idle, PresencePolicy, presence_policy, missing, aware, is_set, StateTimes, next_times,
}
use isekai_memory.Presence.State.{
  SessionRow, SessionState, Effective, session_at, session_state, seen_decision, fresh_decision,
  idle_decision, worker, fresh, observed, waiting, is_stale,
}
use isekai_memory.Presence.Idle.{IsIdleAt, session_state_idle_sound}
use isekai_memory.Presence.Heartbeat.{IsTimed, reported_at, times_of, next_times_first}
use isekai_memory.Presence.Aggregate.{
  Aggregate, aggregated, aggregate_states, open_decision, resting_decision, min_from, tally,
  count_up,
}
use isekai_memory.Presence.Aggregate.Sound.{
  observe_all, aggregate_states_idle_sound, counted, aggregate_states-counts,
}

abbrev policy : PresencePolicy
policy = record { heartbeat_seconds = 15; stale_after_seconds = 60; idle_after_seconds = 300 }

default_policy :
    presence_policy (integer (pos 15)) (integer (pos 60)) (integer (pos 300)) ≡ some policy
unfolding presence_policy
default_policy = refl

narrow_policy : presence_policy (integer (pos 30)) (integer (pos 60)) (integer (pos 300)) ≡ none
unfolding presence_policy
narrow_policy = refl

negative_policy : presence_policy (integer (negsuc 0)) (integer (pos 60)) not_integer ≡ none
unfolding presence_policy
negative_policy = refl

-- Idle since 100 s, last seen at 390 s.
abbrev resting : SessionRow
resting = record {
  reported_state = idle;
  ended_at = missing;
  last_seen_at = aware 390_000_000;
  state_since_at = aware 100_000_000;
  idle_since_at = aware 100_000_000;
  state_observation_available = true;
  observation_scope = worker;
  active_work_count = integer (pos 0);
}

abbrev closed : SessionRow
closed = record resting { ended_at = aware 395_000_000 }

abbrev observed_at : ℕ → SessionState
observed_at now = session_at resting now policy

idle_at_400 : (observed_at 400_000_000).is_idle ≡ true
unfolding session_at seen_decision fresh_decision idle_decision
idle_at_400 = refl

stale_at_450 : (observed_at 450_000_000).effective_state ≡ is_stale
unfolding session_at seen_decision fresh_decision idle_decision
stale_at_450 = refl

waiting_at_399 : (observed_at 399_999_999).effective_state ≡ waiting
unfolding session_at seen_decision fresh_decision idle_decision
waiting_at_399 = refl

session_state_idle_sound_example :
    IsIdleAt resting 400_000_000 policy
    × ((observed_at 400_000_000).effective_state ≡ observed idle)
    × ((observed_at 400_000_000).freshness ≡ fresh)
unfolding session_state session_at seen_decision fresh_decision idle_decision
session_state_idle_sound_example =
    session_state_idle_sound resting 400_000_000 policy (observed_at 400_000_000) refl refl

abbrev both : Aggregate
both = record {
  effective_state = observed idle;
  idle_seconds = some 300;
  is_idle = true;
  is_complete = true;
  observed_sessions = 2;
  open_sessions = 1;
  counts = (observed idle, 1) ∷ (Effective.session_ended, 1) ∷ [];
  has_uncertainty = false;
}

both_idle :
    aggregate_states (observe_all (resting ∷ closed ∷ []) 400_000_000 policy) true ≡ aggregated both
unfolding aggregate_states session_at seen_decision fresh_decision idle_decision open_decision
    resting_decision min_from tally count_up
both_idle = refl

aggregate_states_idle_sound_example :
    ◌≡◌ {A = _} true true
    × All
        (λ row. (is_set row.ended_at ≡ true) ⊎ IsIdleAt row 400_000_000 policy)
        (resting ∷ closed ∷ [])
aggregate_states_idle_sound_example =
    aggregate_states_idle_sound (resting ∷ closed ∷ []) 400_000_000 policy true both both_idle refl

counted_states :
    (counted both.counts ≡ both.observed_sessions)
    × (both.observed_sessions ≡ length (observe_all (resting ∷ closed ∷ []) 400_000_000 policy))
    × (both.open_sessions ≤ both.observed_sessions)
    × (length (observe_all (resting ∷ closed ∷ []) 400_000_000 policy) ≤ 10_000)
counted_states =
    aggregate_states-counts (observe_all (resting ∷ closed ∷ []) 400_000_000 policy) true both
      both_idle

abbrev first_times : StateTimes
first_times = record { state_since_at = aware 100_000_000; idle_since_at = aware 100_000_000 }

in_order : IsTimed (reported_at idle 100_000_000 first_times)
unfolding next_times
in_order = next_times_first idle 100_000_000 policy false first_times refl

resting-IsTimed : IsTimed (times_of resting)
resting-IsTimed = record {
  seen = refl;
  since = refl;
  ordered = omega arith;
  interval = inr (record { known = refl; in_state = omega arith; before_report = omega arith });
}
