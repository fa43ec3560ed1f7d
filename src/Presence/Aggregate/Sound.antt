-- ===== src/Presence/Aggregate/Sound.antt =====
-- What an aggregate decision rests on.
use isekai_memory.Base.{
  ℕ, ◌+◌, ◌≤◌, ◌≡◌, refl, sym, ◌∙◌, Bool, true, false, ◌⊎◌, inl, inr, List, [], ◌∷◌, arith, length,
  all, select, map, All,
}
use isekai_memory.Presence.Times.{is_set, PresencePolicy}
use isekai_memory.Presence.State.{
  SessionRow, SessionState, Effective, session_at, session_state, is_ended,
}
use isekai_memory.Presence.Idle.{IsIdleAt, session_state_idle_sound, session_at-is_ended}
use isekai_memory.Presence.Aggregate.{
  Aggregate, aggregated, is_open, aggregate_states, open_decision, resting_decision, count_up,
  tally,
}

-- An aggregate is idle only if every open session is.
resting_decision_sound :
    (result : Aggregate) (opened : List SessionState) (a : Aggregate)
    → resting_decision result opened ≡ aggregated a
    → result.is_idle ≡ false
    → a.is_idle ≡ true
    → all (λ s. s.is_idle) opened ≡ true
unfolding resting_decision
resting_decision_sound result [] a e f h = ground arith
resting_decision_sound result (s ∷ opened) a e f h = ground arith

open_decision_sound :
    (result : Aggregate) (states opened : List SessionState) (a : Aggregate)
    → open_decision result states opened ≡ aggregated a
    → result.is_idle ≡ false
    → a.is_idle ≡ true
    → all (λ s. s.is_idle) opened ≡ true
unfolding open_decision
open_decision_sound result [] [] a e f h = ground arith
open_decision_sound result (_ ∷ _) [] a e f h = ground arith
open_decision_sound result states (s ∷ opened) a e f h =
    resting_decision_sound result (s ∷ opened) a e f h

aggregate_all_idle :
    (states : List SessionState) (complete : Bool) (a : Aggregate)
    → aggregate_states states complete ≡ aggregated a
    → a.is_idle ≡ true
    → (complete ≡ true) × (all (λ s. s.is_idle) (select is_open states) ≡ true)
unfolding aggregate_states
aggregate_all_idle states complete a e h = grind (arith, open_decision_sound)

all-select :
    (s : SessionState) (states : List SessionState)
    → all (λ s. s.is_idle) (select is_open (s ∷ states)) ≡ true
    → ((is_ended s.freshness ≡ true) ⊎ (s.is_idle ≡ true))
      × (all (λ s. s.is_idle) (select is_open states) ≡ true)
all-select s states h = ground arith

-- The sessions of a list of rows, seen at one instant.
abbrev pub observe_all : List SessionRow → ℕ → PresencePolicy → List SessionState
observe_all rows now p = map (λ row. session_at row now p) rows

row_evidence :
    (row : SessionRow) (now : ℕ) (p : PresencePolicy)
    → (is_ended (session_at row now p).freshness ≡ true) ⊎ ((session_at row now p).is_idle ≡ true)
    → (is_set row.ended_at ≡ true) ⊎ IsIdleAt row now p
unfolding session_state
row_evidence row now p (inl e) = inl (sym (session_at-is_ended row now p) ∙ e)
row_evidence row now p (inr e) = inr (session_state_idle_sound row now p _ refl e).0

rows_evidence :
    (rows : List SessionRow) (now : ℕ) (p : PresencePolicy)
    → all (λ s. s.is_idle) (select is_open (observe_all rows now p)) ≡ true
    → All (λ row. (is_set row.ended_at ≡ true) ⊎ IsIdleAt row now p) rows
rows_evidence [] now p h = tt
rows_evidence (row ∷ rows) now p h =
    let (a, b) = all-select (session_at row now p) (observe_all rows now p) h in
    (row_evidence row now p a, rows_evidence rows now p b)

-- A user or project is said to be idle only if the view is complete and every session in it has
-- ended or is idle on the evidence of `IsIdleAt`.
pub aggregate_states_idle_sound :
    (rows : List SessionRow) (now : ℕ) (p : PresencePolicy) (complete : Bool) (a : Aggregate)
    → aggregate_states (observe_all rows now p) complete ≡ aggregated a
    → a.is_idle ≡ true
    → (complete ≡ true) × All (λ row. (is_set row.ended_at ≡ true) ⊎ IsIdleAt row now p) rows
aggregate_states_idle_sound rows now p complete a e h =
    let (c, open_idle) = aggregate_all_idle (observe_all rows now p) complete a e h in
    (c, rows_evidence rows now p open_idle)

-- The number of sessions in a count by state.
abbrev pub counted : List (Effective × ℕ) → ℕ
counted [] = 0
counted ((_, n) ∷ d) = n + counted d

counted-count_up :
    (k : Effective) (d : List (Effective × ℕ)) → counted (count_up k d) ≡ counted d + 1
unfolding count_up
counted-count_up k [] = refl
counted-count_up k ((j, n) ∷ d) = ground (arith, counted-count_up k d)

counted-tally :
    (d : List (Effective × ℕ)) (states : List SessionState)
    → counted (tally d states) ≡ counted d + length states
unfolding tally
counted-tally d [] = omega arith
counted-tally d (s ∷ states) = omega (
  arith,
  counted-tally (count_up s.effective_state d) states,
  counted-count_up s.effective_state d,
)

length-select : (states : List SessionState) → length (select is_open states) ≤ length states
length-select [] = omega arith
length-select (s ∷ states) = ground (arith, length-select states)

open_decision-counts :
    (result : Aggregate) (states opened : List SessionState) (a : Aggregate)
    → open_decision result states opened ≡ aggregated a
    → (a.counts ≡ result.counts)
      × (a.observed_sessions ≡ result.observed_sessions)
      × (a.open_sessions ≡ result.open_sessions)
unfolding open_decision resting_decision
open_decision-counts result [] [] a e = ground arith
open_decision-counts result (_ ∷ _) [] a e = ground arith
open_decision-counts result states (s ∷ opened) a e = ground arith

-- An aggregate that is returned has counts by state that sum to the number of its sessions, no more
-- open sessions than sessions, and at most 10,000 of them.
pub aggregate_states-counts :
    (states : List SessionState) (complete : Bool) (a : Aggregate)
    → aggregate_states states complete ≡ aggregated a
    → (counted a.counts ≡ a.observed_sessions)
      × (a.observed_sessions ≡ length states)
      × (a.open_sessions ≤ a.observed_sessions)
      × (length states ≤ 10_000)
unfolding aggregate_states
aggregate_states-counts states complete a e =
    grind (arith, counted-tally [] states, length-select states, open_decision-counts)
