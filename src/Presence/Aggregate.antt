-- ===== src/Presence/Aggregate.antt =====
-- `aggregate_states`: the sessions of one user or project, taken together.
pub mod Sound
use isekai_memory.Base.{
  ℕ, ◌+◌, Bool, true, false, ◌&&◌, ◌||◌, not, Option, none, some, List, [], ◌∷◌, ltb, if◌then◌else◌,
  length, any, all, select, map, min,
}
use isekai_memory.Presence.Times.{running, waiting_approval, blocked, idle, unknown}
use isekai_memory.Presence.State.{
  Freshness, not_known, fresh, stale, ended, Effective, observed, session_ended, is_stale, waiting,
  partially_unknown, not_observed, SessionState, same_effective, is_ended, is_fresh_state,
}

pub record Aggregate : Type 0 where
  pub effective_state : Effective
  pub idle_seconds : Option ℕ
  pub is_idle : Bool
  pub is_complete : Bool
  pub observed_sessions : ℕ
  pub open_sessions : ℕ
  pub counts : List (Effective × ℕ)
  pub has_uncertainty : Bool

-- A value, the `ValueError` for too many sessions, or the `TypeError` of comparing `None` in `min`.
pub data Outcome : Type 0 where
  aggregated : Aggregate → Outcome
  value_error type_error : Outcome

-- `Counter(...)`, as a dict in the order of first occurrence.
unfoldable pub count_up : Effective → List (Effective × ℕ) → List (Effective × ℕ)
count_up k [] = (k, 1) ∷ []
count_up k ((j, n) ∷ d) = if same_effective j k then (j, n + 1) ∷ d else (j, n) ∷ count_up k d

unfoldable pub tally : List (Effective × ℕ) → List SessionState → List (Effective × ℕ)
tally d [] = d
tally d (s ∷ states) = tally (count_up s.effective_state d) states

-- `min` over seconds that may be `None`; the outer `none` is the `TypeError`.
unfoldable pub min_from : Option ℕ → List SessionState → Option (Option ℕ)
min_from least [] = some least
min_from (some a) (s ∷ states) = elim s.idle_seconds [
  | some b ↦ min_from (some (min a b)) states
  | none ↦ none
]
min_from none (s ∷ states) = none

abbrev pub is_open : SessionState → Bool
is_open s = not (is_ended s.freshness)

abbrev pub is_uncertain : SessionState → Bool
is_uncertain s = elim s.freshness [
  | stale ↦ true
  | not_known ↦ true
  | _ ↦ same_effective s.effective_state (observed unknown)
]

-- `item["freshness"] == "fresh" and item["effective_state"] == status`
abbrev pub shows : Effective → SessionState → Bool
shows status s = is_fresh_state s.freshness && same_effective s.effective_state status

abbrev pub is_resting : SessionState → Bool
is_resting s =
    is_fresh_state s.freshness
    && (same_effective s.effective_state (observed idle)
        || same_effective s.effective_state waiting)

-- The last two returns.
unfoldable pub resting_decision : Aggregate → List SessionState → Outcome
resting_decision result [] = aggregated result
resting_decision result (s ∷ opened) =
    if all is_resting (s ∷ opened)
    then elim (min_from s.idle_seconds opened) [
      | none ↦ type_error
      | some seconds ↦
          let resting = all (λ x. x.is_idle) (s ∷ opened) in
          aggregated (record result {
            effective_state = if resting then observed idle else waiting;
            idle_seconds = seconds;
            is_idle = resting;
          })
    ]
    else aggregated (record result { effective_state = partially_unknown; has_uncertainty = true })

-- `if not opened` comes before them.
unfoldable pub open_decision : Aggregate → List SessionState → List SessionState → Outcome
open_decision result [] [] = aggregated (record result { effective_state = not_observed })
open_decision result (_ ∷ _) [] = aggregated (record result { effective_state = session_ended })
open_decision result states (s ∷ opened) = resting_decision result (s ∷ opened)

unfoldable pub aggregate_states : List SessionState → Bool → Outcome
aggregate_states states complete =
    let opened = select is_open states in
    let uncertain = not complete || any is_uncertain opened in
    let result : Aggregate = record {
      effective_state = observed unknown;
      idle_seconds = none;
      is_idle = false;
      is_complete = complete;
      observed_sessions = length states;
      open_sessions = length opened;
      counts = tally [] states;
      has_uncertainty = uncertain;
    } in
    if ltb 10_000 (length states)
    then value_error
    else if any (shows (observed running)) opened
    then aggregated (record result { effective_state = observed running })
    else if any (shows (observed waiting_approval)) opened
    then aggregated (record result { effective_state = observed waiting_approval })
    else if any (shows (observed blocked)) opened
    then aggregated (record result { effective_state = observed blocked })
    else if uncertain
    then aggregated (record result { effective_state = partially_unknown })
    else open_decision result states opened
