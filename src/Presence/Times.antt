-- ===== src/Presence/Times.antt =====
-- The presence policy, time stamps and reported states, and the times that a report leaves behind.
use isekai_memory.Base.{
  ℕ, ◌+◌, ◌-◌, ◌*◌, Bool, true, false, ◌&&◌, ◌||◌, not, Option, none, some, ltb, leb, ◌==◌,
  if◌then◌else◌,
}
use isekai_memory.Base.Int.{pos, Number, integer}

-- The states of `REPORTED_STATES`; `unrecognized` is any other string, by an index.
pub data Reported : Type 0 where
  running waiting_approval blocked idle unknown : Reported
  unrecognized : ℕ → Reported

abbrev pub report_index : Reported → ℕ
report_index running = 0
report_index waiting_approval = 1
report_index blocked = 2
report_index idle = 3
report_index unknown = 4
report_index (unrecognized n) = n + 5

-- `reported in REPORTED_STATES`
abbrev pub is_recognized : Reported → Bool
is_recognized r = ltb (report_index r) 5

abbrev pub same_report : Reported → Reported → Bool
same_report a b = report_index a == report_index b

pub record PresencePolicy : Type 0 where
  pub heartbeat_seconds : ℕ
  pub stale_after_seconds : ℕ
  pub idle_after_seconds : ℕ

-- `type(value) is int and low <= value <= high`, with the value.
abbrev bounded : ℕ → ℕ → Number → Option ℕ
bounded low high (integer (pos n)) = if leb low n && leb n high then some n else none
bounded low high _ = none

-- `PresencePolicy(...)` with `__post_init__`; `none` is its `ValueError`.
unfoldable pub presence_policy : Number → Number → Number → Option PresencePolicy
presence_policy heartbeat stale after = elim (bounded 10 60 heartbeat) [
  | none ↦ none
  | some h ↦ elim (bounded 45 300 stale) [
    | none ↦ none
    | some s ↦ elim (bounded 60 3600 after) [
      | none ↦ none
      | some i ↦
          if ltb s (h * 3)
          then none
          else some
              (record { heartbeat_seconds = h; stale_after_seconds = s; idle_after_seconds = i })
    ]
  ]
]

-- A stored time: absent, a `datetime` with no time zone, or one that `_aware` accepts.
pub data Stamp : Type 0 where
  missing : Stamp
  naive aware : ℕ → Stamp

abbrev pub is_aware : Stamp → Bool
is_aware (aware _) = true
is_aware _ = false

-- `value is not None`
abbrev pub is_set : Stamp → Bool
is_set missing = false
is_set _ = true

-- The instant of an aware stamp.
abbrev pub instant : Stamp → ℕ
instant (aware t) = t
instant _ = 0

-- Microseconds in a second.
abbrev pub second : ℕ
second = 1_000_000

-- What `next_times` reads of the stored session.
pub record Previous : Type 0 where
  pub last_seen_at : Stamp
  pub reported_state : Reported
  pub state_since_at : Stamp
  pub idle_since_at : Stamp

pub record StateTimes : Type 0 where
  pub state_since_at : Stamp
  pub idle_since_at : Stamp

abbrev pub discontinuity : Stamp → ℕ → PresencePolicy → Bool
discontinuity (aware seen) now p = ltb now seen || leb (p.stale_after_seconds * second) (now - seen)
discontinuity _ now p = true

-- The two results once `changed` is known.
abbrev transition : Bool → Previous → Reported → ℕ → StateTimes
transition changed previous reported now = record {
  state_since_at = if changed then aware now else previous.state_since_at;
  idle_since_at =
      if same_report reported idle
      then (if changed then aware now else previous.idle_since_at)
      else missing;
}

abbrev is_changed : Previous → Reported → ℕ → PresencePolicy → Bool → Bool
is_changed previous reported now p state_changed =
    state_changed
    || discontinuity previous.last_seen_at now p
    || not (same_report previous.reported_state reported)

abbrev no_session : Previous
no_session = record {
  last_seen_at = missing;
  reported_state = unknown;
  state_since_at = missing;
  idle_since_at = missing;
}

-- `none` is the `ValueError`.
unfoldable pub next_times :
    Option Previous → Reported → Stamp → PresencePolicy → Bool → Option StateTimes
next_times none reported (aware now) p state_changed =
    if is_recognized reported then some (transition true no_session reported now) else none
next_times (some previous) reported (aware now) p state_changed =
    if is_recognized reported
    then some (transition (is_changed previous reported now p state_changed) previous reported now)
    else none
next_times previous reported _ p state_changed = none
