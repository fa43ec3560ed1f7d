-- ===== src/Presence/Sessions/Operations.antt =====
-- `register` of isekai_memory/continuity/presence.py. An operation first makes its plan, which reads
-- the tables, and then carries it out.
use isekai_memory.Base.{
  ℕ, ◌+◌, ◌*◌, Bool, true, false, ◌&&◌, ◌||◌, not, Option, none, some, List, [], ◌∷◌, ◌++◌, ltb,
  leb, ◌==◌, if◌then◌else◌, count, is_some,
}
use isekai_memory.Base.Table.{fetch, update}
use isekai_memory.Base.Outcome.{ToolError, Result, ok, raise, raise_if, ◌>>=◌, ◌>>◌}
use isekai_memory.Access.Tokens.{Principal, write, contributed, authorize_tool}
use isekai_memory.Presence.Times.{unknown, missing, aware, second}
use isekai_memory.Presence.State.{Scope, other_scope}
use isekai_memory.Presence.Sessions.Rows.{
  Classification, highest, Session, Body, Action, register_event, Event, Store, conflict,
  unavailable, retired, disabled, limit_reached, policy, has_id,
}

-- What `response` shows of a row, the version of the policy, and whether it is a replay.
pub record Answer : Type 0 where
  pub row : Session
  pub policy_version : ℕ
  pub replayed : Bool

-- A reply: a session's response, a receipt with its replay flag, an error, or an error that is no
-- `MemoryToolError`.
pub data Reply : Type 0 where
  answer : Answer → Reply
  filed : ℕ → Bool → Reply
  refuse : ToolError → Reply
  crash : Reply

-- What a transaction does once it has read what it needs.
pub data Plan : Type 0 where
  repeat_answer : Session → ℕ → Plan
  insert_session : Session → ℕ → Plan
  rewrite_session : (Session → Session) → Session → ℕ → List Event → Plan
  fault : Plan

abbrev pub recorded : ℕ → ℕ → Action → ℕ → ℕ → Event
recorded project actor action target detail = record {
  project_id = project;
  actor_id = actor;
  action = action;
  target_id = target;
  detail = detail;
}

unfoldable pub perform : Result Plan → Store → Store × Reply
perform (raise e) s = (s, refuse e)
perform (ok fault) s = (s, crash)
perform (ok (repeat_answer r v)) s =
    (s, answer (record { row = r; policy_version = v; replayed = true }))
perform (ok (insert_session r v)) s = (
  record s {
    sessions = s.sessions ++ (r ∷ []);
    events = s.events ++ (recorded r.project_id r.actor_id register_event r.id 0 ∷ []);
  },
  answer (record { row = r; policy_version = v; replayed = false }),
)
perform (ok (rewrite_session f r v es)) s = (
  record s { sessions = update (has_id r.id) f s.sessions; events = s.events ++ es },
  answer (record { row = f r; policy_version = v; replayed = false }),
)

-- The arguments of `register`; `token` and `fingerprint` are digests.
pub record Register : Type 0 where
  pub project_id : ℕ
  pub client_instance_id : ℕ
  pub token : ℕ
  pub fingerprint : ℕ
  pub session_kind : Scope
  pub classification : Classification
  pub parent_session_id : Option ℕ

abbrev pub max_open_per_user : ℕ
max_open_per_user = 64

abbrev pub max_live_per_project : ℕ
max_live_per_project = 10_000

abbrev pub max_registrations_per_minute : ℕ
max_registrations_per_minute = 10

abbrev pub is_instance : ℕ → ℕ → ℕ → Session → Bool
is_instance project actor client r =
    r.project_id == project && r.actor_id == actor && r.client_instance_id == client

-- The three counts of `limits`.
abbrev pub is_live : ℕ → Session → Bool
is_live project r = r.project_id == project && not (is_some r.retired_at)

abbrev pub is_open_of : ℕ → ℕ → Session → Bool
is_open_of project actor r =
    r.project_id == project
    && (r.actor_id == actor && not (is_some r.retired_at) && not (is_some r.ended_at))

abbrev pub is_recent_of : ℕ → ℕ → ℕ → Session → Bool
is_recent_of project actor now r =
    r.project_id == project && (r.actor_id == actor && ltb now (r.created_at + 60 * second))

abbrev pub is_limited : ℕ → ℕ → ℕ → List Session → Bool
is_limited project actor now t =
    leb max_live_per_project (count (is_live project) t)
    || leb max_open_per_user (count (is_open_of project actor) t)
    || leb max_registrations_per_minute (count (is_recent_of project actor now) t)

abbrev parent_class : Classification → Option Session → Result Classification
parent_class c none = raise unavailable
parent_class c (some parent) = ok (highest c parent.classification)

-- The classification of a new session: its own, or its parent's where that is higher.
abbrev pub initial_class : Register → ℕ → Store → Result Classification
initial_class a actor s = elim a.parent_session_id [
  | none ↦ ok a.classification
  | some parent ↦ parent_class a.classification (
      fetch
        (λ (r : Session).
          r.id == parent
          && r.project_id == a.project_id
          && r.actor_id == actor
          && not (is_some r.ended_at)
          && not (is_some r.retired_at))
        s.sessions)
]

-- The inserted row, with the defaults of its columns.
abbrev pub new_session : Register → ℕ → ℕ → ℕ → Classification → Session
new_session a actor id now c = record {
  id = id;
  project_id = a.project_id;
  actor_id = actor;
  client_instance_id = a.client_instance_id;
  session_token_digest = a.token;
  register_digest = a.fingerprint;
  session_kind = a.session_kind;
  parent_session_id = a.parent_session_id;
  classification = c;
  sequence = 0;
  state_sequence = 0;
  report_digest = none;
  reported_policy_version = 0;
  reported_state = unknown;
  observation_scope = other_scope;
  state_observation_available = false;
  active_work_count = 0;
  work_unit_id = none;
  checkpoint_id = none;
  created_at = now;
  last_seen_at = aware now;
  state_since_at = aware now;
  idle_since_at = missing;
  ended_at = none;
  retired_at = none;
}

unfoldable pub enroll : Register → ℕ → ℕ → ℕ → ℕ × Body → Store → Option Session → Result Plan
enroll a actor id now (version, body) s (some r) =
    if not (r.register_digest == a.fingerprint)
    then raise conflict
    else if is_some r.retired_at
    then raise retired
    else ok (repeat_answer r version)
enroll a actor id now (version, body) s none = do
  raise_if (not body.enabled) disabled
  raise_if (is_limited a.project_id actor now s.sessions) limit_reached
  c ← initial_class a actor s
  ok (insert_session (new_session a actor id now c) version)

-- `register`; `id` is the identifier that the INSERT draws.
unfoldable pub register : Register → Principal → ℕ → ℕ → Store → Store × Reply
register a p id now s =
    perform
      (authorize_tool p (contributed write true) (some a.project_id)
        >> enroll a p.user_id id now (policy a.project_id s) s
            (fetch (is_instance a.project_id p.user_id a.client_instance_id) s.sessions))
      s
