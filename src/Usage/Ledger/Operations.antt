-- ===== src/Usage/Ledger/Operations.antt =====
-- `register` of isekai_memory/continuity/usage.py. An operation first makes its plan, which reads the
-- tables, and then carries it out.
use isekai_memory.Base.{
  ℕ, ◌+◌, Bool, true, false, ◌&&◌, ◌||◌, not, Option, none, some, List, [], ◌∷◌, ◌++◌, ltb, leb,
  ◌==◌, if◌then◌else◌, count, is_some,
}
use isekai_memory.Base.Table.{fetch, update}
use isekai_memory.Base.Classified.{Classification, highest}
use isekai_memory.Base.Outcome.{ToolError, Result, ok, raise, raise_if, ◌>>=◌, ◌>>◌}
use isekai_memory.Access.Tokens.{Principal, write, contributed, authorize_tool}
use isekai_memory.Continuity.Tables.{WorkUnit, Bundle}
use isekai_memory.Continuity.Work.{locate}
use isekai_memory.Continuity.Renewal.{Held, active}
use isekai_memory.Usage.Ledger.Rows.{
  partial, in_progress, Session, Received, Body, Event, Store, conflict, unavailable, gone,
  disabled, limited, policy, has_id, hours, minutes,
}

-- A reply: a registration or a received report, each with its replay flag, a receipt, or an error.
pub data Reply : Type 0 where
  registered : Session → ℕ → Bool → Reply
  received : Received → Bool → Reply
  filed : ℕ → Bool → Reply
  refuse : ToolError → Reply

pub data Plan : Type 0 where
  repeat_registration : Session → ℕ → Plan
  insert_session : Session → ℕ → Plan
  repeat_report : Received → Plan
  record_report : (Session → Session) → Session → Received → List Event → Plan

unfoldable pub perform : Result Plan → Store → Store × Reply
perform (raise e) s = (s, refuse e)
perform (ok (repeat_registration r v)) s = (s, registered r v true)
perform (ok (insert_session r v)) s =
    (record s { sessions = s.sessions ++ (r ∷ []) }, registered r v false)
perform (ok (repeat_report r)) s = (s, received r true)
perform (ok (record_report f r y es)) s = (
  record s {
    sessions = update (has_id r.id) f s.sessions;
    received = s.received ++ (y ∷ []);
    events = s.events ++ es;
  },
  received y false,
)

-- The lease of a work unit that a registration is bound to.
pub record Binding : Type 0 where
  pub work_unit_id : ℕ
  pub token : ℕ
  pub claim_generation : ℕ

-- The arguments of `register`; `token` and `fingerprint` are digests.
pub record Register : Type 0 where
  pub project_id : ℕ
  pub execution_attempt_id : ℕ
  pub meter_epoch : ℕ
  pub token : ℕ
  pub fingerprint : ℕ
  pub classification : Classification
  pub parent_session_id : Option ℕ
  pub work_binding : Option Binding

abbrev pub max_identities : ℕ
max_identities = 200_000

abbrev pub max_live : ℕ
max_live = 10_000

abbrev pub max_register_minute : ℕ
max_register_minute = 10

abbrev pub is_attempt : ℕ → ℕ → ℕ → Session → Bool
is_attempt project actor attempt r =
    r.project_id == project && r.actor_id == actor && r.execution_attempt_id == attempt

abbrev pub in_project : ℕ → Session → Bool
in_project project r = r.project_id == project

abbrev pub is_live : ℕ → Session → Bool
is_live project r = r.project_id == project && not (is_some r.retired_at)

abbrev pub is_recent_of : ℕ → ℕ → ℕ → Session → Bool
is_recent_of project actor now r =
    r.project_id == project && (r.actor_id == actor && ltb now (r.created_at + minutes 1))

-- The counts of `limits` in `register`.
abbrev pub is_full : ℕ → ℕ → ℕ → List Session → Bool
is_full project actor now t =
    leb max_identities (count (in_project project) t)
    || leb max_live (count (is_live project) t)
    || leb max_register_minute (count (is_recent_of project actor now) t)

abbrev parent_found : Classification → Option Session → Result Classification
parent_found c none = raise unavailable
parent_found c (some parent) = ok (highest c parent.classification)

-- The classification with the parent's, if there is one.
abbrev pub with_parent : Register → ℕ → Store → Result Classification
with_parent a actor s = elim a.parent_session_id [
  | none ↦ ok a.classification
  | some parent ↦ parent_found a.classification (
      fetch
        (λ (r : Session).
          r.id == parent
          && r.project_id == a.project_id
          && r.actor_id == actor
          && not (is_some r.retired_at))
        s.sessions)
]

abbrev held_by : ℕ → Binding → Held
held_by project b = record {
  project_id = project;
  unit_id = b.work_unit_id;
  token = b.token;
  claim_generation = b.claim_generation;
}

abbrev bound_class :
    ℕ → Binding → ℕ → ℕ → Classification → WorkUnit × Bundle → Result Classification
bound_class project b actor now c (u, bundle) =
    if active (held_by project b) actor now u
    then ok (highest c bundle.classification)
    else raise conflict

-- The classification with that of the bound work; `opened` is the clock when its bundle is read.
abbrev pub with_binding :
    ℕ → Option Binding → ℕ → ℕ → ℕ → Store → Classification → Result Classification
with_binding project none actor opened now s c = ok c
with_binding project (some b) actor opened now s c =
    locate project b.work_unit_id actor opened s.work >>= bound_class project b actor now c

-- The inserted row, with the defaults of its columns.
abbrev pub new_session : Register → ℕ → ℕ → ℕ → ℕ → Classification → Session
new_session a actor id now late c = record {
  id = id;
  project_id = a.project_id;
  actor_id = actor;
  execution_attempt_id = a.execution_attempt_id;
  meter_epoch = a.meter_epoch;
  session_token_digest = a.token;
  register_digest = a.fingerprint;
  classification = c;
  parent_session_id = a.parent_session_id;
  work_unit_id = elim a.work_binding [ none ↦ none | some b ↦ some b.work_unit_id ];
  claim_generation = elim a.work_binding [ none ↦ none | some b ↦ some b.claim_generation ];
  created_at = now;
  accepts_until = now + hours late;
  sequence = 0;
  metrics = none;
  coverage = partial;
  completion_state = in_progress;
  first_received_at = none;
  last_received_at = none;
  bucket_at = none;
  bucket_basis = none;
  source_occurred_at = none;
  finalized_at = none;
  retired_at = none;
}

unfoldable pub enroll : Register → ℕ → ℕ → ℕ → ℕ → ℕ × Body → Store → Option Session → Result Plan
enroll a actor id opened now (version, body) s (some r) =
    if not (r.register_digest == a.fingerprint)
    then raise conflict
    else if is_some r.retired_at
    then raise gone
    else ok (repeat_registration r version)
enroll a actor id opened now (version, body) s none = do
  raise_if (not body.enabled) disabled
  raise_if (is_full a.project_id actor now s.sessions) limited
  parent ← with_parent a actor s
  c ← with_binding a.project_id a.work_binding actor opened now s parent
  ok (insert_session (new_session a actor id now body.late_report_hours c) version)

-- `register`; `id` is the identifier that the INSERT draws.
unfoldable pub register : Register → Principal → ℕ → ℕ → ℕ → Store → Store × Reply
register a p id opened now s =
    perform
      (authorize_tool p (contributed write true) (some a.project_id)
        >> enroll a p.user_id id opened now (policy a.project_id s) s
            (fetch (is_attempt a.project_id p.user_id a.execution_attempt_id) s.sessions))
      s
