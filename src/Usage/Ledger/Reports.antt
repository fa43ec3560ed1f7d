-- ===== src/Usage/Ledger/Reports.antt =====
-- `report` of isekai_memory/continuity/usage.py.
use isekai_memory.Base.{
  ℕ, ◌+◌, min, Bool, true, ◌&&◌, ◌||◌, not, Option, none, some, List, [], ◌∷◌, ltb, leb, ◌==◌,
  if◌then◌else◌, any, count, is_some,
}
use isekai_memory.Base.Table.{fetch}
use isekai_memory.Base.Outcome.{Result, ok, raise, raise_if, ◌>>=◌, ◌>>◌}
use isekai_memory.Access.Tokens.{Principal, write, contributed, authorize_tool}
use isekai_memory.Usage.Metrics.{Metrics}
use isekai_memory.Usage.Revision.{validate_revision}
use isekai_memory.Usage.Ledger.Rows.{
  Coverage, is_complete, Completion, is_final, Basis, provisional, Session, Received, Body,
  finalized_event, Event, Store, conflict, invalid, unavailable, gone, disabled, limited, policy,
  has_id, same_time, hours, minutes, source_time,
}
use isekai_memory.Usage.Ledger.Operations.{Reply, Plan, repeat_report, record_report, perform}

-- The arguments of `report`; the metrics are `none` where `Metrics.from_dict` raises.
pub record Report : Type 0 where
  pub project_id : ℕ
  pub session_id : ℕ
  pub token : ℕ
  pub fingerprint : ℕ
  pub sequence : ℕ
  pub metrics : Option Metrics
  pub coverage : Coverage
  pub completion_state : Completion
  pub source_occurred_at : Option ℕ

-- The first test of `report`, with the metrics that pass it.
unfoldable pub current_metrics : Coverage → Option Metrics → Result Metrics
current_metrics c none = raise invalid
current_metrics c (some m) =
    if is_complete c && not (is_some m.total_tokens.value) then raise invalid else ok m

-- `owned`
abbrev pub is_owned : Report → ℕ → Session → Bool
is_owned a actor r = r.id == a.session_id && r.project_id == a.project_id && r.actor_id == actor

abbrev pub check_owned : Report → Option Session → Result Session
check_owned a none = raise unavailable
check_owned a (some r) =
    if not (r.session_token_digest == a.token)
    then raise unavailable
    else if is_some r.retired_at
    then raise gone
    else ok r

unfoldable pub owned : Report → ℕ → Store → Result Session
owned a actor s = check_owned a (fetch (is_owned a actor) s.sessions)

abbrev pub max_receipts : ℕ
max_receipts = 200_000

abbrev pub max_revisions : ℕ
max_revisions = 512

abbrev pub max_report_minute : ℕ
max_report_minute = 120

-- The counts of `limits` in `report`, over the receipts joined with their sessions.
abbrev pub is_counted : ℕ → List Session → Received → Bool
is_counted project t y = y.project_id == project && any (has_id y.session_id) t

abbrev pub is_revision_of : ℕ → ℕ → List Session → Received → Bool
is_revision_of project session t y = is_counted project t y && y.session_id == session

abbrev pub is_recent_report : ℕ → ℕ → ℕ → List Session → Received → Bool
is_recent_report project actor now t y =
    y.project_id == project
    && any (λ (r : Session). r.id == y.session_id && r.actor_id == actor) t
    && ltb now (y.received_at + minutes 1)

abbrev pub is_crowded : ℕ → ℕ → ℕ → ℕ → Store → Bool
is_crowded project session actor now s =
    leb max_receipts (count (is_counted project s.sessions) s.received)
    || leb max_revisions (count (is_revision_of project session s.sessions) s.received)
    || leb max_report_minute (count (is_recent_report project actor now s.sessions) s.received)

-- `validate_revision` against the stored metrics does not raise.
abbrev pub revises : Option Metrics → Metrics → Bool
revises none m = true
revises (some old) m = validate_revision old m

-- The tests of `report` between the receipt and the limits.
unfoldable pub check_report : Report → ℕ → Body → Metrics → Session → Result (Unit {0})
check_report a now body m r = do
  raise_if (not body.enabled) disabled
  raise_if (ltb (min r.accepts_until (r.created_at + hours body.late_report_hours)) now) gone
  raise_if (not (revises r.metrics m)) conflict
  raise_if (is_final r.completion_state && not (is_final a.completion_state)) conflict
  raise_if (is_complete r.coverage && not (is_complete a.coverage)) conflict

-- When the reported usage counts: the bucket, its basis, and when it became final.
pub record Attribution : Type 0 where
  pub bucket_at : Option ℕ
  pub bucket_basis : Option Basis
  pub finalized_at : Option ℕ

abbrev first_seen : ℕ → Option ℕ → ℕ
first_seen now none = now
first_seen now (some t) = t

unfoldable pub attribute : Report → ℕ → ℕ → Session → Option ℕ → Result Attribution
attribute a now late r (some f) =
    if not (same_time a.source_occurred_at r.source_occurred_at)
    then raise conflict
    else ok
        (record { bucket_at = r.bucket_at; bucket_basis = r.bucket_basis; finalized_at = some f })
attribute a now late r none =
    if is_final a.completion_state
    then ok (record {
      bucket_at = some (source_time a.source_occurred_at now late).0;
      bucket_basis = some (source_time a.source_occurred_at now late).1;
      finalized_at = some now;
    })
    else ok (record {
      bucket_at = some (first_seen now r.first_received_at);
      bucket_basis = some provisional;
      finalized_at = none;
    })

-- The columns that the UPDATE sets.
abbrev pub report_row : Report → ℕ → Metrics → Attribution → Session → Session
report_row a now m t r = record r {
  sequence = a.sequence;
  metrics = some m;
  coverage = a.coverage;
  completion_state = a.completion_state;
  first_received_at = some (first_seen now r.first_received_at);
  last_received_at = some now;
  bucket_at = t.bucket_at;
  bucket_basis = t.bucket_basis;
  source_occurred_at = a.source_occurred_at;
  finalized_at = t.finalized_at;
}

abbrev pub received_row : Report → ℕ → Attribution → Session → Received
received_row a now t r = record {
  session_id = r.id;
  project_id = a.project_id;
  sequence = a.sequence;
  request_digest = a.fingerprint;
  received_at = now;
  bucket_at = t.bucket_at;
  completion_state = a.completion_state;
}

abbrev pub final_events : Report → ℕ → Session → List Event
final_events a actor r =
    if not (is_final r.completion_state) && is_final a.completion_state
    then record {
      project_id = a.project_id;
      actor_id = actor;
      action = finalized_event;
      target_id = r.id;
      detail = a.sequence;
    }
      ∷ []
    else []

abbrev pub is_receipt_of : Report → Session → Received → Bool
is_receipt_of a r y = y.session_id == r.id && y.sequence == a.sequence

-- After the lookup of the receipt.
unfoldable pub take_report :
    Report → ℕ → ℕ → Store → Metrics → Session → Option Received → Result Plan
take_report a actor now s m r (some y) =
    if not (y.request_digest == a.fingerprint) then raise conflict else ok (repeat_report y)
take_report a actor now s m r none = do
  raise_if (leb a.sequence r.sequence) conflict
  check_report a now (policy a.project_id s).1 m r
  raise_if (is_crowded a.project_id r.id actor now s) limited
  t ← attribute a now (policy a.project_id s).1.late_report_hours r r.finalized_at
  ok (record_report (report_row a now m t) r (received_row a now t r) (final_events a actor r))

unfoldable pub report_plan : Report → Principal → ℕ → Store → Result Plan
report_plan a p now s = do
  authorize_tool p (contributed write true) (some a.project_id)
  m ← current_metrics a.coverage a.metrics
  r ← owned a p.user_id s
  take_report a p.user_id now s m r (fetch (is_receipt_of a r) s.received)

unfoldable pub report : Report → Principal → ℕ → Store → Store × Reply
report a p now s = perform (report_plan a p now s) s
