-- ===== src/Usage/Ledger/Tests.antt =====
-- Runs of isekai_memory/continuity/usage.py on small tables.
use isekai_memory.Base.{
  ℕ, ◌+◌, ◌≤◌, ◌≡◌, ◌⊎◌, inl, inr, refl, ◌∙◌, sym, true, false, none, some, [], ◌∷◌, arith, is_some,
}
use isekai_memory.Base.Among.{Among}
use isekai_memory.Base.Classified.{internal, confidential}
use isekai_memory.Access.Tokens.{Principal, authorize_tool, authorize_scope}
use isekai_memory.Continuity.Work.{locate, located}
use isekai_memory.Continuity.Tables.{claimed, WorkUnit, Bundle}
use isekai_memory.Continuity.Tables
use isekai_memory.Usage.Counters.{
  Counter, reported, not_reported, unavailable_for, comparable, amount,
}
use isekai_memory.Usage.Metrics.{Metrics}
use isekai_memory.Usage.Revision.{validate_revision, is_revision}
use isekai_memory.Usage.Ledger.Rows.{
  Session, Received, PolicyRow, Store, complete, final, source_reported, policy, conflict,
  source_time,
}
use isekai_memory.Usage.Ledger.Operations.{
  Register, register, enroll, new_session, perform, registered, received, refuse,
}
use isekai_memory.Usage.Ledger.Reports.{
  Report, report, report_plan, take_report, report_row, received_row, current_metrics, owned,
  check_report, Attribution, attribute,
}
use isekai_memory.Usage.Ledger.Changes.{IsKeyed, Accrues}
use isekai_memory.Usage.Ledger.History.{
  Run, still, and_then, registers, reports_usage, Run-Accrues, stored_total_grows,
}
use isekai_memory.Usage.Ledger.Promises.{Replays, report_once}
use isekai_memory.Usage.Ledger.Limits.{IsBounded, Run-IsBounded}

operations : Unit {0}
unfolding authorize_tool authorize_scope policy source_time enroll register locate located
    current_metrics owned check_report attribute take_report report_plan report perform
    validate_revision is_revision comparable
operations = tt

abbrev collecting : PolicyRow
collecting = record {
  project_id = 1;
  version = 2;
  policy = record { enabled = true; retention_days = 30; late_report_hours = 1; timezone = 0 };
}

-- A unit that user 20 holds in generation 4, until 900 s.
abbrev held_unit : WorkUnit
held_unit = record {
  id = 3;
  project_id = 1;
  bundle_id = 2;
  assignee_user_ids = 20 ∷ [];
  state = claimed;
  claimed_by = some 20;
  claim_token_digest = some 77;
  claim_generation = 4;
  lease_expires_at = some 900_000_000;
}

abbrev parent : Bundle
parent = record {
  id = 2;
  project_id = 1;
  version = 1;
  classification = confidential;
  expires_at = 990_000_000;
  revoked_at = none;
}

abbrev work : Tables.Store
work = record {
  units = held_unit ∷ [];
  bundles = parent ∷ [];
  deliveries = record { bundle_id = 2; recipient_user_id = 20; revoked_at = none } ∷ [];
  claims = [];
  receipts = [];
  policies = [];
  events = [];
}

abbrev empty : Store
empty = record {
  policies = collecting ∷ [];
  sessions = [];
  received = [];
  work = work;
  receipts = [];
  events = [];
}

abbrev user : Principal
user = record { user_id = 20; project_id = none; scopes = []; is_local = true }

abbrev attempt : Register
attempt = record {
  project_id = 1;
  execution_attempt_id = 60;
  meter_epoch = 61;
  token = 62;
  fingerprint = 63;
  classification = internal;
  parent_session_id = none;
  work_binding = some (record { work_unit_id = 3; token = 77; claim_generation = 4 });
}

-- The session takes over the classification of the bundle that its work belongs to.
abbrev metered : Session
metered = new_session attempt 20 5 100_000_000 1 confidential

attempt_registered :
    (register attempt user 5 100_000_000 100_000_000 empty).1 ≡ registered metered 2 false
unfolding operations
attempt_registered = refl

abbrev tokens : ℕ → Counter
tokens n = record {
  value = some n;
  quality = reported;
  estimate_method = none;
  omission_reason = none;
}

abbrev measured : ℕ → Metrics
measured n = record {
  input_total_tokens = tokens n;
  output_total_tokens = tokens 5;
  total_tokens = tokens (n + 5);
  cache_read_input_tokens = unavailable_for not_reported;
  cache_write_input_tokens = unavailable_for not_reported;
  reasoning_output_tokens = unavailable_for not_reported;
}

abbrev first_report : Report
first_report = record {
  project_id = 1;
  session_id = 5;
  token = 62;
  fingerprint = 64;
  sequence = 1;
  metrics = some (measured 10);
  coverage = complete;
  completion_state = final;
  source_occurred_at = some 140_000_000;
}

abbrev at_register : Store
at_register = (register attempt user 5 100_000_000 100_000_000 empty).0

abbrev at_report : Store
at_report = (report first_report user 150_000_000 at_register).0

abbrev ended : Attribution
ended = record {
  bucket_at = some 140_000_000;
  bucket_basis = some source_reported;
  finalized_at = some 150_000_000;
}

abbrev filed_report : Received
filed_report = received_row first_report 150_000_000 ended metered

report_filed : (report first_report user 150_000_000 at_register).1 ≡ received filed_report false
unfolding operations
report_filed = refl

-- A later report may raise the total, but not lower it, and not move the final attribution.
abbrev second_report : ℕ → Report
second_report n = record first_report {
  fingerprint = 65;
  sequence = 2;
  metrics = some (measured n);
}

total_lowered : (report (second_report 9) user 160_000_000 at_report).1 ≡ refuse conflict
unfolding operations
total_lowered = refl

abbrev at_second : Store
at_second = (report (second_report 12) user 160_000_000 at_report).0

empty-IsKeyed : IsKeyed empty.sessions
empty-IsKeyed x y m n e = elim m [ ]

metered-IsKeyed : IsKeyed (metered ∷ [])
metered-IsKeyed x y m n e = elim m [
  | inr k ↦ elim k [ ]
  | inl p ↦ elim n [ inr k ↦ elim k [ ] | inl q ↦ p ∙ sym q ]
]

abbrev reported_session : Session
reported_session = report_row first_report 150_000_000 (measured 10) ended metered

reported_session-IsKeyed : IsKeyed (reported_session ∷ [])
reported_session-IsKeyed x y m n e = elim m [
  | inr k ↦ elim k [ ]
  | inl p ↦ elim n [ inr k ↦ elim k [ ] | inl q ↦ p ∙ sym q ]
]

run : Run empty at_report
unfolding operations
run =
    and_then (and_then still (registers attempt user 5 100_000_000 100_000_000 refl refl))
      (reports_usage first_report user 150_000_000 refl)

Run-Accrues_example : (y : Session) × Among y at_report.sessions × Accrues metered y
unfolding operations
Run-Accrues_example =
    Run-Accrues at_register at_report metered metered-IsKeyed
      (and_then still (reports_usage first_report user 150_000_000 refl)) (inl refl)

stored_total_grows_example :
    (y : Session) × Among y at_second.sessions
    × (y.id ≡ 5)
    × ((is_some y.retired_at ≡ true)
        ⊎ ((n : Metrics) × (y.metrics ≡ some n)
            × (n.total_tokens.quality ≡ reported)
            × (15 ≤ amount n.total_tokens)))
unfolding operations
stored_total_grows_example =
    stored_total_grows at_report at_second reported_session (measured 10) reported_session-IsKeyed
      (and_then still (reports_usage (second_report 12) user 160_000_000 refl)) (inl refl) refl refl

report_once_example :
    Replays at_report filed_report (report first_report user 400_000_000 at_report)
unfolding operations
report_once_example =
    report_once first_report user 150_000_000 400_000_000 at_register at_report filed_report false
      metered-IsKeyed refl still

Run-IsBounded_example : IsBounded at_report
Run-IsBounded_example =
    Run-IsBounded empty at_report empty-IsKeyed
      (record {
        has_session = λ y m. elim m [ ];
        total = λ p. omega arith;
        revisions = λ p i. omega arith;
      })
      run
