-- ===== src/Presence/Sessions/Tests.antt =====
-- Runs of isekai_memory/continuity/presence.py on small tables.
use isekai_memory.Base.{◌≡◌, ◌≢◌, refl, ◌∙◌, sym, inl, inr, true, false, none, [], ◌∷◌, arith}
use isekai_memory.Base.Int.{pos, integer}
use isekai_memory.Base.Among.{Among}
use isekai_memory.Access.Tokens.{Principal, authorize_tool, authorize_scope}
use isekai_memory.Continuity.Filed.{replay}
use isekai_memory.Presence.Times.{
  running, idle, aware, missing, StateTimes, next_times, presence_policy,
}
use isekai_memory.Presence.State.{worker}
use isekai_memory.Presence.Sessions.Rows.{
  Session, PolicyRow, Store, internal, confidential, policy, policy_values, conflict,
}
use isekai_memory.Presence.Sessions.Reports.{
  Report, is_valid_report, owned, is_changed, admit, classify, unit_class, checkpoint_class,
  maximum,
}
use isekai_memory.Presence.Sessions.Operations.{
  answer, refuse, crash, filed, perform, Register, register, enroll, new_session,
}
use isekai_memory.Presence.Sessions.Heartbeats.{
  report_row, heartbeat, heartbeat_plan, take_report, end_session, take_end,
}
use isekai_memory.Presence.Sessions.Administration.{prune, retire_expired, candidates}
use isekai_memory.Presence.Sessions.Changes.{IsKeyed, Continues}
use isekai_memory.Presence.Sessions.History.{
  Run, still, and_then, registers, reports, AreTimed, Run-Continues, Run-AreTimed,
}
use isekai_memory.Presence.Sessions.Promises.{is_new, heartbeat_once}
use isekai_memory.Presence.Sessions.Limits.{IsWithinLimits, Run-IsWithinLimits}
use isekai_memory.Presence.Sessions.Servable.{IsServable}
use isekai_memory.Presence.Sessions.Answers.{heartbeat_answers}

operations : Unit {0}
unfolding authorize_tool authorize_scope policy policy_values presence_policy next_times
    is_valid_report owned is_changed admit unit_class checkpoint_class maximum classify perform
    enroll register take_report heartbeat_plan heartbeat take_end end_session candidates replay
    retire_expired prune
operations = tt

abbrev observing : PolicyRow
observing = record {
  project_id = 7;
  version = 3;
  policy = record {
    enabled = true;
    heartbeat_seconds = integer (pos 15);
    stale_after_seconds = integer (pos 60);
    idle_after_seconds = integer (pos 300);
    retention_hours = 1;
  };
}

abbrev empty : Store
empty = record {
  policies = observing ∷ [];
  sessions = [];
  units = [];
  bundles = [];
  deliveries = [];
  checkpoints = [];
  receipts = [];
  events = [];
}

abbrev local : Principal
local = record { user_id = 5; project_id = none; scopes = []; is_local = true }

abbrev enrolment : Register
enrolment = record {
  project_id = 7;
  client_instance_id = 40;
  token = 90;
  fingerprint = 91;
  session_kind = worker;
  classification = internal;
  parent_session_id = none;
}

abbrev opened : Session
opened = new_session enrolment 5 1 100_000_000 internal

registered : (register enrolment local 1 100_000_000 empty).0.sessions ≡ opened ∷ []
unfolding operations
registered = refl

-- The first report: a running worker.
abbrev working : Report
working = record {
  speaker = record { project_id = 7; session_id = 1; token = 90; fingerprint = 92; sequence = 1 };
  state_sequence = 1;
  policy_version = 3;
  reported_state = running;
  observation_scope = worker;
  state_observation_available = true;
  active_work_count = 2;
  work_unit_id = none;
  checkpoint_id = none;
  classification = confidential;
}

abbrev at_register : Store
at_register = (register enrolment local 1 100_000_000 empty).0

abbrev at_report : Store
at_report = (heartbeat working local 110_000_000 at_register).0

abbrev started : StateTimes
started = record { state_since_at = aware 110_000_000; idle_since_at = missing }

abbrev reported : Session
reported = report_row working 110_000_000 confidential started opened

reported_running :
    (heartbeat working local 110_000_000 at_register).1
    ≡ answer (record { row = reported; policy_version = 3; replayed = false })
unfolding operations
reported_running = refl

-- A report of an old sequence with other content, and one of a busy observer that says it is idle.
reported_late :
    (heartbeat
      (record working { speaker = record working.speaker { fingerprint = 93 } })
      local
      120_000_000
      at_report).1
    ≡ refuse conflict
unfolding operations
reported_late = refl

pruned :
    (prune
      (record { project_id = 7; idempotency_key = 1; request_digest = 2 })
      none
      local
      3_711_000_000
      at_report).1
    ≡ filed 1 false
unfolding operations
pruned = refl

empty-IsKeyed : IsKeyed empty.sessions
empty-IsKeyed x y m n e = elim m [ ]

run : Run empty at_report
unfolding operations
run =
    and_then (and_then still (registers enrolment local 1 100_000_000 refl refl))
      (reports working local 110_000_000 refl)

opened-IsKeyed : IsKeyed (opened ∷ [])
opened-IsKeyed x y m n e = elim m [
  | inr k ↦ elim k [ ]
  | inl p ↦ elim n [ inr k ↦ elim k [ ] | inl q ↦ p ∙ sym q ]
]

Run-Continues_example : (y : Session) × Among y at_report.sessions × Continues opened y
unfolding operations
Run-Continues_example =
    Run-Continues at_register at_report opened opened-IsKeyed
      (and_then still (reports working local 110_000_000 refl)) (inl refl)

Run-AreTimed_example : AreTimed at_report.sessions
Run-AreTimed_example = Run-AreTimed empty at_report empty-IsKeyed (λ x m. elim m [ ]) run

Run-IsWithinLimits_example : IsWithinLimits at_report.sessions
Run-IsWithinLimits_example =
    Run-IsWithinLimits empty at_report empty-IsKeyed
      (record { live = λ p. omega arith; open_of_user = λ p a. omega arith }) run

heartbeat_once_example :
    ((heartbeat working local 130_000_000 at_report).0 ≡ at_report)
    × (is_new (heartbeat working local 130_000_000 at_report).1 ≡ false)
unfolding operations
heartbeat_once_example =
    heartbeat_once working local 110_000_000 130_000_000 at_register at_report
      (record { row = reported; policy_version = 3; replayed = false }) opened-IsKeyed refl still

servable : IsServable empty
unfolding operations
servable = record { policies = ((_, refl), tt); parents = λ x m. elim m [ ] }

heartbeat_answers_example :
    (heartbeat (record working { reported_state = idle }) local 120_000_000 at_report).1 ≢ crash
heartbeat_answers_example =
    heartbeat_answers empty at_report (record working { reported_state = idle }) local 120_000_000
      empty-IsKeyed servable run refl
