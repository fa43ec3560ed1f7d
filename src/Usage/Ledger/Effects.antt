-- ===== src/Usage/Ledger/Effects.antt =====
-- The effect of each operation of isekai_memory/continuity/usage.py.
use isekai_memory.Base.{
  ℕ, ◌≡◌, inl, inr, refl, Bool, true, false, not, Option, none, some, List, leb, ◌==◌, arith, any,
  is_some, Bool-cases, Option-cases,
}
use isekai_memory.Base.Table.{fetch}
use isekai_memory.Base.Sorted.{All-select, All-order_by, All-limit_to}
use isekai_memory.Base.Among.{Among, any-Among, All-intro, All-Among}
use isekai_memory.Base.Outcome.{Result, ok, raise, raise_if}
use isekai_memory.Continuity.Filed.{Request, replay, usage_policy_set, usage_prune}
use isekai_memory.Access.Tokens.{Principal, write, admin, contributed, authorize_tool}
use isekai_memory.Usage.Metrics.{Metrics}
use isekai_memory.Usage.Ledger.Rows.{Session, Received, Store, disabled, has_id, policy}
use isekai_memory.Usage.Ledger.Operations.{
  Reply, perform, Register, register, enroll, is_attempt, is_full, with_parent, with_binding,
}
use isekai_memory.Usage.Ledger.Reports.{
  Report, report, report_plan, take_report, current_metrics, owned, is_receipt_of, check_report,
  is_crowded, attribute, report_row, received_row,
}
use isekai_memory.Usage.Ledger.Administration.{
  PolicySet, set_policy, policy_set, authorized, is_expired, candidates, is_candidate, retire_row,
  retire_expired, prune,
}
use isekai_memory.Usage.Ledger.Changes.{
  IsKeyed, Effect, keeps, inserts, rewrites, reports, bind-perform, owned_row, report-Accrues,
  retire-Accrues,
}

abbrev Leaves : Store → Store × Reply → Type 0
Leaves s result = Effect s result.0

pub register-Effect :
    (a : Register) (p : Principal) (id opened now : ℕ) (s : Store)
    → any (has_id id) s.sessions ≡ false
    → Effect s (register a p id opened now s).0
unfolding register enroll perform
register-Effect a p id opened now s unused =
    let v = policy a.project_id s in
    bind-perform (Leaves s) s (authorize_tool p (contributed write true) (some a.project_id)) _
      (λ e. keeps refl refl)
      λ _ _.
        elim (Option-cases
          (fetch (is_attempt a.project_id p.user_id a.execution_attempt_id) s.sessions)) [
            | inr (r, f) ↦ rw f (elim (Bool-cases (r.register_digest == a.fingerprint)) [
              | inr n ↦ rw n (keeps refl refl)
              | inl y ↦ elim (Bool-cases (is_some r.retired_at)) [
                | inl k ↦ rw (y, k) (keeps refl refl)
                | inr k ↦ rw (y, k) (keeps refl refl)
              ]
            ])
            | inl f ↦ rw f (
                bind-perform (Leaves s) s (raise_if (not v.1.enabled) disabled) _
                  (λ e. keeps refl refl)
                  λ _ _. elim (Bool-cases (is_full a.project_id p.user_id now s.sessions)) [
                    | inl l ↦ rw l (keeps refl refl)
                    | inr l ↦ rw l (
                        bind-perform (Leaves s) s (with_parent a p.user_id s) _
                          (λ e. keeps refl refl)
                          λ c _.
                            bind-perform (Leaves s) s
                              (with_binding a.project_id a.work_binding p.user_id opened now s c) _
                              (λ e. keeps refl refl)
                              λ d _.
                                inserts a p.user_id id now v.1.late_report_hours d refl refl unused
                                  l)
                  ])
          ]

module _ (a : Report) (actor now : ℕ) (s : Store) (keyed : IsKeyed s.sessions) where
  take-Effect :
      (m : Metrics) (r : Session) (o : Option Received)
      → owned a actor s ≡ ok r
      → Effect s (perform (take_report a actor now s m r o) s).0
  unfolding take_report perform
  take-Effect m r (some y) e = elim (Bool-cases (y.request_digest == a.fingerprint)) [
    | inl k ↦ rw k (keeps refl refl)
    | inr k ↦ rw k (keeps refl refl)
  ]
  take-Effect m r none e = elim (Bool-cases (leb a.sequence r.sequence)) [
    | inl k ↦ rw k (keeps refl refl)
    | inr k ↦ rw k (
        bind-perform (Leaves s) s (check_report a now (policy a.project_id s).1 m r) _
          (λ x. keeps refl refl)
          λ _ checks. elim (Bool-cases (is_crowded a.project_id r.id actor now s)) [
            | inl l ↦ rw l (keeps refl refl)
            | inr l ↦ rw l (
                bind-perform (Leaves s) s
                  (attribute a now (policy a.project_id s).1.late_report_hours r r.finalized_at) _
                  (λ x. keeps refl refl)
                  λ t when.
                    let (n, live, _) = owned_row a actor s r e in
                    let next =
                      report-Accrues a now (policy a.project_id s).1.late_report_hours
                        (policy a.project_id s).1 m t r live (ground arith) checks when in
                    reports (has_id r.id) (report_row a now m t) r (received_row a now t r) actor
                      now refl refl
                      (λ x i same. let h : x.id ≡ r.id = ground arith in rw (keyed x r i n h) next)
                      l refl n)
          ])
  ]

pub report-Effect :
    (a : Report) (p : Principal) (now : ℕ) (s : Store)
    → IsKeyed s.sessions
    → Effect s (report a p now s).0
unfolding report report_plan
report-Effect a p now s keyed =
    bind-perform (Leaves s) s (authorize_tool p (contributed write true) (some a.project_id)) _
      (λ e. keeps refl refl)
      λ _ _.
        bind-perform (Leaves s) s (current_metrics a.coverage a.metrics) _ (λ e. keeps refl refl)
          λ m _.
            bind-perform (Leaves s) s (owned a p.user_id s) _ (λ e. keeps refl refl)
              λ r o.
                take-Effect a p.user_id now s keyed m r (fetch (is_receipt_of a r) s.received) o

-- The candidates of a prune are live sessions of the table.
candidate_row :
    (project days now limit : ℕ) (t : List Session) (x : Session)
    → IsKeyed t
    → Among x t
    → is_candidate (candidates project days now limit t) x ≡ true
    → x.retired_at ≡ none
unfolding candidates
candidate_row project days now limit t x keyed m h =
    let P = λ (y : Session). Among y t × (is_expired project days now y ≡ true) in
    let chosen = All-limit_to P limit _ (
      All-order_by P _ _ (
        All-select (λ y. Among y t) (is_expired project days now) t
          (All-intro (λ y. Among y t) t (λ y n. n)))) in
    let (y, n, same) = any-Among _ _ h in
    let (k, expired) = All-Among P _ y chosen n in
    let e : x ≡ y = keyed x y m k (ground arith) in
    let live : y.retired_at ≡ none = ground arith in rw e live

authorized-Effect :
    (s : Store) (m : Result (Unit {0})) (result : Store × Reply)
    → Effect s result.0
    → Effect s (authorized m s result).0
authorized-Effect s (raise e) result h = keeps refl refl
authorized-Effect s (ok _) result h = h

retire-Effect :
    (a : Request) (limit actor now : ℕ) (s : Store) (m : Result (Option ℕ))
    → IsKeyed s.sessions
    → Effect s (retire_expired a limit actor now s m).0
unfolding retire_expired
retire-Effect a limit actor now s (raise e) keyed = keeps refl refl
retire-Effect a limit actor now s (ok (some r)) keyed = keeps refl refl
retire-Effect a limit actor now s (ok none) keyed =
    let days = (policy a.project_id s).1.retention_days in
    rewrites (is_candidate (candidates a.project_id days now limit s.sessions)) (retire_row now)
      refl refl
      λ x m h.
        retire-Accrues now x (candidate_row a.project_id days now limit s.sessions x keyed m h)

pub prune-Effect :
    (a : Request) (limit : Option ℕ) (p : Principal) (now : ℕ) (s : Store)
    → IsKeyed s.sessions
    → Effect s (prune a limit p now s).0
unfolding prune
prune-Effect a limit p now s keyed =
    authorized-Effect s (authorize_tool p (contributed admin true) (some a.project_id)) _
      (retire-Effect a _ p.user_id now s (replay a usage_prune p.user_id s.receipts) keyed)

set-Effect :
    (a : PolicySet) (actor : ℕ) (s : Store) (m : Result (Option ℕ))
    → Effect s (set_policy a actor s m).0
unfolding set_policy
set-Effect a actor s (raise e) = keeps refl refl
set-Effect a actor s (ok (some v)) = keeps refl refl
set-Effect a actor s (ok none) =
    elim (Bool-cases ((policy a.request.project_id s).0 == a.expected_version)) [
      | inl y ↦ rw y (keeps refl refl)
      | inr n ↦ rw n (keeps refl refl)
    ]

pub policy_set-Effect :
    (is_timezone : ℕ → Bool) (a : PolicySet) (p : Principal) (s : Store)
    → Effect s (policy_set is_timezone a p s).0
unfolding policy_set
policy_set-Effect is_timezone a p s =
    authorized-Effect s (authorize_tool p (contributed admin true) (some a.request.project_id)) _
      (elim (Bool-cases (is_timezone a.body.timezone)) [
        | inr n ↦ rw n (keeps refl refl)
        | inl y ↦
            rw y (set-Effect a p.user_id s (replay a.request usage_policy_set p.user_id s.receipts))
      ])
