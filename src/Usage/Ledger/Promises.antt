-- ===== src/Usage/Ledger/Promises.antt =====
-- A report of isekai_memory/continuity/usage.py counts once.
use isekai_memory.Base.{
  ℕ, ◌≡◌, ◌⊎◌, inl, inr, refl, Bool, true, false, ◌&&◌, Option, none, some, leb, ◌==◌, arith,
  Bool-cases,
}
use isekai_memory.Base.Table.{fetch, fetch-insert}
use isekai_memory.Base.Outcome.{ToolError, ok, raise_if}
use isekai_memory.Access.Tokens.{Principal, write, contributed, authorize_tool}
use isekai_memory.Usage.Metrics.{Metrics}
use isekai_memory.Usage.Ledger.Rows.{Session, Received, Store, conflict, limited, policy}
use isekai_memory.Usage.Ledger.Operations.{Reply, received, refuse, perform}
use isekai_memory.Usage.Ledger.Reports.{
  Report, report, report_plan, take_report, current_metrics, owned, is_receipt_of, check_report,
  is_crowded, attribute, received_row,
}
use isekai_memory.Usage.Ledger.Changes.{IsKeyed, bind-perform, owned_row}
use isekai_memory.Usage.Ledger.Effects.{report-Effect}
use isekai_memory.Usage.Ledger.History.{Run, Run-fetch, Effect-IsKeyed}

-- The receipt of a report, in terms of its arguments.
abbrev is_receipt_for : ℕ → ℕ → Received → Bool
is_receipt_for session sequence y = y.session_id == session && y.sequence == sequence

abbrev HasReceipt : Report → Received → Store → Type 0
HasReceipt a y s =
    (fetch (is_receipt_for a.session_id a.sequence) s.received ≡ some y)
    × (y.request_digest ≡ a.fingerprint)

abbrev Settled : Report → Store × Reply → Type 0
Settled a result =
    (y : Received) (again : Bool) → result.1 ≡ received y again → HasReceipt a y result.0

-- Answered as before, or refused, with no change.
abbrev pub Replays : Store → Received → Store × Reply → Type 0
Replays s y result =
    (result.0 ≡ s) × ((result.1 ≡ received y true) ⊎ ((e : ToolError) × (result.1 ≡ refuse e)))

owned_id :
    (a : Report) (actor : ℕ) (s : Store) (r : Session)
    → owned a actor s ≡ ok r
    → r.id ≡ a.session_id
owned_id a actor s r e = let (_, _, mine) = owned_row a actor s r e in ground arith

same_receipt : (x y : Received) (a b : Bool) → received x a ≡ received y b → x ≡ y
same_receipt x y a b e = cc

module _ (a : Report) (actor now : ℕ) (s : Store) (m : Metrics) (r : Session) where
  take-Settled :
      (o : Option Received)
      → r.id ≡ a.session_id
      → fetch (is_receipt_of a r) s.received ≡ o
      → Settled a (perform (take_report a actor now s m r o) s)
  unfolding take_report perform
  take-Settled (some y) h f z again e = elim (Bool-cases (y.request_digest == a.fingerprint)) [
    | inr k ↦ cc (rw k at e)
    | inl k ↦
        let same : y ≡ z = same_receipt y z true again (rw k at e) in
        let d : y.request_digest ≡ a.fingerprint = ground arith in rw (k, ← same, ← h) (f, d)
  ]
  take-Settled none h f z again e =
      let Q = Settled a in
      bind-perform Q s (raise_if (leb a.sequence r.sequence) conflict) _ (λ x w b q. cc)
        (λ _ _.
          bind-perform Q s (check_report a now (policy a.project_id s).1 m r) _ (λ x w b q. cc)
            λ _ _.
              bind-perform Q s (raise_if (is_crowded a.project_id r.id actor now s) limited) _
                (λ x w b q. cc)
                λ _ _.
                  bind-perform Q s
                    (attribute a now (policy a.project_id s).1.late_report_hours r r.finalized_at) _
                    (λ x w b q. cc)
                    λ t _ w b q.
                      let same = same_receipt (received_row a now t r) w false b q in
                      let mine : is_receipt_for a.session_id a.sequence (received_row a now t r)
                          ≡ true =
                        ground arith in
                      let found =
                        fetch-insert (is_receipt_for a.session_id a.sequence) s.received
                          (received_row a now t r) in
                      let absent : fetch (is_receipt_for a.session_id a.sequence) s.received
                          ≡ none =
                        rw h at f in
                      rw (← same) (rw (absent, mine) at found, refl))
        z again e

report-Settled : (a : Report) (p : Principal) (now : ℕ) (s : Store) → Settled a (report a p now s)
unfolding report report_plan
report-Settled a p now s =
    let Q = Settled a in
    bind-perform Q s (authorize_tool p (contributed write true) (some a.project_id)) _
      (λ x w b q. cc)
      λ _ _.
        bind-perform Q s (current_metrics a.coverage a.metrics) _ (λ x w b q. cc)
          λ m _.
            bind-perform Q s (owned a p.user_id s) _ (λ x w b q. cc)
              λ r o.
                take-Settled a p.user_id now s m r (fetch (is_receipt_of a r) s.received)
                  (owned_id a p.user_id s r o) refl

-- After its receipt, a report replays.
receipt-Replays :
    (a : Report) (p : Principal) (now : ℕ) (s : Store) (y : Received)
    → HasReceipt a y s
    → Replays s y (report a p now s)
unfolding report report_plan take_report perform
receipt-Replays a p now s y (f, d) =
    let no_ : (e : ToolError) → Replays s y (s, refuse e) = λ e. (refl, inr (e, refl)) in
    bind-perform (Replays s y) s (authorize_tool p (contributed write true) (some a.project_id)) _
      no_
      λ _ _. bind-perform (Replays s y) s (current_metrics a.coverage a.metrics) _ no_ λ m _.
        bind-perform (Replays s y) s (owned a p.user_id s) _ no_ λ r o.
          let h = owned_id a p.user_id s r o in
          let found : fetch (is_receipt_of a r) s.received ≡ some y = rw h f in
          let same : (y.request_digest == a.fingerprint) ≡ true = ground arith in
          rw (found, same) (refl, inl refl)

-- A report counts once: where it was received, then after any run of the operations the same report is
-- answered with the same receipt, as a replay, or refused, and changes nothing, whatever the clock.
pub report_once :
    (a : Report) (p : Principal) (now later : ℕ) (s t : Store) (y : Received) (again : Bool)
    → IsKeyed s.sessions
    → (report a p now s).1 ≡ received y again
    → Run (report a p now s).0 t
    → Replays t y (report a p later t)
report_once a p now later s t y again keyed e run =
    let u = (report a p now s).0 in
    let k = Effect-IsKeyed s u keyed (report-Effect a p now s keyed) in
    let (f, d) = report-Settled a p now s y again e in
    receipt-Replays a p later t y
      (Run-fetch u t (is_receipt_for a.session_id a.sequence) y k run f, d)
