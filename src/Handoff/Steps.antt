-- ===== src/Handoff/Steps.antt =====
-- The operations that write handoffs as the steps of a transition system over the tables, in any
-- order and by any clients, and what holds of every run.
use mathlib.Core.Path.{subst}
use isekai_memory.Base.{
  ℕ, ◌≡◌, ◌≢◌, refl, sym, Bool, true, false, ◌⊎◌, inl, inr, Option, none, some, List, [], ◌∷◌, ◌++◌,
  arith, Bool-cases, any, ◌&&◌,
}
use isekai_memory.Base.Table.{fetch-append}
use isekai_memory.Base.Outcome.{Result, ok}
use isekai_memory.Handoff.Rows.{
  Handoff, Receipt, Store, Claim, acknowledged, is_acknowledged, is_nacked, has_id, is_active,
  is_disposition, is_receipt_of,
}
use isekai_memory.Handoff.Lease.{claim_handoff_lease, grant}
use isekai_memory.Handoff.Settle.{
  acknowledge_handoff, nack_handoff, acknowledge, nack, insert_receipt, receipt_of,
}
use isekai_memory.Handoff.Queue.{
  Submission, insert_handoff, new_handoff, is_attempt, list_pending_handoffs, expire_overdue,
  is_overdue, expire, claim_handoff, take_over, is_claimable,
}
use isekai_memory.Handoff.Renewal.{renew_lease, renew_lease-cases, extend}
use isekai_memory.Handoff.Promotion.{publish, publish-cases, promote, is_promotable}
use isekai_memory.Handoff.Evolution.{
  Advances-refl, ReceiptsStay, Evolves, Evolves-refl, Evolves-trans, update-RowsAdvance,
  update_row-RowsAdvance, find_handoff-fetch, fetch-own_id,
}
use isekai_memory.Handoff.Outcomes.{
  claim_handoff_lease-cases, acknowledge_handoff-cases, nack_handoff-cases, claim_handoff-cases,
}

unchanged : (s t : Store) → t ≡ s → Evolves s t
unchanged s t e = subst (λ u. Evolves s u) (sym e) (Evolves-refl s)

insert_receipt-ReceiptsStay :
    (c : Claim) (r : Receipt) (t : List Receipt) → ReceiptsStay t (insert_receipt c r t)
insert_receipt-ReceiptsStay c r t q x e =
    elim (Bool-cases
      (any (λ y. is_receipt_of c y && is_disposition r.operation (some y.operation)) t)) [
        | inl h ↦ rw h e
        | inr h ↦ rw h (fetch-append q t (r ∷ []) x e)
      ]

claim_handoff_lease-Evolves :
    (c : Claim) (l v d n : ℕ) (s : Store) → Evolves s (claim_handoff_lease c l v d n s).0
claim_handoff_lease-Evolves c l v d n s = elim (claim_handoff_lease-cases c l v d n s) [
  | inl (e, _) ↦ unchanged s _ e
  | inr (h, f, g, u, e) ↦ rw e (
    update_row-RowsAdvance c.handoff_id (grant c l n) s.handoffs h (λ r. refl)
        (find_handoff-fetch c.handoff_id c.project_id s.handoffs h f).0
        (record {
          same_id = refl;
          same_project = refl;
          same_payload = refl;
          same_document = refl;
          same_expiry = refl;
          generation = omega arith;
          terminal = inl g.unacknowledged;
        }),
    λ q r k. k,
  )
]

-- An active row is not acknowledged yet.
active_open : (now : ℕ) (h : Handoff) → is_active now h ≡ true → h.status ≢ acknowledged
active_open now h e = ground arith

acknowledge_handoff-Evolves :
    (c : Claim) (g d : ℕ) (s : Store) → Evolves s (acknowledge_handoff c g d s).0
acknowledge_handoff-Evolves c g d s = elim (acknowledge_handoff-cases c g d s) [
  | inl (e, _) ↦ unchanged s _ e
  | inr (h, f, m, k, e) ↦ rw e (
    update_row-RowsAdvance c.handoff_id acknowledge s.handoffs h (λ r. refl)
        (find_handoff-fetch c.handoff_id c.project_id s.handoffs h f).0
        (record {
          same_id = refl;
          same_project = refl;
          same_payload = refl;
          same_document = refl;
          same_expiry = refl;
          generation = omega arith;
          terminal = inl (active_open d h k);
        }),
    insert_receipt-ReceiptsStay c (receipt_of c g is_acknowledged none) s.receipts,
  )
]

nack_handoff-Evolves :
    (c : Claim) (g reason d : ℕ) (s : Store) → Evolves s (nack_handoff c g reason d s).0
nack_handoff-Evolves c g reason d s = elim (nack_handoff-cases c g d s reason) [
  | inl (e, _) ↦ unchanged s _ e
  | inr (h, f, m, k, e) ↦ rw e (
    update_row-RowsAdvance c.handoff_id (nack reason) s.handoffs h (λ r. refl)
        (find_handoff-fetch c.handoff_id c.project_id s.handoffs h f).0
        (record {
          same_id = refl;
          same_project = refl;
          same_payload = refl;
          same_document = refl;
          same_expiry = refl;
          generation = omega arith;
          terminal = inl (active_open d h k);
        }),
    insert_receipt-ReceiptsStay c (receipt_of c g is_nacked (some reason)) s.receipts,
  )
]

claimable_open :
    (now : ℕ) (p : Option ℕ) (h : Handoff) → is_claimable now p h ≡ true → h.status ≢ acknowledged
claimable_open now p h e = ground arith

claim_handoff-Evolves :
    (i actor : ℕ) (p : Option ℕ) (n : ℕ) (s : Store) → Evolves s (claim_handoff i actor p n s).0
claim_handoff-Evolves i actor p n s = elim (claim_handoff-cases i actor p n s) [
  | inl e ↦ unchanged s _ e
  | inr (h, f, k, e) ↦ rw e (
    update_row-RowsAdvance h.id (take_over actor n) s.handoffs h (λ r. refl)
        (fetch-own_id i s.handoffs h f)
        (record {
          same_id = refl;
          same_project = refl;
          same_payload = refl;
          same_document = refl;
          same_expiry = refl;
          generation = omega arith;
          terminal = inl (claimable_open n p h k);
        }),
    λ q r k. k,
  )
]

overdue_open : (p now : ℕ) (h : Handoff) → is_overdue p now h ≡ true → h.status ≢ acknowledged
overdue_open p now h e = ground arith

expire_overdue-Evolves : (p now : ℕ) (s : Store) → Evolves s (expire_overdue p now s)
unfolding expire_overdue
expire_overdue-Evolves p now s = (
  update-RowsAdvance (is_overdue p now) expire s.handoffs (λ r. refl)
      (λ j r e k. record {
        same_id = refl;
        same_project = refl;
        same_payload = refl;
        same_document = refl;
        same_expiry = refl;
        generation = omega arith;
        terminal = inl (overdue_open p now r k);
      }),
  λ q r k. k,
)

renew_lease-Evolves :
    (c : Claim) (g deadline m n : ℕ) (s : Store) → Evolves s (renew_lease c g deadline m n s).0
renew_lease-Evolves c g deadline m n s = elim (renew_lease-cases c g deadline m n s) [
  | inl e ↦ unchanged s _ e
  | inr (h, _, until, f, k, _, _, e) ↦ rw e (
    update_row-RowsAdvance c.handoff_id (extend until) s.handoffs h (λ r. refl)
        (find_handoff-fetch c.handoff_id c.project_id s.handoffs h f).0
        (record {
          same_id = refl;
          same_project = refl;
          same_payload = refl;
          same_document = refl;
          same_expiry = refl;
          generation = omega arith;
          terminal = inl (active_open n h (ground arith));
        }),
    λ q r k. k,
  )
]

promotable_open : (now : ℕ) (h : Handoff) → is_promotable now h ≡ true → h.status ≢ acknowledged
promotable_open now h e = ground arith

publish-Evolves :
    (p i : ℕ) (a b : Result (Unit {0})) (n : ℕ) (s t : Store)
    → publish p i a b n s ≡ ok t
    → Evolves s t
publish-Evolves p i a b n s t e =
    let (h, f, k, q) = publish-cases p i a b n s t e in
    rw q (
      update_row-RowsAdvance i promote s.handoffs h (λ r. refl)
          (find_handoff-fetch i p s.handoffs h f).0
          (record {
            same_id = refl;
            same_project = refl;
            same_payload = refl;
            same_document = refl;
            same_expiry = refl;
            generation = omega arith;
            terminal = inl (promotable_open n h k);
          }),
      λ q r k. k,
    )

module _ (is_eligible : ℕ → ℕ → Bool) where
  -- A call of an operation, with its clock readings.
  pub data Step (s t : Store) : Type 0 where
    pushes :
        (a : Submission) (r : Option Handoff)
        → insert_handoff is_eligible a s ≡ ok (t, r)
        → Step s t
    lists :
        (project : ℕ) (unit : Option ℕ) (limit : ℕ) (after_id exclude_actor : Option ℕ) (now : ℕ)
        → t ≡ (list_pending_handoffs project unit limit after_id exclude_actor now s).0
        → Step s t
    pulls :
        (handoff_id actor : ℕ) (project : Option ℕ) (now : ℕ)
        → t ≡ (claim_handoff handoff_id actor project now s).0
        → Step s t
    leases :
        (c : Claim) (lease_seconds accept_version db_now now : ℕ)
        → t ≡ (claim_handoff_lease c lease_seconds accept_version db_now now s).0
        → Step s t
    acknowledges :
        (c : Claim) (generation db_now : ℕ)
        → t ≡ (acknowledge_handoff c generation db_now s).0
        → Step s t
    rejects :
        (c : Claim) (generation reason db_now : ℕ)
        → t ≡ (nack_handoff c generation reason db_now s).0
        → Step s t
    renews :
        (c : Claim) (generation deadline max_seconds now : ℕ)
        → t ≡ (renew_lease c generation deadline max_seconds now s).0
        → Step s t
    publishes :
        (project source_id : ℕ) (admitted checked : Result (Unit {0})) (now : ℕ)
        → publish project source_id admitted checked now s ≡ ok t
        → Step s t

  pub data Run (s : Store) : Store → Type 0 where
    start : Run s s
    then_step : {t u : Store} → Run s t → Step t u → Run s u

  -- The two ends of `insert_handoff` that do not raise.
  pub insert_handoff-cases :
      (a : Submission) (s t : Store) (r : Option Handoff)
      → insert_handoff is_eligible a s ≡ ok (t, r)
      → (any (is_attempt a.project_id a.phase_attempt_id) s.handoffs ≡ true) × (t ≡ s) × (r ≡ none)
        ⊎ (any (is_attempt a.project_id a.phase_attempt_id) s.handoffs ≡ false)
          × (t ≡ record s { handoffs = s.handoffs ++ (new_handoff a ∷ []) })
          × (r ≡ some (new_handoff a))
  unfolding insert_handoff
  insert_handoff-cases a s t r e = ground arith

  insert_handoff-Evolves :
      (a : Submission) (s t : Store) (r : Option Handoff)
      → insert_handoff is_eligible a s ≡ ok (t, r)
      → Evolves s t
  insert_handoff-Evolves a s t r e = elim (insert_handoff-cases a s t r e) [
    | inl (d, same, n) ↦ unchanged s t same
    | inr (d, new, n) ↦ rw new (
      λ j x f. (x, fetch-append (has_id j) s.handoffs (new_handoff a ∷ []) x f, Advances-refl x),
      λ q x f. f,
    )
  ]

  Step-Evolves : (s t : Store) → Step s t → Evolves s t
  Step-Evolves s t (pushes a r e) = insert_handoff-Evolves a s t r e
  Step-Evolves s t (lists p u l a x n e) =
      subst (λ y. Evolves s y) (sym e)
        (unfold list_pending_handoffs in expire_overdue-Evolves p n s)
  Step-Evolves s t (pulls i a p n e) =
      subst (λ y. Evolves s y) (sym e) (claim_handoff-Evolves i a p n s)
  Step-Evolves s t (leases c l v d n e) =
      subst (λ y. Evolves s y) (sym e) (claim_handoff_lease-Evolves c l v d n s)
  Step-Evolves s t (acknowledges c g d e) =
      subst (λ y. Evolves s y) (sym e) (acknowledge_handoff-Evolves c g d s)
  Step-Evolves s t (rejects c g x d e) =
      subst (λ y. Evolves s y) (sym e) (nack_handoff-Evolves c g x d s)
  Step-Evolves s t (renews c g d m n e) =
      subst (λ y. Evolves s y) (sym e) (renew_lease-Evolves c g d m n s)
  Step-Evolves s t (publishes p i a b n e) = publish-Evolves p i a b n s t e

  -- In every run of the operations, every handoff stays in the table with its published payload,
  -- its claim generation never falls, an acknowledged handoff never changes again, and a receipt
  -- that was found stays found.
  pub Run-Evolves : (s t : Store) → Run s t → Evolves s t
  Run-Evolves s _ start = Evolves-refl s
  Run-Evolves s _ (then_step {t = t} {u = u} r st) =
      Evolves-trans s t u (Run-Evolves s t r) (Step-Evolves t u st)
