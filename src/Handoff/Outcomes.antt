-- ===== src/Handoff/Outcomes.antt =====
-- The ways in which each operation can end: it leaves the tables alone, or it writes one row that
-- it had found fit.
use isekai_memory.Base.{
  ℕ, ◌≤◌, ◌≡◌, ◌≢◌, refl, Bool, true, false, ◌⊎◌, inl, inr, Option, none, some, arith, Bool-cases,
  if◌then◌else◌, any, ◌&&◌,
}
use isekai_memory.Base.Table.{fetch, update}
use isekai_memory.Handoff.Rows.{
  Handoff, Receipt, Store, Claim, pending, acknowledged, is_new, has_id, find_handoff, is_after,
  has_status, is_claim_of, is_active, is_receipt_of, is_acknowledged, is_nacked, is_open_to, holds,
  is_disposition,
}
use isekai_memory.Handoff.Lease.{
  claim_handoff_lease, claim_decision, carry_out, claim_locked, Decision, refused, replayed,
  granted, grant, is_recoverable,
}
use isekai_memory.Handoff.Settle.{
  acknowledge_handoff, acknowledge_with, acknowledge_locked, nack_handoff, nack_with, nack_locked,
  acknowledge, nack, insert_receipt, is_settled_by, receipt_of,
}
use isekai_memory.Handoff.Queue.{claim_handoff, pull, take_over, is_claimable}

-- What a granted decision has checked.
pub record IsGrantable (c : Claim) (accept_version db_now : ℕ) (h : Handoff) : Type 0 where
  pub unexpired : is_after h.expires_at db_now ≡ true
  pub unmanaged : h.continuity_managed ≡ false
  pub accepted : h.handoff_version ≤ accept_version
  pub addressed : is_open_to h.recipient_user_id c.claimed_by ≡ true
  pub recoverable : is_recoverable db_now h ≡ true
  pub unacknowledged : h.status ≢ acknowledged

pub claim_decision-granted :
    (c : Claim) (accept_version db_now : ℕ) (completed : Bool) (h : Handoff)
    → claim_decision c accept_version db_now completed h ≡ granted
    → IsGrantable c accept_version db_now h × (completed ≡ false)
unfolding claim_decision
claim_decision-granted c accept_version db_now completed h e = ground arith

-- Where the row is found and the decision is known, the operation does what the decision says.
module _ (c : Claim) (lease_seconds accept_version db_now now : ℕ) (s : Store) where
  carried_out-cases :
      (d : Decision) (h : Handoff)
      → ((carry_out d c lease_seconds now s h).0 ≡ s)
          × (is_new (carry_out d c lease_seconds now s h).1 ≡ false)
        ⊎ (d ≡ granted)
  unfolding carry_out
  carried_out-cases refused h = inl (refl, refl)
  carried_out-cases replayed h = inl (refl, refl)
  carried_out-cases granted h = inr refl

  abbrev pub Granted : Store × Option (Handoff × Bool) → Type 0
  Granted result =
      (h : Handoff) × (find_handoff c.handoff_id c.project_id s.handoffs ≡ some h)
      × IsGrantable c accept_version db_now h
      × (any (is_receipt_of c) s.receipts ≡ false)
      × (result ≡ (
        record s { handoffs = update (has_id c.handoff_id) (grant c lease_seconds now) s.handoffs },
        some (grant c lease_seconds now h, false),
      ))

  claim_locked-cases :
      (o : Option Handoff)
      → find_handoff c.handoff_id c.project_id s.handoffs ≡ o
      → let result = claim_locked c lease_seconds accept_version db_now now s o in
        (result.0 ≡ s) × (is_new result.1 ≡ false) ⊎ Granted result
  unfolding claim_locked
  claim_locked-cases none e = inl (refl, refl)
  claim_locked-cases (some h) e =
      let d = claim_decision c accept_version db_now (any (is_receipt_of c) s.receipts) h in
      elim (carried_out-cases d h) [
        | inl same ↦ inl same
        | inr g ↦
            let (k, u) = claim_decision-granted c accept_version db_now _ h g in
            inr (h, e, k, u, unfold carry_out in rw g)
      ]

  -- The two ends of `claim_handoff_lease`.
  pub claim_handoff_lease-cases :
      let result = claim_handoff_lease c lease_seconds accept_version db_now now s in
      (result.0 ≡ s) × (is_new result.1 ≡ false) ⊎ Granted result
  unfolding claim_handoff_lease
  claim_handoff_lease-cases =
      claim_locked-cases (find_handoff c.handoff_id c.project_id s.handoffs) refl

replay_old : (b : Bool) (g : ℕ) → is_new (if b then some (g, true) else none) ≡ false
replay_old true g = refl
replay_old false g = refl

-- The two ends of a settlement.
module _ (c : Claim) (generation db_now : ℕ) (s : Store) where
  abbrev pub Settled : (Handoff → Handoff) → Receipt → Store × Option (ℕ × Bool) → Type 0
  Settled f receipt result =
      (h : Handoff) × (find_handoff c.handoff_id c.project_id s.handoffs ≡ some h)
      × (is_claim_of c generation h ≡ true)
      × (is_active db_now h ≡ true)
      × (result ≡ (
        record {
          handoffs = update (has_id c.handoff_id) f s.handoffs;
          receipts = insert_receipt c receipt s.receipts;
        },
        some (generation, false),
      ))

  abbrev AckSettled : Store × Option (ℕ × Bool) → Type 0
  AckSettled = Settled acknowledge (receipt_of c generation is_acknowledged none)

  acknowledge_locked-cases :
      (o : Option Handoff)
      → find_handoff c.handoff_id c.project_id s.handoffs ≡ o
      → let result = acknowledge_locked c generation db_now s o in
        (result.0 ≡ s) × (is_new result.1 ≡ false) ⊎ AckSettled result
  unfolding acknowledge_locked
  acknowledge_locked-cases none e = inl (refl, refl)
  acknowledge_locked-cases (some h) e = elim (Bool-cases (is_claim_of c generation h)) [
    | inr m ↦ inl (rw m (refl, refl))
    | inl m ↦
        elim (Bool-cases
          (has_status acknowledged h && is_disposition is_acknowledged h.claim_disposition)) [
            | inl a ↦ inl (rw (m, a) (refl, refl))
            | inr a ↦ elim (Bool-cases (is_active db_now h)) [
              | inr k ↦ inl (rw (m, a, k) (refl, refl))
              | inl k ↦
                  let same : h.claim_generation ≡ generation = ground arith in
                  inr (h, e, m, k, rw (m, a, k, same))
            ]
          ]
  ]

  acknowledge_with-cases :
      (o : Option Receipt)
      → let result = acknowledge_with c generation db_now s o in
        (result.0 ≡ s) × (is_new result.1 ≡ false) ⊎ AckSettled result
  unfolding acknowledge_with
  acknowledge_with-cases (some r) = inl (refl, refl)
  acknowledge_with-cases none =
      acknowledge_locked-cases (find_handoff c.handoff_id c.project_id s.handoffs) refl

  pub acknowledge_handoff-cases :
      let result = acknowledge_handoff c generation db_now s in
      (result.0 ≡ s) × (is_new result.1 ≡ false) ⊎ AckSettled result
  unfolding acknowledge_handoff
  acknowledge_handoff-cases =
      acknowledge_with-cases (fetch (is_settled_by c generation is_acknowledged) s.receipts)

  module _ (reason : ℕ) where
    abbrev NackSettled : Store × Option (ℕ × Bool) → Type 0
    NackSettled = Settled (nack reason) (receipt_of c generation is_nacked (some reason))

    nack_locked-cases :
        (o : Option Handoff)
        → find_handoff c.handoff_id c.project_id s.handoffs ≡ o
        → let result = nack_locked c generation reason db_now s o in
          (result.0 ≡ s) × (is_new result.1 ≡ false) ⊎ NackSettled result
    unfolding nack_locked
    nack_locked-cases none e = inl (refl, refl)
    nack_locked-cases (some h) e = elim (Bool-cases (is_claim_of c generation h)) [
      | inr m ↦ inl (rw m (refl, refl))
      | inl m ↦
          elim (Bool-cases (has_status pending h && is_disposition is_nacked h.claim_disposition)) [
            | inl a ↦
                inl (
                  rw (m, a)
                    (refl, replay_old (holds h.claim_reason_code reason) h.claim_generation))
            | inr a ↦ elim (Bool-cases (is_active db_now h)) [
              | inr k ↦ inl (rw (m, a, k) (refl, refl))
              | inl k ↦
                  let same : h.claim_generation ≡ generation = ground arith in
                  inr (h, e, m, k, rw (m, a, k, same))
            ]
          ]
    ]

    nack_with-cases :
        (o : Option Receipt)
        → let result = nack_with c generation reason db_now s o in
          (result.0 ≡ s) × (is_new result.1 ≡ false) ⊎ NackSettled result
    unfolding nack_with
    nack_with-cases (some r) =
        inl (refl, replay_old (holds r.reason_code reason) r.claim_generation)
    nack_with-cases none =
        nack_locked-cases (find_handoff c.handoff_id c.project_id s.handoffs) refl

    pub nack_handoff-cases :
        let result = nack_handoff c generation reason db_now s in
        (result.0 ≡ s) × (is_new result.1 ≡ false) ⊎ NackSettled result
    unfolding nack_handoff
    nack_handoff-cases = nack_with-cases (fetch (is_settled_by c generation is_nacked) s.receipts)

-- The two ends of the one-shot `claim_handoff`.
module _ (handoff_id actor : ℕ) (project : Option ℕ) (now : ℕ) (s : Store) where
  pull-cases :
      (o : Option Handoff)
      → fetch (has_id handoff_id) s.handoffs ≡ o
      → let result = pull actor project now s o in
        (result.0 ≡ s)
        ⊎ ((h : Handoff) × (fetch (has_id handoff_id) s.handoffs ≡ some h)
            × (is_claimable now project h ≡ true)
            × (result ≡ (
              record s { handoffs = update (has_id h.id) (take_over actor now) s.handoffs },
              some (take_over actor now h),
            )))
  unfolding pull
  pull-cases none e = inl refl
  pull-cases (some h) e = elim (Bool-cases (is_claimable now project h)) [
    | inl k ↦ inr (h, e, k, rw k)
    | inr k ↦ inl (rw k)
  ]

  pub claim_handoff-cases :
      let result = claim_handoff handoff_id actor project now s in
      (result.0 ≡ s)
      ⊎ ((h : Handoff) × (fetch (has_id handoff_id) s.handoffs ≡ some h)
          × (is_claimable now project h ≡ true)
          × (result ≡ (
            record s { handoffs = update (has_id h.id) (take_over actor now) s.handoffs },
            some (take_over actor now h),
          )))
  unfolding claim_handoff
  claim_handoff-cases = pull-cases (fetch (has_id handoff_id) s.handoffs) refl
