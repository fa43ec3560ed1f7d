-- ===== src/Handoff/Progress.antt =====
-- What can be claimed, and what can no longer be.
use isekai_memory.Base.{
  ℕ, ◌+◌, ◌*◌, ◌≤◌, ◌≡◌, refl, sym, ◌∙◌, ap, Bool, true, false, inl, inr, Option, none, some, List,
  arith, Bool-cases, any, ◌&&◌,
}
use isekai_memory.Base.Table.{update, any-fetch, fetch-any, any_mono, any-last}
use isekai_memory.Handoff.Rows.{
  Handoff, Receipt, Store, Claim, is_new, is_nacked, Disposition, has_id, find_handoff, is_active,
  is_after, is_past, is_disposition, is_receipt_of, is_claim_of, is_open_to,
}
use isekai_memory.Handoff.Lease.{
  claim_handoff_lease, claim_locked, claim_decision, carry_out, grant, granted, least, second,
}
use isekai_memory.Handoff.Settle.{nack_handoff, nack, insert_receipt, receipt_of}
use isekai_memory.Handoff.Outcomes.{IsGrantable, claim_handoff_lease-cases, nack_handoff-cases}
use isekai_memory.Handoff.Steps.{Run, Run-Evolves}
use isekai_memory.Handoff.Safety.{find_handoff-update}

decision_grants :
    (c : Claim) (v now : ℕ) (h : Handoff)
    → IsGrantable c v now h
    → claim_decision c v now false h ≡ granted
unfolding claim_decision
decision_grants c v now h g = ground arith

-- A claim is granted whenever the handoff is found, unexpired, of an accepted version, not managed
-- by continuity, open to the user, pending or past its lease and not acknowledged, and the token
-- has never settled it.
pub claim_handoff_lease_available :
    (c : Claim) (lease_seconds accept_version db_now now : ℕ) (s : Store) (h : Handoff)
    → find_handoff c.handoff_id c.project_id s.handoffs ≡ some h
    → IsGrantable c accept_version db_now h
    → any (is_receipt_of c) s.receipts ≡ false
    → claim_handoff_lease c lease_seconds accept_version db_now now s ≡ (
      record s { handoffs = update (has_id c.handoff_id) (grant c lease_seconds now) s.handoffs },
      some (grant c lease_seconds now h, false),
    )
unfolding claim_handoff_lease claim_locked carry_out
claim_handoff_lease_available c l v d n s h f g u =
    rw (f, claim_locked, u, decision_grants c v d h g)

-- What a rejection leaves in the tables.
nacked_row :
    (c : Claim) (g reason d : ℕ) (s t : Store) (n : ℕ)
    → nack_handoff c g reason d s ≡ (t, some (n, false))
    → (h : Handoff) × (find_handoff c.handoff_id c.project_id s.handoffs ≡ some h)
      × (find_handoff c.handoff_id c.project_id t.handoffs ≡ some (nack reason h))
      × (is_claim_of c g h ≡ true)
      × (is_active d h ≡ true)
      × (t.receipts ≡ insert_receipt c (receipt_of c g is_nacked (some reason)) s.receipts)
nacked_row c g reason d s t n e = elim (nack_handoff-cases c g d s reason) [
  | inl (same, old) ↦ cc (ap (λ (r : Store × Option (ℕ × Bool)). is_new r.1) e, old)
  | inr (h, f, m, k, q) ↦ (
    h,
    f,
    rw (ap (λ (r : Store × Option (ℕ × Bool)). r.0.handoffs) (sym e ∙ q))
        (find_handoff-update c.handoff_id c.project_id (nack reason) s.handoffs h f refl refl),
    m,
    k,
    ap (λ (r : Store × Option (ℕ × Bool)). r.0.receipts) (sym e ∙ q),
  )
]

nacked-IsGrantable :
    (other : Claim) (v d d' reason : ℕ) (h : Handoff)
    → is_after h.expires_at d' ≡ true
    → h.continuity_managed ≡ false
    → h.handoff_version ≤ v
    → is_open_to h.recipient_user_id other.claimed_by ≡ true
    → IsGrantable other v d' (nack reason h)
nacked-IsGrantable other v d d' reason h a b c e = record {
  unexpired = a;
  unmanaged = b;
  accepted = c;
  addressed = e;
  recoverable = refl;
  unacknowledged = cc;
}

-- A rejected handoff that is unexpired, of an accepted version and not managed by continuity can be
-- claimed at once, in the next generation, by anybody to whom it is open and whose token has not
-- settled it.
pub nack_handoff_reopens :
    (c other : Claim) (generation reason d l v d' n' : ℕ) (s t : Store) (h : Handoff) (n : ℕ)
    → find_handoff c.handoff_id c.project_id s.handoffs ≡ some h
    → nack_handoff c generation reason d s ≡ (t, some (n, false))
    → other.handoff_id ≡ c.handoff_id
    → other.project_id ≡ c.project_id
    → is_after h.expires_at d' ≡ true
    → h.continuity_managed ≡ false
    → h.handoff_version ≤ v
    → is_open_to h.recipient_user_id other.claimed_by ≡ true
    → any (is_receipt_of other) t.receipts ≡ false
    → (claim_handoff_lease other l v d' n' t).1 ≡ some (grant other l n' (nack reason h), false)
nack_handoff_reopens c other g reason d l v d' n' s t h n f e i p x m y o u =
    let (h', f', f2, _, _, _) = nacked_row c g reason d s t n e in
    let same : h' ≡ h = cc (f, f') in
    rw (
      claim_handoff_lease_available other l v d' n' t (nack reason h) (rw (i, p, ← same) f2)
        (nacked-IsGrantable other v d d' reason h x m y o) u)

least_past : (a d : ℕ) (o : Option ℕ) → a ≤ d → is_past (some (least a o)) d ≡ true
least_past a d none h = ground arith
least_past a d (some b) h = ground arith

-- What a claim that was granted leaves in the tables.
granted_row :
    (c : Claim) (l v d n : ℕ) (s t : Store) (x : Handoff)
    → claim_handoff_lease c l v d n s ≡ (t, some (x, false))
    → (h : Handoff) × IsGrantable c v d h
      × (x ≡ grant c l n h)
      × (find_handoff c.handoff_id c.project_id t.handoffs ≡ some x)
granted_row c l v d n s t x e = elim (claim_handoff_lease-cases c l v d n s) [
  | inl (same, old) ↦ cc (ap (λ (r : Store × Option (Handoff × Bool)). is_new r.1) e, old)
  | inr (h, f, g, u, q) ↦
      let row : x ≡ grant c l n h = answered (sym e ∙ q) in
      (
        h,
        g,
        row,
        rw (ap (λ (r : Store × Option (Handoff × Bool)). r.0.handoffs) (sym e ∙ q), row)
            (find_handoff-update c.handoff_id c.project_id (grant c l n) s.handoffs h f refl refl),
      )
]
  where
    answered :
        {w z : Store} {y y' : Handoff}
        → ◌≡◌ {A = Store × Option (Handoff × Bool)} (w, some (y, false)) (z, some (y', false))
        → y ≡ y'
    answered q = cc

-- An abandoned lease does not block its handoff: where a claim was granted and nobody has touched the
-- tables since, anybody to whom it is open, who accepts its version and whose token has not settled
-- it, is granted a claim of it, in the next generation, from the end of the lease that was asked for
-- and until the handoff expires.
pub abandoned_lease_recovers :
    (c other : Claim) (l v d n l' v' d' n' : ℕ) (s t : Store) (x : Handoff)
    → claim_handoff_lease c l v d n s ≡ (t, some (x, false))
    → other.handoff_id ≡ c.handoff_id
    → other.project_id ≡ c.project_id
    → n + l * second ≤ d'
    → is_after x.expires_at d' ≡ true
    → x.handoff_version ≤ v'
    → is_open_to x.recipient_user_id other.claimed_by ≡ true
    → any (is_receipt_of other) t.receipts ≡ false
    → (claim_handoff_lease other l' v' d' n' t).1 ≡ some (grant other l' n' x, false)
abandoned_lease_recovers c other l v d n l' v' d' n' s t x e i p past live y o u =
    let (h, g, row, found) = granted_row c l v d n s t x e in
    let free : IsGrantable other v' d' x = record {
      unexpired = live;
      unmanaged = rw row g.unmanaged;
      accepted = y;
      addressed = o;
      recoverable = rw row (least_past (n + l * second) d' h.expires_at past);
      unacknowledged = rw row (λ q. cc);
    } in
    rw (claim_handoff_lease_available other l' v' d' n' t x (rw (i, p) found) free u)

token_receipt :
    (c : Claim) (g : ℕ) (op : Disposition) (reason : Option ℕ) (t : List Receipt)
    → any (is_receipt_of c) (insert_receipt c (receipt_of c g op reason) t) ≡ true
token_receipt c g op reason t =
    let p = λ (q : Receipt). is_receipt_of c q && is_disposition op (some q.operation) in
    elim (Bool-cases (any p t)) [
      | inl h ↦ rw h (any_mono p (is_receipt_of c) t (λ x k. ground arith) h)
      | inr h ↦ rw h (any-last (is_receipt_of c) t (receipt_of c g op reason) (ground arith))
    ]

-- A token that has settled a handoff is spent: after any run of the operations, a claim with it
-- gets no new lease and changes nothing, also where the handoff was rejected and is open again.
pub nacked_token_spent :
    (is_eligible : ℕ → ℕ → Bool) (c : Claim) (generation reason d l v d' n' : ℕ) (s t u : Store)
    (n : ℕ)
    → nack_handoff c generation reason d s ≡ (t, some (n, false))
    → Run is_eligible t u
    → ((claim_handoff_lease c l v d' n' u).0 ≡ u)
      × (is_new (claim_handoff_lease c l v d' n' u).1 ≡ false)
nacked_token_spent el c g reason d l v d' n' s t u n e r =
    let (_, _, _, _, _, q) = nacked_row c g reason d s t n e in
    let (x, f) =
      any-fetch (is_receipt_of c) t.receipts
        (rw q (token_receipt c g is_nacked (some reason) s.receipts)) in
    let used : any (is_receipt_of c) u.receipts ≡ true =
      fetch-any (is_receipt_of c) u.receipts x ((Run-Evolves el t u r).1 (is_receipt_of c) x f) in
    elim (claim_handoff_lease-cases c l v d' n' u) [
      | inl p ↦ p
      | inr (_, _, _, unused, _) ↦ cc (used, unused)
    ]
