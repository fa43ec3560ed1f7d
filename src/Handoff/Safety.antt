-- ===== src/Handoff/Safety.antt =====
-- Leases are exclusive and fenced by their generation.
use isekai_memory.Base.{
  ℕ, ◌+◌, ◌*◌, ◌<◌, ◌≡◌, refl, sym, ◌∙◌, ap, Bool, true, false, inl, inr, Option, none, some, List,
  arith, any, some_eq, ◌&&◌,
}
use isekai_memory.Base.Table.{update, fetch-holds, fetch-update}
use isekai_memory.Handoff.Rows.{
  Handoff, Store, Claim, is_new, claimed, has_id, find_handoff, is_after, holds, has_status,
  is_receipt_of, is_claim_of,
}
use isekai_memory.Handoff.Lease.{
  claim_handoff_lease, claim_locked, claim_decision, carry_out, grant, least, second, refused,
}
use isekai_memory.Handoff.Settle.{acknowledge_handoff, nack_handoff}
use isekai_memory.Handoff.Evolution.{Advances, find_handoff-fetch}
use isekai_memory.Handoff.Outcomes.{
  IsGrantable, claim_handoff_lease-cases, acknowledge_handoff-cases, nack_handoff-cases,
}
use isekai_memory.Handoff.Steps.{Run, Run-Evolves}

decision_exclusive :
    (c : Claim) (v now : ℕ) (completed : Bool) (h : Handoff)
    → has_status claimed h ≡ true
    → is_after h.claim_lease_expires_at now ≡ true
    → (holds h.claimed_by c.claimed_by && holds h.claim_token_digest c.claim_token_digest) ≡ false
    → claim_decision c v now completed h ≡ refused
unfolding claim_decision
decision_exclusive c v now completed h a b d = ground arith

-- While a lease runs, a claim by any other user, or with any other token, gets nothing and
-- changes nothing, whatever lease, version and clock it brings.
pub claim_handoff_lease_exclusive :
    (c : Claim) (lease_seconds accept_version db_now now : ℕ) (s : Store) (h : Handoff)
    → find_handoff c.handoff_id c.project_id s.handoffs ≡ some h
    → has_status claimed h ≡ true
    → is_after h.claim_lease_expires_at db_now ≡ true
    → (holds h.claimed_by c.claimed_by && holds h.claim_token_digest c.claim_token_digest) ≡ false
    → claim_handoff_lease c lease_seconds accept_version db_now now s ≡ (s, none)
unfolding claim_handoff_lease claim_locked carry_out
claim_handoff_lease_exclusive c l v d n s h f a b e =
    rw (f, claim_locked, decision_exclusive c v d _ h a b e)

-- A found row is found by its id and project after an update that keeps both.
pub find_handoff-update :
    (i p : ℕ) (f : Handoff → Handoff) (t : List Handoff) (h : Handoff)
    → find_handoff i p t ≡ some h
    → (f h).id ≡ h.id
    → (f h).project_id ≡ h.project_id
    → find_handoff i p (update (has_id i) f t) ≡ some (f h)
find_handoff-update i p f t h e k m =
    let (x, y) = find_handoff-fetch i p t h e in
    let z = fetch-holds (has_id i) t h x in
    rw (fetch-update (has_id i) f t h x (ground arith)) (ground arith)

granted_parts :
    (s t : Store) (y x : Handoff)
    → ◌≡◌ {A = Store × Option (Handoff × Bool)} (s, some (y, false)) (t, some (x, false))
    → (s ≡ t) × (y ≡ x)
granted_parts s t y x e = (cc, cc)

-- What a new lease looks like in the tables.
pub record IsLease (c : Claim) (lease_seconds now : ℕ) (t : Store) (x : Handoff) : Type 0 where
  pub stored : find_handoff c.handoff_id c.project_id t.handoffs ≡ some x
  pub is_claimed : x.status ≡ claimed
  pub owner : x.claimed_by ≡ some c.claimed_by
  pub token : x.claim_token_digest ≡ some c.claim_token_digest
  pub deadline : x.claim_lease_expires_at ≡ some (least (now + lease_seconds * second) x.expires_at)

-- A claim that is granted stores exactly the row that it returns: a lease of this user and token,
-- of the next generation, that ends by the time asked for and by the expiry of the handoff.
pub claim_handoff_lease_grants :
    (c : Claim) (lease_seconds accept_version db_now now : ℕ) (s t : Store) (x : Handoff)
    → claim_handoff_lease c lease_seconds accept_version db_now now s ≡ (t, some (x, false))
    → IsLease c lease_seconds now t x
      × (h : Handoff) × (find_handoff c.handoff_id c.project_id s.handoffs ≡ some h)
      × (x.claim_generation ≡ h.claim_generation + 1)
      × IsGrantable c accept_version db_now h
      × (t.receipts ≡ s.receipts)
      × (any (is_receipt_of c) s.receipts ≡ false)
      × (x ≡ grant c lease_seconds now h)
claim_handoff_lease_grants c l v d n s t x e = elim (claim_handoff_lease-cases c l v d n s) [
  | inl (same, old) ↦ cc (ap (λ (r : Store × Option (Handoff × Bool)). is_new r.1) e, old)
  | inr (h, f, g, u, q) ↦
      let (a, b) = granted_parts _ t _ x (sym q ∙ e) in
      let stored =
        find_handoff-update c.handoff_id c.project_id (grant c l n) s.handoffs h f refl refl in
      (
        rw (← a, ← b)
            (record {
              stored = stored;
              is_claimed = refl;
              owner = refl;
              token = refl;
              deadline = refl;
            }),
        h,
        f,
        rw (← b),
        g,
        rw (← a),
        u,
        sym b,
      )
]

-- The row that a settlement locks is the one that was found, of the generation that it names.
not_settled :
    (c : Claim) (g : ℕ) (o : Option Handoff) (h k : Handoff)
    → o ≡ some h
    → o ≡ some k
    → is_claim_of c g k ≡ true
    → g < h.claim_generation
    → ⊥
not_settled c g o h k f e m lt =
    let same : h ≡ k = some_eq h k (sym f ∙ e) in
    let gen : h.claim_generation ≡ k.claim_generation =
      ap (λ (r : Handoff). r.claim_generation) same in
    ground arith

-- A settlement that names an older generation than the row's makes nothing new and changes
-- nothing.
module _ (c : Claim) (generation db_now : ℕ) (s : Store) (h : Handoff)
    (found : find_handoff c.handoff_id c.project_id s.handoffs ≡ some h)
    (older : generation < h.claim_generation) where
  acknowledge_stale :
      ((acknowledge_handoff c generation db_now s).0 ≡ s)
      × (is_new (acknowledge_handoff c generation db_now s).1 ≡ false)
  acknowledge_stale = elim (acknowledge_handoff-cases c generation db_now s) [
    | inl p ↦ p
    | inr (k, e, m, _, _) ↦ absurd (not_settled c generation _ h k found e m older)
  ]

  nack_stale :
      (reason : ℕ)
      → ((nack_handoff c generation reason db_now s).0 ≡ s)
        × (is_new (nack_handoff c generation reason db_now s).1 ≡ false)
  nack_stale reason = elim (nack_handoff-cases c generation db_now s reason) [
    | inl p ↦ p
    | inr (k, e, m, _, _) ↦ absurd (not_settled c generation _ h k found e m older)
  ]

-- In a run a found handoff is found again, advanced.
pub advanced_row :
    (is_eligible : ℕ → ℕ → Bool) (i p : ℕ) (s t : Store) (h : Handoff)
    → Run is_eligible s t
    → find_handoff i p s.handoffs ≡ some h
    → (h' : Handoff) × (find_handoff i p t.handoffs ≡ some h') × Advances h h'
advanced_row is_eligible i p s t h r f =
    let (e, q) = find_handoff-fetch i p s.handoffs h f in
    let (h', e', a) = (Run-Evolves is_eligible s t r).0 i h e in
    (h', rw e' (ground (arith, a.same_project)), a)

-- Fencing. Once another claim of a handoff has been granted after mine, in any run of the
-- operations, my settlement changes nothing and is not accepted as new, whatever the clock.
pub settlement_fenced :
    (is_eligible : ℕ → ℕ → Bool) (mine other : Claim) (l v d n l' v' d' n' : ℕ)
    (s0 s1 s2 s3 s4 : Store) (x y : Handoff) (reason now : ℕ)
    → claim_handoff_lease mine l v d n s0 ≡ (s1, some (x, false))
    → Run is_eligible s1 s2
    → claim_handoff_lease other l' v' d' n' s2 ≡ (s3, some (y, false))
    → other.handoff_id ≡ mine.handoff_id
    → other.project_id ≡ mine.project_id
    → Run is_eligible s3 s4
    → ((acknowledge_handoff mine x.claim_generation now s4).0 ≡ s4)
      × (is_new (acknowledge_handoff mine x.claim_generation now s4).1 ≡ false)
      × ((nack_handoff mine x.claim_generation reason now s4).0 ≡ s4)
      × (is_new (nack_handoff mine x.claim_generation reason now s4).1 ≡ false)
settlement_fenced el mine other l v d n l' v' d' n' s0 s1 s2 s3 s4 x y reason now a r b i p q =
    let i1 = mine.handoff_id in
    let p1 = mine.project_id in
    let (lease1, _, _, _, _, _, _, _) = claim_handoff_lease_grants mine l v d n s0 s1 x a in
    let (h2, f2, adv2) = advanced_row el i1 p1 s1 s2 x r lease1.stored in
    let (lease2, h, fh, next, _, _, _, _) =
      claim_handoff_lease_grants other l' v' d' n' s2 s3 y b in
    let (h4, f4, adv4) = advanced_row el i1 p1 s3 s4 y q (rw (i, p) at lease2.stored) in
    let same : h ≡ h2 = some_eq h h2 (sym (rw (i, p) at fh) ∙ f2) in
    let gen : h.claim_generation ≡ h2.claim_generation =
      ap (λ (k : Handoff). k.claim_generation) same in
    let older : x.claim_generation < h4.claim_generation =
      omega (arith, adv2.generation, adv4.generation) in
    let (a1, a2) = acknowledge_stale mine x.claim_generation now s4 h4 f4 older in
    let (b1, b2) = nack_stale mine x.claim_generation now s4 h4 f4 older reason in (a1, a2, b1, b2)
