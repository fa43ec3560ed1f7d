-- ===== src/Handoff/Refinement.antt =====
-- The operations that write handoffs, of isekai_memory/store/queries.py,
-- isekai_memory/handoff/collaboration_store.py and isekai_memory/continuity/delivery.py, as moves of the
-- abstract machine.
use isekai_memory.Base.{
  ℕ, ◌+◌, ◌*◌, ◌≡◌, refl, Bool, inl, inr, Option, none, some, List, [], ◌∷◌, ◌++◌, arith,
  Bool-cases,
}
use isekai_memory.Base.Table.{fetch, fetch-append, fetch-insert}
use isekai_memory.Base.Outcome.{Result, ok}
use isekai_memory.Handoff.Rows.{Handoff, Store, Claim, has_id}
use isekai_memory.Handoff.Lease.{claim_handoff_lease, grant, least, second}
use isekai_memory.Handoff.Settle.{acknowledge_handoff, nack_handoff, acknowledge, nack}
use isekai_memory.Handoff.Queue.{
  Submission, insert_handoff, new_handoff, list_pending_handoffs, expire_overdue, is_overdue,
  expire, claim_handoff, take_over,
}
use isekai_memory.Handoff.Renewal.{renew_lease, renew_lease-cases, extend}
use isekai_memory.Handoff.Promotion.{publish, publish-cases, promote}
use isekai_memory.Handoff.Evolution.{find_handoff-fetch, fetch-own_id}
use isekai_memory.Handoff.Outcomes.{
  claim_handoff_lease-cases, acknowledge_handoff-cases, nack_handoff-cases, claim_handoff-cases,
}
use isekai_memory.Handoff.Machine.{publish as start_offer, settle, give_back, lapse, lot_of, lot}
use isekai_memory.Handoff.Steps.{
  Step, pushes, lists, pulls, leases, acknowledges, rejects, renews, publishes,
  insert_handoff-cases,
}
use isekai_memory.Handoff.Moves.{
  Proceeds, hold-Moves, grant-Moves, running, update-Proceeds, update_row-Proceeds, is_pending,
  unmanaged, extend-Moves, promote-Moves,
}

claim_handoff_lease-Proceeds :
    (c : Claim) (l v d n : ℕ) (s : Store) (j : ℕ)
    → Proceeds (lot j s) (lot j (claim_handoff_lease c l v d n s).0)
unfolding lot
claim_handoff_lease-Proceeds c l v d n s j = elim (claim_handoff_lease-cases c l v d n s) [
  | inl (e, _) ↦ inl (rw e)
  | inr (h, f, g, u, e) ↦ rw e (
      update_row-Proceeds c.handoff_id (grant c l n) s.handoffs h j (λ r. refl)
        (find_handoff-fetch c.handoff_id c.project_id s.handoffs h f).0
        (grant-Moves h c.claimed_by c.claim_token_digest (least (n + l * second) h.expires_at) d
          g.recoverable g.unmanaged))
]

acknowledge_handoff-Proceeds :
    (c : Claim) (g d : ℕ) (s : Store) (j : ℕ)
    → Proceeds (lot j s) (lot j (acknowledge_handoff c g d s).0)
unfolding lot
acknowledge_handoff-Proceeds c g d s j = elim (acknowledge_handoff-cases c g d s) [
  | inl (e, _) ↦ inl (rw e)
  | inr (h, f, m, k, e) ↦
      let (until, later, at) = running c g d h m k in
      rw e (
        update_row-Proceeds c.handoff_id acknowledge s.handoffs h j (λ r. refl)
          (find_handoff-fetch c.handoff_id c.project_id s.handoffs h f).0 (rw at (settle d later)))
]

nack_handoff-Proceeds :
    (c : Claim) (g reason d : ℕ) (s : Store) (j : ℕ)
    → Proceeds (lot j s) (lot j (nack_handoff c g reason d s).0)
unfolding lot
nack_handoff-Proceeds c g reason d s j = elim (nack_handoff-cases c g d s reason) [
  | inl (e, _) ↦ inl (rw e)
  | inr (h, f, m, k, e) ↦
      let (until, later, at) = running c g d h m k in
      rw e (
        update_row-Proceeds c.handoff_id (nack reason) s.handoffs h j (λ r. refl)
          (find_handoff-fetch c.handoff_id c.project_id s.handoffs h f).0
          (rw at (give_back d later)))
]

claim_handoff-Proceeds :
    (i actor : ℕ) (p : Option ℕ) (n : ℕ) (s : Store) (j : ℕ)
    → Proceeds (lot j s) (lot j (claim_handoff i actor p n s).0)
unfolding lot
claim_handoff-Proceeds i actor p n s j = elim (claim_handoff-cases i actor p n s) [
  | inl e ↦ inl (rw e)
  | inr (h, f, k, e) ↦ rw e (
      update_row-Proceeds h.id (take_over actor n) s.handoffs h j (λ r. refl)
        (fetch-own_id i s.handoffs h f)
        (hold-Moves h actor none none (is_pending h (ground arith)) (ground arith)))
]

renew_lease-Proceeds :
    (c : Claim) (g deadline m n : ℕ) (s : Store) (j : ℕ)
    → Proceeds (lot j s) (lot j (renew_lease c g deadline m n s).0)
unfolding lot
renew_lease-Proceeds c g deadline m n s j = elim (renew_lease-cases c g deadline m n s) [
  | inl e ↦ inl (rw e)
  | inr (h, current, until, f, k, l, later, e) ↦ rw e (
      update_row-Proceeds c.handoff_id (extend until) s.handoffs h j (λ r. refl)
        (find_handoff-fetch c.handoff_id c.project_id s.handoffs h f).0
        (extend-Moves c g n h current until k l later))
]

publish-Proceeds :
    (p i : ℕ) (a b : Result (Unit {0})) (n : ℕ) (s t : Store) (j : ℕ)
    → publish p i a b n s ≡ ok t
    → Proceeds (lot j s) (lot j t)
unfolding lot
publish-Proceeds p i a b n s t j e =
    let (h, f, k, q) = publish-cases p i a b n s t e in
    rw q (
      update_row-Proceeds i promote s.handoffs h j (λ r. refl)
        (find_handoff-fetch i p s.handoffs h f).0 (promote-Moves n h k))

list_pending_handoffs-Proceeds :
    (p : ℕ) (u : Option ℕ) (l : ℕ) (a x : Option ℕ) (n : ℕ) (s : Store) (j : ℕ)
    → Proceeds (lot j s) (lot j (list_pending_handoffs p u l a x n s).0)
unfolding lot list_pending_handoffs expire_overdue
list_pending_handoffs-Proceeds p u l a x n s j =
    update-Proceeds (is_overdue p n) expire s.handoffs j (λ r. refl)
      λ r e k. rw (is_pending r (ground arith), unmanaged r (ground arith)) lapse

-- A new row starts the machine of its identifier, unless that has a row.
published-Proceeds :
    (a : Submission) (t : List Handoff) (j : ℕ)
    → Proceeds (lot_of (fetch (has_id j) t)) (lot_of (fetch (has_id j) (t ++ (new_handoff a ∷ []))))
published-Proceeds a t j = seen (fetch (has_id j) t) refl
  where
    seen :
        (o : Option Handoff)
        → fetch (has_id j) t ≡ o
        → Proceeds
            (lot_of (fetch (has_id j) t))
            (lot_of (fetch (has_id j) (t ++ (new_handoff a ∷ []))))
    seen (some r) e = inl (rw (fetch-append (has_id j) t (new_handoff a ∷ []) r e, e))
    seen none e = elim (Bool-cases (has_id j (new_handoff a))) [
      | inl h ↦ inr (rw (rw (e, h) at (fetch-insert (has_id j) t (new_handoff a)), e) start_offer)
      | inr h ↦ inl (rw (rw (e, h) at (fetch-insert (has_id j) t (new_handoff a)), e))
    ]

module _ (is_eligible : ℕ → ℕ → Bool) where
  insert_handoff-Proceeds :
      (a : Submission) (s t : Store) (r : Option Handoff) (j : ℕ)
      → insert_handoff is_eligible a s ≡ ok (t, r)
      → Proceeds (lot j s) (lot j t)
  unfolding lot
  insert_handoff-Proceeds a s t r j e = elim (insert_handoff-cases is_eligible a s t r e) [
    | inl (d, same, n) ↦ inl (rw same)
    | inr (d, new, n) ↦ rw new (published-Proceeds a s.handoffs j)
  ]

  -- An operation makes at most one move of a handoff.
  pub Step-Proceeds : (s t : Store) (j : ℕ) → Step is_eligible s t → Proceeds (lot j s) (lot j t)
  Step-Proceeds s t j (pushes a r e) = insert_handoff-Proceeds a s t r j e
  Step-Proceeds s t j (lists p u l a x n e) = rw e (list_pending_handoffs-Proceeds p u l a x n s j)
  Step-Proceeds s t j (pulls i a p n e) = rw e (claim_handoff-Proceeds i a p n s j)
  Step-Proceeds s t j (leases c l v d n e) = rw e (claim_handoff_lease-Proceeds c l v d n s j)
  Step-Proceeds s t j (acknowledges c g d e) = rw e (acknowledge_handoff-Proceeds c g d s j)
  Step-Proceeds s t j (rejects c g x d e) = rw e (nack_handoff-Proceeds c g x d s j)
  Step-Proceeds s t j (renews c g d m n e) = rw e (renew_lease-Proceeds c g d m n s j)
  Step-Proceeds s t j (publishes p i a b n e) = publish-Proceeds p i a b n s t j e
