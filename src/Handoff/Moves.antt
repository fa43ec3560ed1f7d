-- ===== src/Handoff/Moves.antt =====
-- The moves of the abstract machine that a row makes, and the UPDATEs that make them.
use isekai_memory.Base.{
  ℕ, ◌+◌, ◌<◌, ◌≡◌, refl, ap, Bool, true, false, not, ◌⊎◌, inl, inr, Option, none, some, List,
  arith, Bool-cases, ◌==◌,
}
use isekai_memory.Base.Table.{fetch, update, fetch-update_where, fetch-update_absent}
use isekai_memory.Handoff.Rows.{
  Handoff, Claim, pending, claimed, has_id, has_status, holds, is_past, is_after, is_active,
  is_claim_of,
}
use isekai_memory.Handoff.Lease.{is_recoverable}
use isekai_memory.Handoff.Renewal.{is_renewable, extend}
use isekai_memory.Handoff.Promotion.{is_promotable, promote}
use isekai_memory.Handoff.Evolution.{same_row}
use isekai_memory.Handoff.Machine.{
  Moves, hold, recover, Lot, held, lot_of, lot_at, renew, promote as promote_offer, promote_ended,
}

-- At most one move.
abbrev pub Proceeds : Lot → Lot → Type 0
Proceeds a b = (b ≡ a) ⊎ Moves a b

abbrev held_next : Handoff → ℕ → Option ℕ → Option ℕ → Lot
held_next h user token until =
    lot_at (held (some user) token until) (h.claim_generation + 1) h.continuity_managed

is_claimed : (h : Handoff) → has_status claimed h ≡ true → h.status ≡ claimed
is_claimed h e = ground arith

pub is_pending : (h : Handoff) → has_status pending h ≡ true → h.status ≡ pending
is_pending h e = ground arith

pub unmanaged : (h : Handoff) → not h.continuity_managed ≡ true → h.continuity_managed ≡ false
unmanaged h e = ground arith

pub hold-Moves :
    (h : Handoff) (user : ℕ) (token until : Option ℕ)
    → h.status ≡ pending
    → h.continuity_managed ≡ false
    → Moves (lot_of (some h)) (held_next h user token until)
hold-Moves h user token until e m = rw (e, m) (hold user token until)

recover-Moves :
    (h : Handoff) (user token next now : ℕ) (o : Option ℕ)
    → h.status ≡ claimed
    → h.claim_lease_expires_at ≡ o
    → is_past o now ≡ true
    → h.continuity_managed ≡ false
    → Moves (lot_of (some h)) (held_next h user (some token) (some next))
recover-Moves h user token next now none e q k m = cc
recover-Moves h user token next now (some t) e q k m =
    rw (e, q, m) (recover user token next now (ground arith))

pub grant-Moves :
    (h : Handoff) (user token next now : ℕ)
    → is_recoverable now h ≡ true
    → h.continuity_managed ≡ false
    → Moves (lot_of (some h)) (held_next h user (some token) (some next))
grant-Moves h user token next now k m = elim (Bool-cases (has_status pending h)) [
  | inl e ↦ hold-Moves h user (some token) (some next) (is_pending h e) m
  | inr e ↦
      recover-Moves h user token next now h.claim_lease_expires_at (is_claimed h (ground arith))
        refl (ground arith) m
]

holds_eq : (o : Option ℕ) (v : ℕ) → holds o v ≡ true → o ≡ some v
holds_eq none v e = cc
holds_eq (some w) v e = ap some (ground arith)

abbrev pub running_lot : Claim → ℕ → Handoff → Lot
running_lot c until h =
    lot_at (held (some c.claimed_by) (some c.claim_token_digest) (some until)) h.claim_generation
      h.continuity_managed

-- The running lease of the claim that settles or renews.
pub running :
    (c : Claim) (g now : ℕ) (h : Handoff)
    → is_claim_of c g h ≡ true
    → is_active now h ≡ true
    → (until : ℕ) × (now < until) × (lot_of (some h) ≡ running_lot c until h)
running c g now h m k = lease h.claim_lease_expires_at refl (ground arith)
  where
    lease :
        (o : Option ℕ)
        → h.claim_lease_expires_at ≡ o
        → is_after o now ≡ true
        → (until : ℕ) × (now < until) × (lot_of (some h) ≡ running_lot c until h)
    lease none q a = cc
    lease (some t) q a = (
      t,
      ground arith,
      rw (
        is_claimed h (ground arith),
        q,
        holds_eq h.claimed_by c.claimed_by (ground arith),
        holds_eq h.claim_token_digest c.claim_token_digest (ground arith),
      ),
    )

pub extend-Moves :
    (c : Claim) (g now : ℕ) (h : Handoff) (current until : ℕ)
    → is_renewable c g now h ≡ true
    → h.claim_lease_expires_at ≡ some current
    → current < until
    → Moves (lot_of (some h)) (lot_of (some (extend until h)))
extend-Moves c g now h current until k l later =
    rw
      (
        is_claimed h (ground arith),
        l,
        holds_eq h.claimed_by c.claimed_by (ground arith),
        holds_eq h.claim_token_digest c.claim_token_digest (ground arith),
        unmanaged h (ground arith),
      )
      (renew until now (ground arith) later)

pub promote-Moves :
    (now : ℕ) (h : Handoff)
    → is_promotable now h ≡ true
    → Moves (lot_of (some h)) (lot_of (some (promote h)))
promote-Moves now h k = elim (Bool-cases (has_status pending h)) [
  | inl e ↦ rw (is_pending h e, unmanaged h (ground arith)) promote_offer
  | inr e ↦ ended h.claim_lease_expires_at (ground arith) refl (ground arith)
]
  where
    ended :
        (o : Option ℕ)
        → has_status claimed h ≡ true
        → h.claim_lease_expires_at ≡ o
        → is_past o now ≡ true
        → Moves (lot_of (some h)) (lot_of (some (promote h)))
    ended none c q a = cc
    ended (some t) c q a =
        rw (is_claimed h c, q, unmanaged h (ground arith)) (promote_ended now (ground arith))

-- An UPDATE makes at most one move of a row, if it makes one of each row that it writes.
pub update-Proceeds :
    (p : Handoff → Bool) (f : Handoff → Handoff) (t : List Handoff) (j : ℕ)
    → ((r : Handoff) → (f r).id ≡ r.id)
    → ((r : Handoff)
        → fetch (has_id j) t ≡ some r
        → p r ≡ true
        → Moves (lot_of (some r)) (lot_of (some (f r))))
    → Proceeds (lot_of (fetch (has_id j) t)) (lot_of (fetch (has_id j) (update p f t)))
update-Proceeds p f t j keep move = seen (fetch (has_id j) t) refl
  where
    same : (r : Handoff) → has_id j (f r) ≡ has_id j r
    same r = ap (λ (i : ℕ). i == j) (keep r)

    seen :
        (o : Option Handoff)
        → fetch (has_id j) t ≡ o
        → Proceeds (lot_of (fetch (has_id j) t)) (lot_of (fetch (has_id j) (update p f t)))
    seen none e = inl (rw (fetch-update_absent (has_id j) p f t same e, e))
    seen (some r) e = elim (Bool-cases (p r)) [
      | inl h ↦ inr (rw (rw h at (fetch-update_where (has_id j) p f t same r e), e) (move r e h))
      | inr h ↦ inl (rw (rw h at (fetch-update_where (has_id j) p f t same r e), e))
    ]

pub update_row-Proceeds :
    (i : ℕ) (f : Handoff → Handoff) (t : List Handoff) (h : Handoff) (j : ℕ)
    → ((r : Handoff) → (f r).id ≡ r.id)
    → fetch (has_id i) t ≡ some h
    → Moves (lot_of (some h)) (lot_of (some (f h)))
    → Proceeds (lot_of (fetch (has_id j) t)) (lot_of (fetch (has_id j) (update (has_id i) f t)))
update_row-Proceeds i f t h j keep e move =
    update-Proceeds (has_id i) f t j keep (λ r k m. rw (same_row i j t h r e k m) move)
