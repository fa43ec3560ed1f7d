-- ===== src/Handoff/Retry.antt =====
-- A client may repeat any call whose answer it has lost.
use isekai_memory.Base.{
  ℕ, ◌+◌, ◌*◌, ◌≤◌, ◌≡◌, refl, sym, ◌∙◌, ap, Bool, true, false, inl, inr, Option, none, some, arith,
  is_some,
}
use isekai_memory.Base.Table.{fetch, fetch-holds}
use isekai_memory.Handoff.Rows.{
  Handoff, Receipt, Store, Claim, is_new, claimed, is_acknowledged, find_handoff, is_after,
  is_claim_of, is_open_to,
}
use isekai_memory.Handoff.Lease.{
  claim_handoff_lease, claim_locked, claim_decision, carry_out, grant, least, second, replayed,
  get_claimed_handoff, if_claimed,
}
use isekai_memory.Handoff.Settle.{
  acknowledge_handoff, acknowledge_with, acknowledge_locked, acknowledge, is_settled_by,
}
use isekai_memory.Handoff.Evolution.{Advances}
use isekai_memory.Handoff.Outcomes.{IsGrantable, acknowledge_handoff-cases}
use isekai_memory.Handoff.Steps.{Run}
use isekai_memory.Handoff.Safety.{claim_handoff_lease_grants, find_handoff-update, advanced_row}

decision_replays :
    (c : Claim) (v now : ℕ) (completed : Bool) (x : Handoff)
    → is_after x.expires_at now ≡ true
    → x.continuity_managed ≡ false
    → x.handoff_version ≤ v
    → is_open_to x.recipient_user_id c.claimed_by ≡ true
    → x.status ≡ claimed
    → x.claimed_by ≡ some c.claimed_by
    → x.claim_token_digest ≡ some c.claim_token_digest
    → is_after x.claim_lease_expires_at now ≡ true
    → claim_decision c v now completed x ≡ replayed
unfolding claim_decision
decision_replays c v now completed x a b d e f g h i = ground arith

-- A lease cannot outlive its handoff.
least_bound :
    (a now : ℕ) (o : Option ℕ)
    → is_some o ≡ true
    → is_after (some (least a o)) now ≡ true
    → is_after o now ≡ true
least_bound a now none s h = cc
least_bound a now (some b) s h = ground arith

after_some : (o : Option ℕ) (now : ℕ) → is_after o now ≡ true → is_some o ≡ true
after_some none now h = cc
after_some (some t) now h = refl

-- The tests of the first claim pass again as long as the lease runs.
unexpired_lease :
    (c : Claim) (l v d n now : ℕ) (h x : Handoff)
    → IsGrantable c v d h
    → x.claim_lease_expires_at ≡ some (least (n + l * second) x.expires_at)
    → x ≡ grant c l n h
    → is_after x.claim_lease_expires_at now ≡ true
    → (is_after x.expires_at now ≡ true)
      × (x.continuity_managed ≡ false)
      × (x.handoff_version ≤ v)
      × (is_open_to x.recipient_user_id c.claimed_by ≡ true)
unexpired_lease c l v d n now h x g deadline same live =
    let expires : x.expires_at ≡ h.expires_at = ap (λ (r : Handoff). r.expires_at) same in
    let known : is_some x.expires_at ≡ true =
      ap (λ (o : Option ℕ). is_some o) expires ∙ after_some h.expires_at d g.unexpired in
    (
      least_bound (n + l * second) now x.expires_at known (rw deadline at live),
      ap (λ (r : Handoff). r.continuity_managed) same ∙ g.unmanaged,
      rw same g.accepted,
      ap (λ (r : Handoff). is_open_to r.recipient_user_id c.claimed_by) same ∙ g.addressed,
    )

claimed_row :
    (c : Claim) (now : ℕ) (x : Handoff)
    → is_after x.expires_at now ≡ true
    → x.continuity_managed ≡ false
    → is_open_to x.recipient_user_id c.claimed_by ≡ true
    → x.status ≡ claimed
    → x.claimed_by ≡ some c.claimed_by
    → x.claim_token_digest ≡ some c.claim_token_digest
    → is_after x.claim_lease_expires_at now ≡ true
    → if_claimed c now (some x) ≡ some x
unfolding if_claimed
claimed_row c now x a b d e f g h = ground arith

-- While its lease runs, a granted claim that is repeated returns the same row as a replay, with
-- any lease length, and changes nothing; `get_claimed_handoff` returns that row too.
pub claim_handoff_lease_replays :
    (c : Claim) (l v d n l' d' n' : ℕ) (s t : Store) (x : Handoff)
    → claim_handoff_lease c l v d n s ≡ (t, some (x, false))
    → is_after x.claim_lease_expires_at d' ≡ true
    → (claim_handoff_lease c l' v d' n' t ≡ (t, some (x, true)))
      × (get_claimed_handoff c d' t ≡ some x)
claim_handoff_lease_replays c l v d n l' d' n' s t x e live =
    let (lease, h, _, _, g, _, _, same) = claim_handoff_lease_grants c l v d n s t x e in
    let still = unexpired_lease c l v d n d' h x g lease.deadline same live in
    let (a1, a2, a3, a4) = still in
    (
      unfold claim_handoff_lease claim_locked carry_out in
          rw (
            lease.stored,
            claim_locked,
            decision_replays c v d' _ x a1 a2 a3 a4 lease.is_claimed lease.owner lease.token live,
          ),
      unfold get_claimed_handoff in
          rw (lease.stored)
            (claimed_row c d' x a1 a2 a4 lease.is_claimed lease.owner lease.token live),
    )

-- The tests of a settlement that has been made.
ack_receipt :
    (c : Claim) (g : ℕ) (r : Receipt)
    → is_settled_by c g is_acknowledged r ≡ true
    → r.claim_generation ≡ g
ack_receipt c g r h = ground arith

-- A settled row stays as it is.
terminal_row : (h h' : Handoff) → Advances (acknowledge h) h' → h' ≡ acknowledge h
terminal_row h h' a = elim a.terminal [ inl open_ ↦ absurd (open_ refl) | inr e ↦ e ]

acknowledged_row :
    (c : Claim) (g d : ℕ) (s t : Store) (n : ℕ)
    → acknowledge_handoff c g d s ≡ (t, some (n, false))
    → (h : Handoff) × (find_handoff c.handoff_id c.project_id t.handoffs ≡ some (acknowledge h))
      × (is_claim_of c g h ≡ true)
acknowledged_row c g d s t n e = elim (acknowledge_handoff-cases c g d s) [
  | inl (same, old) ↦ cc (ap (λ (r : Store × Option (ℕ × Bool)). is_new r.1) e, old)
  | inr (h, f, m, k, q) ↦ (
    h,
    rw (ap (λ (r : Store × Option (ℕ × Bool)). r.0.handoffs) (sym e ∙ q))
        (find_handoff-update c.handoff_id c.project_id acknowledge s.handoffs h f refl refl),
    m,
  )
]

acknowledge_again :
    (c : Claim) (g d : ℕ) (u : Store) (h : Handoff)
    → find_handoff c.handoff_id c.project_id u.handoffs ≡ some (acknowledge h)
    → is_claim_of c g h ≡ true
    → (o : Option Receipt) → fetch (is_settled_by c g is_acknowledged) u.receipts ≡ o
    → acknowledge_with c g d u o ≡ (u, some (g, true))
unfolding acknowledge_with acknowledge_locked
acknowledge_again c g d u h f m none e =
    let gen : h.claim_generation ≡ g = ground arith in rw (f, acknowledge_locked, m, gen)
acknowledge_again c g d u h f m (some r) e =
    rw (ack_receipt c g r (fetch-holds (is_settled_by c g is_acknowledged) u.receipts r e))

-- After its success an acknowledgement may be repeated for ever: after any run of the operations it
-- answers that the handoff is acknowledged already, with the same generation, and changes nothing.
pub acknowledge_handoff_replays :
    (is_eligible : ℕ → ℕ → Bool) (c : Claim) (generation d d' : ℕ) (s t u : Store) (n : ℕ)
    → acknowledge_handoff c generation d s ≡ (t, some (n, false))
    → Run is_eligible t u
    → acknowledge_handoff c generation d' u ≡ (u, some (generation, true))
acknowledge_handoff_replays el c g d d' s t u n e r =
    let (h, done, m) = acknowledged_row c g d s t n e in
    let (h', f, adv) = advanced_row el c.handoff_id c.project_id t u (acknowledge h) r done in
    let same = terminal_row h h' adv in
    unfold acknowledge_handoff in
    acknowledge_again c g d' u h (rw same at f) m
      (fetch (is_settled_by c g is_acknowledged) u.receipts) refl
