-- ===== src/Handoff/Promotion.antt =====
-- The part of `publish` of isekai_memory/continuity/delivery.py that moves a handoff into a continuity
-- bundle.
use isekai_memory.Base.{
  ℕ, ◌+◌, ◌≡◌, refl, inl, inr, Bool, true, ◌&&◌, ◌||◌, not, Option, none, some, if◌then◌else◌,
  Bool-cases,
}
use isekai_memory.Base.Table.{update}
use isekai_memory.Base.Outcome.{Result, ok, raise}
use isekai_memory.Handoff.Rows.{
  Handoff, Store, pending, claimed, has_id, find_handoff, is_after, is_past, has_status,
}
use isekai_memory.Continuity.Tables.{unavailable, conflict}

-- Not managed yet, and pending or past its lease.
abbrev pub is_promotable : ℕ → Handoff → Bool
is_promotable now h =
    not h.continuity_managed
    && (has_status pending h || has_status claimed h && is_past h.claim_lease_expires_at now)

-- The UPDATE of `publish`.
abbrev pub promote : Handoff → Handoff
promote h = record h {
  continuity_managed = true;
  claim_generation = h.claim_generation + 1;
  claim_token_digest = none;
  claim_lease_expires_at = none;
  claimed_by = none;
  claimed_at = none;
  status = pending;
  claim_disposition = none;
  claim_reason_code = none;
}

-- `admitted` and `checked` are what the other checks of `publish` come to, before and after the row
-- is read; they read other tables.
unfoldable pub publish_locked : ℕ → Result (Unit {0}) → ℕ → Store → Option Handoff → Result Store
publish_locked id checked now s none = raise unavailable
publish_locked id checked now s (some h) =
    if not (is_after h.expires_at now)
    then raise unavailable
    else if not (is_promotable now h)
    then raise conflict
    else elim checked [
      | raise e ↦ raise e
      | ok _ ↦ ok (record s { handoffs = update (has_id id) promote s.handoffs })
    ]

unfoldable pub publish : ℕ → ℕ → Result (Unit {0}) → Result (Unit {0}) → ℕ → Store → Result Store
publish project id admitted checked now s = elim admitted [
  | raise e ↦ raise e
  | ok _ ↦ publish_locked id checked now s (find_handoff id project s.handoffs)
]

-- A publication that does not raise has promoted a row that was free.
pub publish-cases :
    (project id : ℕ) (admitted checked : Result (Unit {0})) (now : ℕ) (s t : Store)
    → publish project id admitted checked now s ≡ ok t
    → (h : Handoff) × (find_handoff id project s.handoffs ≡ some h)
      × (is_promotable now h ≡ true)
      × (t ≡ record s { handoffs = update (has_id id) promote s.handoffs })
unfolding publish publish_locked
publish-cases project id (raise x) checked now s t e = cc
publish-cases project id (ok _) checked now s t e =
    locked checked (find_handoff id project s.handoffs) refl e
  where
    promoted :
        (checked : Result (Unit {0}))
        → (elim checked as (λ x. Result Store) [
          | raise e ↦ raise e
          | ok _ ↦ ok (record s { handoffs = update (has_id id) promote s.handoffs })
        ])
          ≡ ok t
        → t ≡ record s { handoffs = update (has_id id) promote s.handoffs }
    promoted (raise e) q = cc
    promoted (ok _) q = cc

    locked :
        (checked : Result (Unit {0})) (o : Option Handoff)
        → find_handoff id project s.handoffs ≡ o
        → publish_locked id checked now s o ≡ ok t
        → (h : Handoff) × (find_handoff id project s.handoffs ≡ some h)
          × (is_promotable now h ≡ true)
          × (t ≡ record s { handoffs = update (has_id id) promote s.handoffs })
    locked checked none f q = cc
    locked checked (some h) f q = elim (Bool-cases (is_after h.expires_at now)) [
      | inr n ↦ cc (rw n at q)
      | inl k ↦ elim (Bool-cases (is_promotable now h)) [
        | inr n ↦ cc (rw (k, n) at q)
        | inl l ↦ (h, f, l, promoted checked (rw (k, l) at q))
      ]
    ]
