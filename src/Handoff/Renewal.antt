-- ===== src/Handoff/Renewal.antt =====
-- `renew_lease` of isekai_memory/handoff/collaboration_store.py.
use isekai_memory.Base.{
  ℕ, ◌+◌, ◌*◌, ◌<◌, ◌≡◌, refl, ◌⊎◌, inl, inr, min, max, Bool, true, ◌&&◌, not, Option, none, some,
  ltb, if◌then◌else◌, arith, Bool-cases, Option-cases,
}
use isekai_memory.Base.Table.{update}
use isekai_memory.Base.Outcome.{Result, ToolError, ok, raise, tool_error, handoff}
use isekai_memory.Handoff.Rows.{
  Handoff, Store, Claim, has_id, find_handoff, is_open_to, is_claim_of, is_active,
}
use isekai_memory.Handoff.Lease.{second}

-- The locked row has a running lease of this claim and generation.
abbrev pub is_renewable : Claim → ℕ → ℕ → Handoff → Bool
is_renewable c generation now h =
    is_active now h
    && not h.continuity_managed
    && is_claim_of c generation h
    && is_open_to h.recipient_user_id c.claimed_by

abbrev pub extend : ℕ → Handoff → Handoff
extend until h = record h { claim_lease_expires_at = some until }

-- The answer to a renewal: the end of the lease, and whether this call has extended it.
abbrev pub Renewed : Type 0
Renewed = Result (ℕ × Bool)

-- `unavailable()`
abbrev pub no_lease : ToolError
no_lease = record { series = handoff; number = 10; http_status = 409 }

-- With the ends of the running lease and of the retention.
unfoldable pub renew_until : Claim → ℕ → ℕ → ℕ → Store → ℕ → ℕ → Store × Renewed
renew_until c deadline max_seconds now s current expiry =
    if ltb current deadline && ltb (now + max_seconds * second) deadline
    then (s, raise (tool_error handoff 11))
    else (
      if ltb current (max current (min deadline expiry))
          then record s {
            handoffs =
                update (has_id c.handoff_id) (extend (max current (min deadline expiry)))
                  s.handoffs;
          }
          else s,
      ok (max current (min deadline expiry), ltb current (max current (min deadline expiry))),
    )

abbrev renew_dated : Claim → ℕ → ℕ → ℕ → Store → Option ℕ → Option ℕ → Store × Renewed
renew_dated c deadline max_seconds now s (some current) (some expiry) =
    renew_until c deadline max_seconds now s current expiry
renew_dated c deadline max_seconds now s (some current) none = (s, raise no_lease)
renew_dated c deadline max_seconds now s none expiry = (s, raise no_lease)

unfoldable pub renew_locked : Claim → ℕ → ℕ → ℕ → ℕ → Store → Option Handoff → Store × Renewed
renew_locked c generation deadline max_seconds now s none = (s, raise no_lease)
renew_locked c generation deadline max_seconds now s (some h) =
    if not (is_renewable c generation now h)
    then (s, raise no_lease)
    else renew_dated c deadline max_seconds now s h.claim_lease_expires_at h.expires_at

unfoldable pub renew_lease : Claim → ℕ → ℕ → ℕ → ℕ → Store → Store × Renewed
renew_lease c generation deadline max_seconds now s =
    renew_locked c generation deadline max_seconds now s
      (find_handoff c.handoff_id c.project_id s.handoffs)

-- A renewal leaves the tables alone, or extends the row of the running lease.
module _ (c : Claim) (generation deadline max_seconds now : ℕ) (s : Store) where
  abbrev pub Extended : Store → Type 0
  Extended t =
      (h : Handoff) × (current : ℕ) × (until : ℕ) × (find_handoff c.handoff_id c.project_id
          s.handoffs
        ≡ some h)
      × (is_renewable c generation now h ≡ true)
      × (h.claim_lease_expires_at ≡ some current)
      × (current < until)
      × (t ≡ record s { handoffs = update (has_id c.handoff_id) (extend until) s.handoffs })

  renew_until-cases :
      (current expiry : ℕ)
      → let t = (renew_until c deadline max_seconds now s current expiry).0 in
        (t ≡ s)
        ⊎ (until : ℕ) × (current < until)
          × (t ≡ record s { handoffs = update (has_id c.handoff_id) (extend until) s.handoffs })
  unfolding renew_until
  renew_until-cases current expiry =
      elim (Bool-cases (ltb current deadline && ltb (now + max_seconds * second) deadline)) [
        | inl k ↦ inl (rw k)
        | inr k ↦ elim (Bool-cases (ltb current (max current (min deadline expiry)))) [
          | inr l ↦ inl (rw (k, l))
          | inl l ↦ inr (max current (min deadline expiry), ground arith, rw (k, l))
        ]
      ]

  renew_locked-cases :
      (o : Option Handoff)
      → find_handoff c.handoff_id c.project_id s.handoffs ≡ o
      → let t = (renew_locked c generation deadline max_seconds now s o).0 in (t ≡ s) ⊎ Extended t
  unfolding renew_locked
  renew_locked-cases none e = inl refl
  renew_locked-cases (some h) e = elim (Bool-cases (is_renewable c generation now h)) [
    | inr n ↦ inl (rw n)
    | inl k ↦ elim (Option-cases h.claim_lease_expires_at) [
      | inl n ↦ inl (rw (k, n))
      | inr (current, l) ↦ elim (Option-cases h.expires_at) [
        | inl n ↦ inl (rw (k, l, n))
        | inr (expiry, x) ↦ elim (renew_until-cases current expiry) [
          | inl q ↦ inl (rw (k, l, x) q)
          | inr (until, later, q) ↦ inr (h, current, until, e, k, l, later, rw (k, l, x) q)
        ]
      ]
    ]
  ]

  pub renew_lease-cases :
      let t = (renew_lease c generation deadline max_seconds now s).0 in (t ≡ s) ⊎ Extended t
  unfolding renew_lease
  renew_lease-cases = renew_locked-cases (find_handoff c.handoff_id c.project_id s.handoffs) refl
