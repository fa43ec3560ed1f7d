-- ===== src/Continuity/Ownership.antt =====
-- The ways in which a claim of a work unit can end: isekai_memory/continuity/work.py.
use isekai_memory.Base.{ℕ, ◌≡◌, ◌⊎◌, inl, inr, refl, Bool, true, false, ◌&&◌, ◌||◌, not, any, arith}
use isekai_memory.Base.Outcome.{Result, ToolError, ok, raise}
use isekai_memory.Continuity.Tables.{
  available, claimed, WorkUnit, Bundle, Policy, Store, is_state, is_after, policy,
}
use isekai_memory.Continuity.Work.{
  locate, ClaimArguments, Decision, refuse, replay, start, decide, act, claim, claim_with, is_used,
  differs,
}

Result-cases :
    {A : Type 0} (r : Result A) → ((e : ToolError) × (r ≡ raise e)) ⊎ ((a : A) × (r ≡ ok a))
Result-cases (raise e) = inl (e, refl)
Result-cases (ok a) = inr (a, refl)

-- What a claim that starts a lease has checked.
pub record IsStartable (a : ClaimArguments) (actor now : ℕ) (used : Bool) (u : WorkUnit)
    : Type 0 where
  pub unused : used ≡ false
  pub free : (is_state claimed u && is_after u.lease_expires_at now) ≡ false
  pub open_state : (is_state available u || is_state claimed u) ≡ true
  pub expected : differs a.expected_generation u.claim_generation ≡ false

decide-start :
    (a : ClaimArguments) (actor now : ℕ) (used : Bool) (u : WorkUnit) (b : Bundle)
    → decide a actor now used u b ≡ start
    → IsStartable a actor now used u
unfolding decide
decide-start a actor now used u b h = ground arith

-- A new lease, not a replayed one.
abbrev pub is_started : {A : Type 0} → Result (A × Bool) → Bool
is_started (raise e) = false
is_started (ok (a, replayed)) = not replayed

abbrev pub is_ok : {A : Type 0} → Result A → Bool
is_ok (raise e) = false
is_ok (ok a) = true

module _ (a : ClaimArguments) (actor opened now : ℕ) (s : Store) where
  abbrev pub Started : Type 0
  Started =
      (p : Policy) × (u : WorkUnit) × (b : Bundle) × (policy a.project_id true s ≡ ok p)
      × (locate a.project_id a.unit_id actor opened s ≡ ok (u, b))
      × IsStartable a actor now (any (is_used u.id actor a.token) s.claims) u
      × (claim a actor opened now s ≡ act start a actor now p u b s)

  act-cases :
      (d : Decision) (p : Policy) (u : WorkUnit) (b : Bundle)
      → ((act d a actor now p u b s).0 ≡ s) × (is_started (act d a actor now p u b s).1 ≡ false)
        ⊎ (d ≡ start)
  unfolding act
  act-cases refuse p u b = inl (refl, refl)
  act-cases replay p u b = inl (refl, refl)
  act-cases start p u b = inr refl

  -- A claim starts nothing and changes nothing, or starts a lease of the row that it located.
  pub claim-cases :
      ((claim a actor opened now s).0 ≡ s) × (is_started (claim a actor opened now s).1 ≡ false)
      ⊎ Started
  unfolding claim claim_with
  claim-cases = elim (Result-cases (policy a.project_id true s)) [
    | inl (e, h) ↦ inl (rw h (refl, refl))
    | inr (p, h) ↦ elim (Result-cases (locate a.project_id a.unit_id actor opened s)) [
      | inl (e, k) ↦ inl (rw (h, k) (refl, refl))
      | inr ((u, b), k) ↦
          let d = decide a actor now (any (is_used u.id actor a.token) s.claims) u b in
          elim (act-cases d p u b) [
            | inl q ↦ inl (rw (h, k) q)
            | inr q ↦
                inr (p, u, b, h, k, decide-start a actor now _ u b q, rw (h, k, claim_with, q))
          ]
    ]
  ]
