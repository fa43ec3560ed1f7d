-- ===== src/Handoff/Errors.antt =====
-- The error paths of the service layer, and the bounds of the leases that it grants.
use isekai_memory.Base.{
  ℕ, ◌+◌, ◌*◌, ◌≤◌, ◌≡◌, refl, sym, ◌∙◌, ap, Bool, false, inl, inr, Option, none, some, arith,
  Bool-cases, leb, ◌&&◌,
}
use isekai_memory.Base.Outcome.{Result, ToolError, ok, raise, tool_error, handoff}
use isekai_memory.Handoff.Rows.{Handoff, Store}
use isekai_memory.Handoff.Lease.{claim_handoff_lease, least, second}
use isekai_memory.Handoff.Settle.{nack_handoff}
use isekai_memory.Handoff.Outcomes.{claim_handoff_lease-cases, nack_handoff-cases}
use isekai_memory.Handoff.Safety.{claim_handoff_lease_grants}
use isekai_memory.Handoff.Service.{
  Settings, Arguments, get_or, claim_of, answer, claim_handoff_recoverable, nack_claimed_handoff,
}

answer_raises :
    {A : Type 0} (n : ℕ) (u t : Store) (o : Option A) (e : ToolError)
    → answer n (u, o) ≡ (t, raise e)
    → (u ≡ t) × (o ≡ none) × (e ≡ tool_error handoff n)
answer_raises {A} n u t none e h = (
  ap (λ (p : Store × Result A). p.0) h,
  refl,
  raise_eq _ e (ap (λ (p : Store × Result A). p.1) h),
)
  where
    raise_eq : (x y : ToolError) → ◌≡◌ {A = Result A} (raise x) (raise y) → y ≡ x
    raise_eq x y q = cc
answer_raises {A} n u t (some a) e h = cc (ap (λ (p : Store × Result A). p.1) h)

answer_ok :
    {A : Type 0} (n : ℕ) (u t : Store) (o : Option A) (a : A)
    → answer n (u, o) ≡ (t, ok a)
    → (u ≡ t) × (o ≡ some a)
answer_ok {A} n u t none a h = cc (ap (λ (p : Store × Result A). p.1) h)
answer_ok {A} n u t (some b) a h =
    let p : ◌≡◌ {A = Result A} (ok b) (ok a) = ap (λ (p : Store × Result A). p.1) h in
    (ap (λ (p : Store × Result A). p.0) h, ok_eq b a p)
  where
    ok_eq : (x y : A) → ◌≡◌ {A = Result A} (ok x) (ok y) → some x ≡ some y
    ok_eq x y q = cc

deadline_bound : (l m n : ℕ) (o : Option ℕ) → l ≤ m → least (n + l * second) o ≤ n + m * second
deadline_bound l m n none h = omega arith
deadline_bound l m n (some e) h = omega arith

-- Where a query found nothing, it wrote nothing.
module _ (sha256 : ℕ → ℕ) (a : Arguments) (claimed_by : ℕ) (authorized : Option ℕ) where
  -- A claim that raises, for its lease bounds or because the handoff is unavailable, leaves the
  -- tables as they were.
  pub claim_handoff_recoverable_raises :
      (settings : Settings) (db_now now : ℕ) (s t : Store) (e : ToolError)
      → claim_handoff_recoverable sha256 settings a claimed_by authorized db_now now s
        ≡ (t, raise e)
      → t ≡ s
  unfolding claim_handoff_recoverable
  claim_handoff_recoverable_raises settings d n s t e h =
      let l = get_or a.lease_seconds settings.claim_lease_default_seconds in
      let c = claim_of sha256 a claimed_by authorized in
      elim (Bool-cases
        (leb settings.claim_lease_min_seconds l && leb l settings.claim_lease_max_seconds)) [
          | inr out ↦ sym (ap (λ (p : Store × Result (Handoff × Bool)). p.0) (rw out at h))
          | inl within ↦
              let (same, nothing, _) =
                answer_raises 7 _ t
                  (claim_handoff_lease c l (get_or a.accept_handoff_version 1) d n s).1 e
                  (rw within at h) in
              elim (claim_handoff_lease-cases c l (get_or a.accept_handoff_version 1) d n s) [
                | inl (q, _) ↦ sym same ∙ q
                | inr (_, _, _, _, q) ↦
                    cc (ap (λ (p : Store × Option (Handoff × Bool)). p.1) q, nothing)
              ]
        ]

  -- A rejection that raises leaves the tables as they were, and raises MEM-HANDOFF-0008.
  pub nack_claimed_handoff_raises :
      (generation reason db_now : ℕ) (s t : Store) (e : ToolError)
      → nack_claimed_handoff sha256 a generation reason claimed_by authorized db_now s
        ≡ (t, raise e)
      → (t ≡ s) × (e ≡ tool_error handoff 8)
  unfolding nack_claimed_handoff
  nack_claimed_handoff_raises g reason d s t e h =
      let c = claim_of sha256 a claimed_by authorized in
      let (same, nothing, code) = answer_raises 8 _ t (nack_handoff c g reason d s).1 e h in
      elim (nack_handoff-cases c g d s reason) [
        | inl (q, _) ↦ (sym same ∙ q, code)
        | inr (_, _, _, _, q) ↦ cc (ap (λ (p : Store × Option (ℕ × Bool)). p.1) q, nothing)
      ]

  -- A lease that is granted has a length, asked for or by default, within the configured bounds,
  -- and ends at most the configured maximum after the clock of the UPDATE.
  pub claim_handoff_recoverable_bounds :
      (settings : Settings) (db_now now : ℕ) (s t : Store) (x : Handoff)
      → claim_handoff_recoverable sha256 settings a claimed_by authorized db_now now s
        ≡ (t, ok (x, false))
      → (settings.claim_lease_min_seconds
          ≤ get_or a.lease_seconds settings.claim_lease_default_seconds)
        × (get_or a.lease_seconds settings.claim_lease_default_seconds
            ≤ settings.claim_lease_max_seconds)
        × (deadline : ℕ) × (x.claim_lease_expires_at ≡ some deadline)
        × (deadline ≤ now + settings.claim_lease_max_seconds * second)
  unfolding claim_handoff_recoverable
  claim_handoff_recoverable_bounds settings d n s t x h =
      let l = get_or a.lease_seconds settings.claim_lease_default_seconds in
      let v = get_or a.accept_handoff_version 1 in
      let c = claim_of sha256 a claimed_by authorized in
      elim (Bool-cases
        (leb settings.claim_lease_min_seconds l && leb l settings.claim_lease_max_seconds)) [
          | inr out ↦ cc (ap (λ (p : Store × Result (Handoff × Bool)). p.1) (rw out at h))
          | inl within ↦
              let (same, row) =
                answer_ok 7 _ t (claim_handoff_lease c l v d n s).1 (x, false) (rw within at h) in
              let (lease, _, _, _, _, _, _, _) =
                claim_handoff_lease_grants c l v d n s _ x
                  (λ i. ((claim_handoff_lease c l v d n s).0, row i)) in
              (
                ground arith,
                ground arith,
                least (n + l * second) x.expires_at,
                lease.deadline,
                deadline_bound l settings.claim_lease_max_seconds n x.expires_at (ground arith),
              )
        ]
