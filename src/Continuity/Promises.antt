-- ===== src/Continuity/Promises.antt =====
-- What the owner of a work unit is promised over runs of the operations.
use isekai_memory.Base.{
  ℕ, ◌+◌, ◌*◌, ◌≤◌, ◌≡◌, ◌⊎◌, inl, inr, refl, sym, ◌∙◌, ap, min, max, Bool, true, false, ◌&&◌,
  Option, none, some, ltb, ◌==◌, if◌then◌else◌, any, arith, Bool-cases, Option-cases,
}
use isekai_memory.Base.Table.{fetch, any-last, fetch-holds, fetch-insert}
use isekai_memory.Base.Outcome.{Result, ok, raise, ◌>>=◌}
use isekai_memory.Continuity.Tables.{
  claimed, WorkUnit, Bundle, Released, Receipt, Policy, Store, unavailable, bundle, is_state,
  is_after, policy,
}
use isekai_memory.Continuity.Work.{
  locate, located, is_assignee, is_delivered, ClaimArguments, start, act, claim, is_used, take,
  lease_end, second,
}
use isekai_memory.Continuity.Renewal.{
  Held, active, renew, Release, is_receipt_of, release, release_with, release_after, released,
}
use isekai_memory.Continuity.Ownership.{is_started, is_ok, claim-cases}
use isekai_memory.Continuity.History.{Run, Run-Remembers, release_with-cases, renew-cases}

delivered_row :
    (actor : ℕ) (s : Store) (y u : WorkUnit) (b : Bundle) (r : Result Bundle)
    → ◌≡◌ {A = Result (WorkUnit × Bundle)}
        (r >>= λ c.
          if is_delivered y.bundle_id actor s.deliveries then ok (y, c) else raise unavailable)
        (ok (u, b))
    → some y ≡ some u
delivered_row actor s y u b (raise e) h = cc
delivered_row actor s y u b (ok c) h =
    elim (Bool-cases (is_delivered y.bundle_id actor s.deliveries)) [
      | inr n ↦ cc (rw n at h)
      | inl k ↦ same (rw k at h)
    ]
  where
    same : ◌≡◌ {A = Result (WorkUnit × Bundle)} (ok (y, c)) (ok (u, b)) → some y ≡ some u
    same q = cc

pub located_row :
    (project actor opened : ℕ) (s : Store) (u : WorkUnit) (b : Bundle) (o : Option WorkUnit)
    → located project actor opened s o ≡ ok (u, b)
    → o ≡ some u
unfolding located
located_row project actor opened s u b none e = cc
located_row project actor opened s u b (some y) e = elim (Bool-cases (is_assignee actor y)) [
  | inr n ↦ cc (rw n at e)
  | inl k ↦ delivered_row actor s y u b (bundle project y.bundle_id opened s) (rw k at e)
]

located_id :
    (project id actor opened : ℕ) (s : Store) (u : WorkUnit) (b : Bundle)
    → locate project id actor opened s ≡ ok (u, b)
    → u.id ≡ id
unfolding locate
located_id project id actor opened s u b e =
    let p = λ (y : WorkUnit). y.project_id == project && y.id == id in
    let row = located_row project actor opened s u b (fetch p s.units) e in
    let h = fetch-holds p s.units u row in ground arith

-- A claim that starts a lease found none running; the lease that it starts is of the next generation
-- and ends by the expiry of the bundle and by the longest lease of the policy.
pub claim_starts :
    (a : ClaimArguments) (actor opened now : ℕ) (s t : Store) (x : WorkUnit)
    → claim a actor opened now s ≡ (t, ok (x, false))
    → (p : Policy) × (u : WorkUnit) × (b : Bundle) × (policy a.project_id true s ≡ ok p)
      × (locate a.project_id a.unit_id actor opened s ≡ ok (u, b))
      × ((is_state claimed u && is_after u.lease_expires_at now) ≡ false)
      × (x.claim_generation ≡ u.claim_generation + 1)
      × (until : ℕ) × (x.lease_expires_at ≡ some until)
      × (until ≤ b.expires_at)
      × (until ≤ now + p.lease_seconds * second)
unfolding act
claim_starts a actor opened now s t x e = elim (claim-cases a actor opened now s) [
  | inl (same, old) ↦ cc (ap (λ (r : Store × Result (WorkUnit × Bool)). is_started r.1) e, old)
  | inr (p, u, b, f, g, k, q) ↦
      let y : x ≡ take actor a.token (lease_end now p b) u = started_row (sym e ∙ q) in
      (
        p,
        u,
        b,
        f,
        g,
        k.free,
        ap (λ (z : WorkUnit). z.claim_generation) y,
        lease_end now p b,
        ap (λ (z : WorkUnit). z.lease_expires_at) y,
        omega arith,
        omega arith,
      )
]
  where
    started_row :
        {v w : Store} {y z : WorkUnit}
        → ◌≡◌ {A = Store × Result (WorkUnit × Bool)} (v, ok (y, false)) (w, ok (z, false))
        → y ≡ z
    started_row h = cc

-- A claim token starts one lease of a work unit and no other: after it has, in any run of the
-- operations, a claim of the unit by the same user with the same token starts nothing and changes
-- nothing.
pub claim_token_once :
    (a a' : ClaimArguments) (actor opened now opened' now' : ℕ) (s t v : Store) (x : WorkUnit)
    → claim a actor opened now s ≡ (t, ok (x, false))
    → Run t v
    → a'.unit_id ≡ a.unit_id
    → a'.token ≡ a.token
    → ((claim a' actor opened' now' v).0 ≡ v)
      × (is_started (claim a' actor opened' now' v).1 ≡ false)
unfolding act
claim_token_once a a' actor o n o' n' s t v x e r i j = elim (claim-cases a' actor o' n' v) [
  | inl q ↦ q
  | inr (p', u', b', f', g', k', q') ↦ elim (claim-cases a actor o n s) [
    | inl (same, old) ↦ cc (ap (λ (z : Store × Result (WorkUnit × Bool)). is_started z.1) e, old)
    | inr (p, u, b, f, g, k, q) ↦
        let unit : u'.id ≡ u.id =
          located_id a'.project_id a'.unit_id actor o' v u' b' g'
          ∙ (i ∙ sym (located_id a.project_id a.unit_id actor o s u b g)) in
        let history : t.claims ≡ (act start a actor n p u b s).0.claims =
          ap (λ (z : Store × Result (WorkUnit × Bool)). z.0.claims) (sym e ∙ q) in
        let used : any (is_used u.id actor a.token) t.claims ≡ true =
          rw history (any-last (is_used u.id actor a.token) s.claims _ (ground arith)) in
        let still_used = (Run-Remembers t v r).0 (is_used u.id actor a.token) used in
        let unused = k'.unused in cc (rw (unit, j) at unused, still_used)
  ]
]

-- A renewal that succeeds never shortens the lease; if it extends it, then at most to the deadline
-- asked for, to the expiry of the bundle and to the longest lease of the policy.
pub renew_bounds :
    (a : Held) (deadline actor opened now : ℕ) (s t : Store) (x : WorkUnit) (extended : Bool)
    → renew a deadline actor opened now s ≡ (t, ok (x, extended))
    → (p : Policy) × (u : WorkUnit) × (b : Bundle) × (lease : ℕ) × (until : ℕ) × (policy
          a.project_id false s
        ≡ ok p)
      × (locate a.project_id a.unit_id actor opened s ≡ ok (u, b))
      × (active a actor now u ≡ true)
      × (u.lease_expires_at ≡ some lease)
      × (x.lease_expires_at ≡ some until)
      × (lease ≤ until)
      × ((until ≡ lease)
          ⊎ (until ≤ deadline) × (until ≤ b.expires_at) × (until ≤ now + p.lease_seconds * second))
renew_bounds a deadline actor o n s t x extended e = elim (renew-cases a deadline actor o n s) [
  | inl (_, raised) ↦ cc (ap (λ (z : Store × Result (WorkUnit × Bool)). is_ok z.1) e, raised)
  | inr (p, u, b, lease, f, g, k, l, m, q) ↦
      let y = renewed_row (sym e ∙ q) in
      (
        p,
        u,
        b,
        lease,
        max lease (min deadline b.expires_at),
        f,
        g,
        k,
        l,
        ap (λ (z : WorkUnit). z.lease_expires_at) y,
        omega arith,
        within lease deadline b.expires_at (n + p.lease_seconds * second) m,
      )
]
  where
    renewed_row :
        {v w : Store} {y z : WorkUnit} {c d : Bool}
        → ◌≡◌ {A = Store × Result (WorkUnit × Bool)} (v, ok (y, c)) (w, ok (z, d))
        → y ≡ z
    renewed_row h = cc

    within :
        (lease deadline expiry longest : ℕ)
        → (ltb lease deadline && ltb longest deadline) ≡ false
        → (max lease (min deadline expiry) ≡ lease)
          ⊎ (max lease (min deadline expiry) ≤ deadline)
            × (max lease (min deadline expiry) ≤ expiry)
            × (max lease (min deadline expiry) ≤ longest)
    within lease deadline expiry longest h =
        elim (Bool-cases (ltb lease deadline && ltb lease expiry)) [
          | inr k ↦ inl (ground arith)
          | inl k ↦ inr (ground arith, ground arith, ground arith)
        ]

-- A release that succeeds leaves its receipt.
release_receipt :
    (a : Release) (actor opened now : ℕ) (s t : Store) (x : Released) (b : Bool)
    → release a actor opened now s ≡ (t, ok (x, b))
    → (r : Receipt) × (fetch (is_receipt_of a actor) t.receipts ≡ some r)
      × ((r.request_digest == a.request_digest) ≡ true)
      × (r.result ≡ x)
unfolding release release_after release_with
release_receipt a actor o n s t x b e =
    let p = is_receipt_of a actor in
    elim (Option-cases (fetch p s.receipts)) [
      | inr (r, h) ↦ elim (Bool-cases (r.request_digest == a.request_digest)) [
        | inr k ↦ cc (ap (λ (z : Store × Result (Released × Bool)). is_ok z.1) (rw (h, k) at e))
        | inl k ↦
            let (same, answer) = released_parts (rw (h, k) at e) in (r, rw (← same) h, k, answer)
      ]
      | inl h ↦
          elim (release_with-cases a actor o n s (locate a.held.project_id a.held.unit_id actor o s)
            refl) [
              | inl (_, raised) ↦
                  cc (ap (λ (z : Store × Result (Released × Bool)). is_ok z.1) (rw h at e), raised)
              | inr (u, c, f, k, q) ↦
                  let (same, answer) = released_parts (rw (f, k) at (rw h at e)) in
                  let filed : Receipt = record {
                    project_id = a.held.project_id;
                    actor_id = actor;
                    idempotency_key = a.idempotency_key;
                    request_digest = a.request_digest;
                    result = released a u;
                  } in
                  let own : p filed ≡ true = ground arith in
                  let found = fetch-insert p s.receipts filed in
                  (filed, rw (← same) (rw (h, own) at found), ground arith, answer)
            ]
    ]
  where
    released_parts :
        {v w : Store} {y z : Released} {c d : Bool}
        → ◌≡◌ {A = Store × Result (Released × Bool)} (v, ok (y, c)) (w, ok (z, d))
        → (v ≡ w) × (y ≡ z)
    released_parts h = (cc, cc)

-- A release may be repeated: where it succeeded, after any run of the operations the same request
-- gets the same answer, as a replay, and changes nothing, also where the unit has a new owner.
pub release_repeats :
    (a : Release) (actor opened now opened' now' : ℕ) (s t v : Store) (x : Released) (b : Bool)
    → release a actor opened now s ≡ (t, ok (x, b))
    → Run t v
    → release a actor opened' now' v ≡ (v, ok (x, true))
unfolding release release_after
release_repeats a actor o n o' n' s t v x b e r =
    let (y, f, k, answer) = release_receipt a actor o n s t x b e in
    rw ((Run-Remembers t v r).1 (is_receipt_of a actor) y f, k, answer)
