-- ===== src/Continuity/History.antt =====
-- What runs of the operations keep: the tokens that were used and the receipts.
use isekai_memory.Base.{
  ℕ, ◌+◌, ◌*◌, ◌≡◌, ◌⊎◌, inl, inr, refl, ◌∙◌, min, max, Bool, true, false, ◌&&◌, none, some, ltb,
  ◌==◌, any, Bool-cases, Option-cases,
}
use isekai_memory.Base.Table.{fetch, update, fetch-append, any-append}
use isekai_memory.Base.Outcome.{Result, ok, raise}
use isekai_memory.Continuity.Tables.{
  WorkUnit, Bundle, Claim, Released, Receipt, Policy, Store, has_id, policy,
}
use isekai_memory.Continuity.Work.{locate, ClaimArguments, act, claim, second}
use isekai_memory.Continuity.Renewal.{
  Held, active, renew, renew_with, extend, Release, is_receipt_of, release, release_with,
  release_after,
}
use isekai_memory.Continuity.Ownership.{is_ok, claim-cases}

-- A release that found no receipt leaves the tables alone, or frees the row of the held lease.
module _ (a : Release) (actor opened now : ℕ) (s : Store) where
  abbrev pub Freed : Store × Result (Released × Bool) → Type 0
  Freed result =
      (u : WorkUnit) × (b : Bundle) × (locate a.held.project_id a.held.unit_id actor opened s
        ≡ ok (u, b))
      × (active a.held actor now u ≡ true)
      × (result ≡ release_with a actor now s (ok (u, b)))

  pub release_with-cases :
      (r : Result (WorkUnit × Bundle))
      → locate a.held.project_id a.held.unit_id actor opened s ≡ r
      → ((release_with a actor now s r).0 ≡ s) × (is_ok (release_with a actor now s r).1 ≡ false)
        ⊎ Freed (release_with a actor now s r)
  unfolding release_with
  release_with-cases (raise e) h = inl (refl, refl)
  release_with-cases (ok (u, b)) h = elim (Bool-cases (active a.held actor now u)) [
    | inr n ↦ inl (rw n (refl, refl))
    | inl k ↦ inr (u, b, h, k, refl)
  ]

  pub release-cases :
      ((release a actor opened now s).0 ≡ s)
      ⊎ (fetch (is_receipt_of a actor) s.receipts ≡ none) × Freed (release a actor opened now s)
  unfolding release release_after
  release-cases = elim (Option-cases (fetch (is_receipt_of a actor) s.receipts)) [
    | inl h ↦
        elim (release_with-cases (locate a.held.project_id a.held.unit_id actor opened s) refl) [
          | inl (q, _) ↦ inl (rw h q)
          | inr q ↦ inr (h, rw h q)
        ]
    | inr (r, h) ↦ elim (Bool-cases (r.request_digest == a.request_digest)) [
      | inl k ↦ inl (rw (h, k))
      | inr k ↦ inl (rw (h, k))
    ]
  ]

-- A renewal leaves the tables alone, or extends the row of the held lease.
module _ (a : Held) (deadline actor opened now : ℕ) (s : Store) where
  abbrev pub Extended : Store × Result (WorkUnit × Bool) → Type 0
  Extended result =
      (p : Policy) × (u : WorkUnit) × (b : Bundle) × (lease : ℕ) × (policy a.project_id false s
        ≡ ok p)
      × (locate a.project_id a.unit_id actor opened s ≡ ok (u, b))
      × (active a actor now u ≡ true)
      × (u.lease_expires_at ≡ some lease)
      × ((ltb lease deadline && ltb (now + p.lease_seconds * second) deadline) ≡ false)
      × (result ≡ (
        record s {
          units = update (has_id u.id) (extend (max lease (min deadline b.expires_at))) s.units;
        },
        ok (
          extend (max lease (min deadline b.expires_at)) u,
          ltb lease (max lease (min deadline b.expires_at)),
        ),
      ))

  renewed-cases :
      (p : Result Policy) (r : Result (WorkUnit × Bundle))
      → policy a.project_id false s ≡ p
      → locate a.project_id a.unit_id actor opened s ≡ r
      → ((renew_with a deadline actor now s p r).0 ≡ s)
          × (is_ok (renew_with a deadline actor now s p r).1 ≡ false)
        ⊎ Extended (renew_with a deadline actor now s p r)
  unfolding renew_with
  renewed-cases (raise e) r h k = inl (refl, refl)
  renewed-cases (ok p) (raise e) h k = inl (refl, refl)
  renewed-cases (ok p) (ok (u, b)) h k = elim (Bool-cases (active a actor now u)) [
    | inr n ↦ inl (rw n (refl, refl))
    | inl y ↦ elim (Option-cases u.lease_expires_at) [
      | inl n ↦ inl (rw (y, n) (refl, refl))
      | inr (lease, z) ↦
          elim (Bool-cases (ltb lease deadline && ltb (now + p.lease_seconds * second) deadline)) [
            | inl n ↦ inl (rw (y, z, n) (refl, refl))
            | inr n ↦ inr (p, u, b, lease, h, k, y, z, n, rw (y, z, n))
          ]
    ]
  ]

  pub renew-cases :
      ((renew a deadline actor opened now s).0 ≡ s)
        × (is_ok (renew a deadline actor opened now s).1 ≡ false)
      ⊎ Extended (renew a deadline actor opened now s)
  unfolding renew
  renew-cases =
      renewed-cases (policy a.project_id false s) (locate a.project_id a.unit_id actor opened s)
        refl refl

-- A call of an operation.
pub data Step (s t : Store) : Type 0 where
  claims_unit :
      (a : ClaimArguments) (actor opened now : ℕ) → t ≡ (claim a actor opened now s).0 → Step s t
  renews_unit :
      (a : Held) (deadline actor opened now : ℕ)
      → t ≡ (renew a deadline actor opened now s).0
      → Step s t
  releases_unit :
      (a : Release) (actor opened now : ℕ) → t ≡ (release a actor opened now s).0 → Step s t

pub data Run (s : Store) : Store → Type 0 where
  still : Run s s
  and_then : {t u : Store} → Run s t → Step t u → Run s u

-- Used tokens stay used, and a receipt that a clause finds is found for good.
abbrev pub Remembers : Store → Store → Type 0
Remembers s t =
    ((p : Claim → Bool) → any p s.claims ≡ true → any p t.claims ≡ true)
    × ((q : Receipt → Bool) (r : Receipt)
        → fetch q s.receipts ≡ some r
        → fetch q t.receipts ≡ some r)

unchanged-Remembers : (s t : Store) → t ≡ s → Remembers s t
unchanged-Remembers s t e = rw e (λ p h. h, λ q r h. h)

Step-Remembers : (s t : Store) → Step s t → Remembers s t
unfolding act release_with
Step-Remembers s t (claims_unit a actor o n e) = elim (claim-cases a actor o n s) [
  | inl (q, _) ↦ unchanged-Remembers s t (e ∙ q)
  | inr (p, u, b, _, _, _, q) ↦ rw (e, q) (λ f h. any-append f s.claims _ h, λ f r h. h)
]
Step-Remembers s t (renews_unit a d actor o n e) = elim (renew-cases a d actor o n s) [
  | inl (q, _) ↦ unchanged-Remembers s t (e ∙ q)
  | inr (p, u, b, l, _, _, _, _, _, q) ↦ rw (e, q) (λ f h. h, λ f r h. h)
]
Step-Remembers s t (releases_unit a actor o n e) = elim (release-cases a actor o n s) [
  | inl q ↦ unchanged-Remembers s t (e ∙ q)
  | inr (none_yet, (u, b, _, k, q)) ↦
      rw (e, q, k) (λ f h. h, λ f r h. fetch-append f s.receipts _ r h)
]

pub Run-Remembers : (s t : Store) → Run s t → Remembers s t
Run-Remembers s _ still = (λ p h. h, λ q r h. h)
Run-Remembers s _ (and_then {t = t} {u = u} r x) =
    let (a, b) = Run-Remembers s t r in
    let (c, d) = Step-Remembers t u x in (λ p h. c p (a p h), λ q r h. d q r (b q r h))
