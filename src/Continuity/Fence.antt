-- ===== src/Continuity/Fence.antt =====
-- The claim generation of a work unit fences off the owners before: isekai_memory/continuity/work.py.
use isekai_memory.Base.{
  ℕ, ◌+◌, ◌≤◌, ◌≡◌, refl, sym, ◌∙◌, ap, Bool, true, false, ◌&&◌, inl, inr, some, List, ◌==◌, arith,
  Bool-cases, some_eq,
}
use isekai_memory.Base.Table.{fetch, update, fetch-update_where}
use isekai_memory.Base.Outcome.{Result, ok}
use isekai_memory.Continuity.Tables.{WorkUnit, Bundle, Store, has_id}
use isekai_memory.Continuity.Work.{locate, ClaimArguments, act, claim, take, lease_end}
use isekai_memory.Continuity.Renewal.{Held, active, renew, Release, release, release_with}
use isekai_memory.Continuity.Ownership.{is_started, is_ok, claim-cases}
use isekai_memory.Continuity.History.{
  Step, claims_unit, renews_unit, releases_unit, Run, still, and_then, release-cases, renew-cases,
}
use isekai_memory.Continuity.Promises.{located_row}

-- `WHERE project_id=$1 AND id=$2`
abbrev at_unit : ℕ → ℕ → WorkUnit → Bool
at_unit project id u = u.project_id == project && u.id == id

located-fetch :
    (project id actor opened : ℕ) (s : Store) (u : WorkUnit) (b : Bundle)
    → locate project id actor opened s ≡ ok (u, b)
    → fetch (at_unit project id) s.units ≡ some u
unfolding locate
located-fetch project id actor opened s u b e =
    located_row project actor opened s u b (fetch (at_unit project id) s.units) e

-- The unit stays, and its generation does not fall.
abbrev Grows : ℕ → ℕ → List WorkUnit → List WorkUnit → Type 0
Grows project id t t' =
    (r : WorkUnit)
    → fetch (at_unit project id) t ≡ some r
    → (r' : WorkUnit) × (fetch (at_unit project id) t' ≡ some r')
      × (r.claim_generation ≤ r'.claim_generation)

update-Grows :
    (project id j : ℕ) (f : WorkUnit → WorkUnit) (t : List WorkUnit)
    → ((r : WorkUnit)
        → (at_unit project id (f r) ≡ at_unit project id r)
          × (r.claim_generation ≤ (f r).claim_generation))
    → Grows project id t (update (has_id j) f t)
update-Grows project id j f t keep r e =
    let seen = fetch-update_where (at_unit project id) (has_id j) f t (λ x. (keep x).0) r e in
    elim (Bool-cases (has_id j r)) [
      | inl h ↦ (f r, rw h at seen, (keep r).1)
      | inr h ↦ (r, rw h at seen, omega arith)
    ]

same-Grows : (project id : ℕ) (s t : Store) → t ≡ s → Grows project id s.units t.units
same-Grows project id s t e = rw e (λ r h. (r, h, omega arith))

Step-Grows : (project id : ℕ) (s t : Store) → Step s t → Grows project id s.units t.units
unfolding act release_with
Step-Grows project id s t (claims_unit a actor o n e) = elim (claim-cases a actor o n s) [
  | inl (q, _) ↦ same-Grows project id s t (e ∙ q)
  | inr (p, u, b, _, _, _, q) ↦
      rw (e, q)
        (update-Grows project id u.id (take actor a.token (lease_end n p b)) s.units
          (λ r. (refl, omega arith)))
]
Step-Grows project id s t (renews_unit a d actor o n e) = elim (renew-cases a d actor o n s) [
  | inl (q, _) ↦ same-Grows project id s t (e ∙ q)
  | inr (p, u, b, l, _, _, _, _, _, q) ↦
      rw (e, q) (update-Grows project id u.id _ s.units (λ r. (refl, omega arith)))
]
Step-Grows project id s t (releases_unit a actor o n e) = elim (release-cases a actor o n s) [
  | inl q ↦ same-Grows project id s t (e ∙ q)
  | inr (none_yet, (u, b, _, k, q)) ↦
      rw (e, q, k) (update-Grows project id u.id _ s.units (λ r. (refl, omega arith)))
]

Run-Grows : (project id : ℕ) (s t : Store) → Run s t → Grows project id s.units t.units
Run-Grows project id s _ still r h = (r, h, omega arith)
Run-Grows project id s _ (and_then {t = t} {u = u} run x) r h =
    let (r', h', a) = Run-Grows project id s t run r h in
    let (r2, h2, b) = Step-Grows project id t u x r' h' in (r2, h2, omega arith)

-- A lease that a claim starts is the unit's next generation, and stands in the tables.
claim_counts :
    (a : ClaimArguments) (actor opened now : ℕ) (s t : Store) (x : WorkUnit)
    → claim a actor opened now s ≡ (t, ok (x, false))
    → (u : WorkUnit) × (fetch (at_unit a.project_id a.unit_id) s.units ≡ some u)
      × (x.claim_generation ≡ u.claim_generation + 1)
      × (fetch (at_unit a.project_id a.unit_id) t.units ≡ some x)
unfolding act
claim_counts a actor o n s t x e = elim (claim-cases a actor o n s) [
  | inl (same, old) ↦ cc (ap (λ (r : Store × Result (WorkUnit × Bool)). is_started r.1) e, old)
  | inr (p, u, b, f, g, k, q) ↦
      let found = located-fetch a.project_id a.unit_id actor o s u b g in
      let (tables, row) = started_parts (sym e ∙ q) in
      let seen =
        fetch-update_where (at_unit a.project_id a.unit_id) (has_id u.id)
          (take actor a.token (lease_end n p b)) s.units (λ r. refl) u found in
      let own : has_id u.id u ≡ true = ground arith in
      (u, found, ap (λ (z : WorkUnit). z.claim_generation) row, rw (tables, row) (rw own at seen))
]
  where
    started_parts :
        {v w : Store} {y z : WorkUnit}
        → ◌≡◌ {A = Store × Result (WorkUnit × Bool)} (v, ok (y, false)) (w, ok (z, false))
        → (v ≡ w) × (y ≡ z)
    started_parts h = (cc, cc)

-- A lease of an earlier generation than the row's is not active.
stale_inactive :
    (h : Held) (actor opened now : ℕ) (s : Store) (r u : WorkUnit) (b : Bundle)
    → fetch (at_unit h.project_id h.unit_id) s.units ≡ some r
    → h.claim_generation + 1 ≤ r.claim_generation
    → locate h.project_id h.unit_id actor opened s ≡ ok (u, b)
    → active h actor now u ≡ false
stale_inactive h actor o n s r u b f later l =
    let same : r ≡ u = some_eq r u (sym f ∙ located-fetch h.project_id h.unit_id actor o s u b l) in
    let count = ap (λ (z : WorkUnit). z.claim_generation) same in ground arith

-- Fencing of work: once a claim of a unit has been started after mine, then after any other claims,
-- renewals and releases by anybody my generation of the lease is worth nothing. A renewal with it is
-- refused and a release with it frees nothing, and neither changes anything, whatever the clocks read
-- and also where the later lease is over.
pub stale_owner_fenced :
    (a a' : ClaimArguments) (actor opened now actor' opened' now' : ℕ) (s t u v w : Store)
    (x x' : WorkUnit) (h : Held) (r : Release) (deadline owner opened2 now2 : ℕ)
    → claim a actor opened now s ≡ (t, ok (x, false))
    → Run t u
    → claim a' actor' opened' now' u ≡ (v, ok (x', false))
    → a'.project_id ≡ a.project_id
    → a'.unit_id ≡ a.unit_id
    → Run v w
    → h.project_id ≡ a.project_id
    → h.unit_id ≡ a.unit_id
    → h.claim_generation ≡ x.claim_generation
    → r.held ≡ h
    → ((renew h deadline owner opened2 now2 w).0 ≡ w)
      × (is_ok (renew h deadline owner opened2 now2 w).1 ≡ false)
      × ((release r owner opened2 now2 w).0 ≡ w)
stale_owner_fenced a a' actor o n actor' o' n' s t u v w x x' h r d owner o2 n2 e run e' p i run' hp
      hi hg held =
    let (_, _, _, mine) = claim_counts a actor o n s t x e in
    let (y, before, count, theirs) = claim_counts a' actor' o' n' u v x' e' in
    let (y', there, grown) = Run-Grows a.project_id a.unit_id t u run x mine in
    let same : y' ≡ y = some_eq y' y (sym there ∙ rw (p, i) at before) in
    let gen = ap (λ (z : WorkUnit). z.claim_generation) same in
    let (z, last, more) = Run-Grows a.project_id a.unit_id v w run' x' (rw (p, i) at theirs) in
    let row : fetch (at_unit h.project_id h.unit_id) w.units ≡ some z = rw (hp, hi) last in
    let later : h.claim_generation + 1 ≤ z.claim_generation = omega arith in
    let (same_tables, refused) : ((renew h d owner o2 n2 w).0 ≡ w)
        × (is_ok (renew h d owner o2 n2 w).1 ≡ false) =
      elim (renew-cases h d owner o2 n2 w) [
        | inl q ↦ q
        | inr (_, g, b, _, _, l, k, _, _, _) ↦
            cc (stale_inactive h owner o2 n2 w z g b row later l, k)
      ] in
    let kept : (release r owner o2 n2 w).0 ≡ w = elim (release-cases r owner o2 n2 w) [
      | inl q ↦ q
      | inr (_, (g, b, l, k, _)) ↦
          cc (stale_inactive h owner o2 n2 w z g b row later (rw held at l), rw held at k)
    ] in
    (same_tables, refused, kept)
