-- ===== src/Generation/Workers.antt =====
-- What a worker may rely on: the job that it claims is its own until its lease ends, and not after
-- another claim.
use isekai_memory.Base.{
  ℕ, ◌+◌, ◌*◌, ◌≤◌, ◌<◌, ◌≡◌, refl, sym, ◌∙◌, ap, Bool, true, false, ◌⊎◌, inl, inr, Option, some,
  arith, Bool-cases, Option-cases, any, ◌==◌, ◌&&◌, some_eq,
}
use isekai_memory.Base.Table.{
  fetch, update, any-update, fetch-insert, fetch-holds, fetch-update_where,
}
use isekai_memory.Base.Among.{Among, rewritten-Among, some_any, none_any}
use isekai_memory.Base.Outcome.{Result, ok}
use isekai_memory.Generation.Jobs.{Job, JobKey, Ledger, has_id, has_key, in_project, holds}
use isekai_memory.Generation.Queue.{
  drain, start, claim, is_runnable, fail, complete, fenced, is_held, second, redrive, redrive_with,
  revive, insert, insert_with, new_job,
}
use isekai_memory.Generation.Invariant.{IsWellFormed}
use isekai_memory.Generation.Preserved.{drain-IsWellFormed}
use isekai_memory.Generation.Recorded.{started}
use isekai_memory.Generation.Claiming.{claim-cases, claim-IsWellFormed, started_count}
use isekai_memory.Generation.Fencing.{
  Run, Run-IsWellFormed, IsAhead, Run-IsAhead, claimed_tables, drain-IsAhead,
}

-- The row that a successful claim has started.
pub claimed_row :
    (p k l n : ℕ) (s t : Ledger) (j : Job)
    → IsWellFormed s
    → claim p k l n s ≡ some (t, some j)
    → (row : Job) × Among row (drain p n s).jobs
      × (is_runnable p n row ≡ true)
      × (t ≡ started k l n (drain p n s) row)
      × (j ≡ start k l n row)
claimed_row p k l n s t j w e = elim (claim-cases p k l n s w) [
  | inl q ↦ cc (claimed_tables (sym q ∙ e)).1
  | inr (row, m, h, q) ↦
      let (a, b) = claimed_tables (sym q ∙ e) in
      (row, m, h, sym a, some_eq j (start k l n row) (sym b))
]

claimed-IsAhead :
    (p k l n : ℕ) (s t : Ledger) (j : Job)
    → IsWellFormed s
    → claim p k l n s ≡ some (t, some j)
    → IsAhead j.id j.attempts t
claimed-IsAhead p k l n s t j w e =
    let (row, m, h, a, b) = claimed_row p k l n s t j w e in
    let d = drain p n s in
    let wd = drain-IsWellFormed p n s w in
    rw (a, b)
      (record {
        exists =
            any-update (has_id row.id) (has_id row.id) (start k l n) d.jobs (λ x. refl)
            ∙ some_any (has_id row.id) d.jobs row m (ground arith);
        counted = λ x o i. started_count k l n d row x wd m o (sym i);
      })

unfenced :
    (j : Job) (now : ℕ) (s : Ledger) → IsAhead j.id (j.attempts + 1) s → fenced j now s ≡ false
unfolding fenced
unfenced j now s a = none_any (is_held j now) s.jobs (λ x m. elim (Bool-cases (is_held j now x)) [
  | inr h ↦ h
  | inl h ↦
      let i : x.id ≡ j.id = ground arith in
      let c = a.counted x m i in
      let k : x.attempts ≡ j.attempts = ground arith in absurd (omega (arith, c, k))
])

-- From well-formed tables: once a job has been claimed again, in any run of the operations, the
-- worker that had claimed it before can neither fail nor complete it. Both are refused and change
-- nothing, whatever the clock.
pub stale_worker_fenced :
    (p k l n p' k' l' n' : ℕ) (s t u v z : Ledger) (j j' : Job) (code : ℕ) (retryable : Bool)
    (x y now : ℕ)
    → IsWellFormed s
    → claim p k l n s ≡ some (t, some j)
    → Run t u
    → claim p' k' l' n' u ≡ some (v, some j')
    → j'.id ≡ j.id
    → Run v z
    → (fail j code retryable x y now z ≡ (z, false)) × (complete j code x y now z ≡ (z, false))
stale_worker_fenced p k l n p' k' l' n' s t u v z j j' code retryable x y now w a r b i q =
    let wt = claim-IsWellFormed p k l n s t (some j) a w in
    let wu = Run-IsWellFormed t u r wt in
    let wv = claim-IsWellFormed p' k' l' n' u v (some j') b wu in
    let ahead = Run-IsAhead j.id j.attempts t u r wt (claimed-IsAhead p k l n s t j w a) in
    let (row, m, h, e, f) = claimed_row p' k' l' n' u v j' wu b in
    let same : row.id ≡ j.id = ap (λ (o : Job). o.id) (sym f) ∙ i in
    let before = (drain-IsAhead j.id j.attempts p' n' u ahead).counted row m same in
    let count : j'.attempts ≡ row.attempts + 1 = ap (λ (o : Job). o.attempts) f in
    let there =
      rw i at (Run-IsAhead j'.id j'.attempts v z q wv (claimed-IsAhead p' k' l' n' u v j' wu b)) in
    let gone = unfenced j now z (record {
      exists = there.exists;
      counted = λ g o e. let c = there.counted g o e in omega arith;
    }) in
    (unfold fail in rw gone, unfold complete in rw gone)

-- In well-formed tables, the job that a claim returns is of the project, within its budget and
-- leased to the token; until the lease ends, the tables that the claim leaves accept the worker as
-- its holder.
pub claim_grants :
    (p k l n now : ℕ) (s t : Ledger) (j : Job)
    → IsWellFormed s
    → claim p k l n s ≡ some (t, some j)
    → now < n + l * second
    → (j.key.project_id ≡ p)
      × (j.lease_token ≡ some k)
      × (j.attempts ≤ j.max_attempts)
      × (j.max_attempts ≤ 30)
      × (fenced j now t ≡ true)
claim_grants p k l n now s t j w e live =
    let (row, m, h, a, b) = claimed_row p k l n s t j w e in
    let d = drain p n s in
    let wd = drain-IsWellFormed p n s w in
    let budget = (wd.budgeted row m).lifetime in
    let there = rewritten-Among (has_id row.id) (start k l n) d.jobs row m (ground arith) in
    rw (a, b)
      (
        ground arith,
        refl,
        ground arith,
        budget,
        unfold fenced in
            some_any (is_held (start k l n row) now) _ (start k l n row) there (ground arith),
      )

revived_row :
    (expected actor now : ℕ) (s t : Ledger) (row : Job) (b : Bool)
    → redrive_with expected actor now s (some row) ≡ (t, ok b)
    → (t ≡ s) × ((holds row.redrive_version (expected + 1) && holds row.redrive_actor actor) ≡ true)
      ⊎ (row.version ≡ expected)
        × (t ≡ record s { jobs = update (has_id row.id) (revive actor now) s.jobs })
unfolding redrive_with
revived_row expected actor now s t row b e = ground arith

-- A redrive may be repeated by its actor: where it succeeded, the same call succeeds again at once,
-- as already applied, and changes nothing.
pub redrive_repeats :
    (project id expected actor now now' : ℕ) (s t : Ledger) (b : Bool)
    → redrive project id expected actor now s ≡ (t, ok b)
    → redrive project id expected actor now' t ≡ (t, ok true)
unfolding redrive redrive_with
redrive_repeats project id expected actor now now' s t b e =
    let p = λ (j : Job). in_project project j && has_id id j in
    elim (Option-cases (fetch p s.jobs)) [
      | inl h ↦ cc (ap (λ (o : Ledger × Result Bool). o.1) (rw h at e))
      | inr (row, h) ↦ elim (revived_row expected actor now s t row b (rw h at e)) [
        | inl (same, held) ↦ rw (same, h, held)
        | inr (version, new) ↦
            let it = fetch-holds p s.jobs row h in
            let found =
              fetch-update_where p (has_id row.id) (revive actor now) s.jobs (λ r. refl) row h in
            let own : (row.id == row.id) ≡ true = ground arith in
            rw (new, rw own at found) (ground arith)
      ]
    ]

inserted_parts :
    {x y : Ledger} {a b : ℕ × Bool}
    → ◌≡◌ {A = Option (Ledger × (ℕ × Bool))} (some (x, a)) (some (y, b))
    → (x ≡ y) × (a ≡ b)
inserted_parts e = (cc, cc)

-- Enqueuing is idempotent: where a key has been enqueued, enqueuing it again at once, by anybody,
-- returns the same job as already existing, and changes nothing.
pub insert_repeats :
    (id now id' now' : ℕ) (key : JobKey) (x y x' y' : ℕ) (s t : Ledger) (i : ℕ) (b : Bool)
    → insert id now key x y s ≡ some (t, (i, b))
    → insert id' now' key x' y' t ≡ some (t, (i, true))
unfolding insert insert_with
insert_repeats id now id' now' key x y x' y' s t i b e =
    elim (Option-cases (fetch (has_key key) s.jobs)) [
      | inr (row, h) ↦
          let (a, c) = inserted_parts (rw h at e) in rw (← a, h, ← ap (λ (q : ℕ × Bool). q.0) c)
      | inl h ↦ elim (Bool-cases (any (has_id id) s.jobs)) [
        | inl taken ↦ cc (rw (h, taken) at e)
        | inr fresh ↦
            let found = fetch-insert (has_key key) s.jobs (new_job id now key x y) in
            let own : has_key key (new_job id now key x y) ≡ true = ground arith in
            let (a, c) = inserted_parts (rw (h, fresh) at e) in
            rw (← a, rw (h, own) at found, ← ap (λ (q : ℕ × Bool). q.0) c)
      ]
    ]
