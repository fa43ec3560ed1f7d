-- ===== src/Generation/Retried.antt =====
-- A job is not lost with its worker: the claims of isekai_memory/generation/queue.py after a lease.
use isekai_memory.Base.{
  ℕ, ◌+◌, ◌*◌, ◌≤◌, ◌<◌, ◌≡◌, ap, true, false, ◌⊎◌, inl, inr, some, List, [], ◌∷◌, All, arith,
  Bool-cases, Option-cases, select, ◌==◌,
}
use isekai_memory.Base.Sorted.{first, order_by, All-select, All-order_by, All-limit_to}
use isekai_memory.Base.Among.{
  Among, All-intro, All-Among, rewritten-Among, kept-Among, first-none, first-Among,
}
use isekai_memory.Base.Earliest.{first-before}
use isekai_memory.Generation.Jobs.{Job, Ledger, has_id, is_older}
use isekai_memory.Generation.Queue.{
  drain, bury, bury_all, is_exhausted, start, claim, is_runnable, second,
}
use isekai_memory.Generation.Invariant.{IsWellFormed}
use isekai_memory.Generation.Preserved.{drain-IsWellFormed}
use isekai_memory.Generation.Claiming.{claim-IsWellFormed, start_row}
use isekai_memory.Generation.Recorded.{started}
use isekai_memory.Generation.Workers.{claimed_row}

bury_all-kept :
    (now : ℕ) (x : Job) (rows : List Job) (s : Ledger)
    → All (λ r. has_id r.id x ≡ false) rows
    → Among x s.jobs
    → Among x (bury_all now rows s).jobs
unfolding bury_all
bury_all-kept now x [] s a m = m
bury_all-kept now x (row ∷ rows) s (h, a) m =
    bury_all-kept now x rows _ a (kept-Among (has_id row.id) bury s.jobs x m h)

-- Draining leaves alone what is not exhausted.
drain-kept :
    (project now : ℕ) (s : Ledger) (x : Job)
    → IsWellFormed s
    → Among x s.jobs
    → is_exhausted project now x ≡ false
    → Among x (drain project now s).jobs
unfolding drain
drain-kept project now s x w m h =
    bury_all-kept now x _ s
      (All-limit_to Other 100 _
        (All-order_by Other is_older (select (is_exhausted project now) s.jobs) others))
      m
  where
    Other : Job → Type 0
    Other r = has_id r.id x ≡ false

    other : (r : Job) → Among r s.jobs → is_exhausted project now r ≡ true → Other r
    other r n k = elim (Bool-cases (has_id r.id x)) [
      | inr f ↦ f
      | inl e ↦ let same : x ≡ r = w.keyed x r m n (ground arith) in cc (rw (← same) at k, h)
    ]

    others : All Other (select (is_exhausted project now) s.jobs)
    others =
        let p = is_exhausted project now in
        let chosen = All-select (λ r. Among r s.jobs) p s.jobs (All-intro _ s.jobs (λ r n. n)) in
        All-intro Other (select p s.jobs) (λ r n.
          let (q, k) =
            All-Among (λ r. Among r s.jobs × (p r ≡ true)) (select p s.jobs) r chosen n in
          other r q k)

is_older_irrefl : (x : Job) → is_older x x ≡ false
is_older_irrefl x = ground arith

is_older_trans : (x y z : Job) → is_older x y ≡ true → is_older y z ≡ true → is_older x z ≡ true
is_older_trans x y z h k = ground arith

-- The claimed row, in the tables that the claim leaves.
claimed-Among :
    (p k l n : ℕ) (s t : Ledger) (j : Job)
    → IsWellFormed s
    → claim p k l n s ≡ some (t, some j)
    → Among j t.jobs × ((row : Job) × (is_runnable p n row ≡ true) × (j ≡ start k l n row))
claimed-Among p k l n s t j w e =
    let (row, m, h, a, b) = claimed_row p k l n s t j w e in
    let there =
      rewritten-Among (has_id row.id) (start k l n) (drain p n s).jobs row m (ground arith) in
    (rw (a, b) there, (row, h, b))

-- A lease that has ended can be claimed, while attempts are left.
ended-is_runnable :
    (p k l n n' : ℕ) (row : Job)
    → is_runnable p n row ≡ true
    → (start k l n row).attempts < row.max_attempts
    → n + l * second ≤ n'
    → is_runnable p n' (start k l n row) ≡ true
ended-is_runnable p k l n n' row h a past = ground arith

-- The job itself in its next attempt, or one in front of it.
abbrev pub IsNext : Job → Job → Type 0
IsNext j j' = (j'.id ≡ j.id) × (j'.attempts ≡ j.attempts + 1) ⊎ (is_older j' j ≡ true)

start-IsNext :
    (k l n : ℕ) (j row : Job) (s : Ledger)
    → IsWellFormed s
    → Among j s.jobs
    → Among row s.jobs
    → is_older j row ≡ false
    → IsNext j (start k l n row)
start-IsNext k l n j row s w m o h = elim (Bool-cases (row.id == j.id)) [
  | inl e ↦
      let same : row ≡ j = w.keyed row j o m (ground arith) in
      let count = ap (λ (x : Job). x.attempts) same in inl (ground arith, omega arith)
  | inr e ↦ inr (ground arith)
]

-- No job is lost with its worker: where a claim returned a job that has attempts left and nobody has
-- touched the tables since, then from the end of its lease a claim in the project, by anybody, returns a
-- job: that one, in its next attempt, or one in front of it in the queue. From well-formed tables.
pub crashed_job_retried :
    (p k l n k' l' n' : ℕ) (s t : Ledger) (j : Job)
    → IsWellFormed s
    → claim p k l n s ≡ some (t, some j)
    → j.attempts < j.max_attempts
    → n + l * second ≤ n'
    → (u : Ledger) × (j' : Job) × (claim p k' l' n' t ≡ some (u, some j')) × IsNext j j'
unfolding claim
crashed_job_retried p k l n k' l' n' s t j w e left past =
    let (there, (old, h, b)) = claimed-Among p k l n s t j w e in
    let wt = claim-IsWellFormed p k l n s t (some j) e w in
    let d = drain p n' t in
    let wd = drain-IsWellFormed p n' t wt in
    let runs : is_runnable p n' j ≡ true =
      rw b (ended-is_runnable p k l n n' old h (rw b at left) past) in
    let kept : Among j d.jobs = drain-kept p n' t j wt there (ground arith) in
    elim (Option-cases (first (order_by is_older (select (is_runnable p n') d.jobs)))) [
      | inl f ↦ cc (first-none is_older (is_runnable p n') d.jobs j f kept, runs)
      | inr (row, f) ↦
          let (m, _) = first-Among is_older (is_runnable p n') d.jobs row f in
          let front =
            first-before is_older is_older_irrefl is_older_trans (is_runnable p n') d.jobs row j f
              kept runs in
          (
            started k' l' n' d row,
            start k' l' n' row,
            rw f (start_row k' l' n' d row wd m),
            start-IsNext k' l' n' j row d wd kept m front,
          )
    ]
