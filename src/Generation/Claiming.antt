-- ===== src/Generation/Claiming.antt =====
-- `claim`: in well-formed tables it never fails, and what it grants.
use isekai_memory.Base.{
  ℕ, ◌+◌, ◌≤◌, ◌≡◌, refl, sym, ◌∙◌, ap, true, ◌⊎◌, inl, inr, Option, none, some, arith, Bool-cases,
  Option-cases, if◌then◌else◌, select, is_some,
}
use isekai_memory.Base.Table.{update, any-update}
use isekai_memory.Base.Sorted.{first, order_by}
use isekai_memory.Base.Among.{Among, update-Among, insert-Among, first-Among, some_any}
use isekai_memory.Generation.Jobs.{Job, Attempt, Ledger, running, has_id, has_status, is_older}
use isekai_memory.Generation.Queue.{
  drain, start, start_with, claim, is_runnable, new_try, finish_attempt, lease_expired,
}
use isekai_memory.Generation.Invariant.{IsBudgeted, IsWellFormed, rewrite-IsWellFormed}
use isekai_memory.Generation.Preserved.{drain-IsWellFormed}
use isekai_memory.Generation.Recorded.{started, no_collision, ended-SameTries, start-IsSound}

pub start_row :
    (token l now : ℕ) (s : Ledger) (row : Job)
    → IsWellFormed s
    → Among row s.jobs
    → start_with token l now s (some row)
      ≡ some (started token l now s row, some (start token l now row))
unfolding start_with
start_row token l now s row w m =
    let free =
      no_collision s row _ w m (ended-SameTries (has_status running row) row now s.tries) in
    rw free

-- A claim finds nothing to run, or starts the oldest runnable job.
pub claim-cases :
    (project token l now : ℕ) (s : Ledger)
    → IsWellFormed s
    → let d = drain project now s in
      (claim project token l now s ≡ some (d, none))
      ⊎ (row : Job) × Among row d.jobs
        × (is_runnable project now row ≡ true)
        × (claim project token l now s
            ≡ some (started token l now d row, some (start token l now row)))
unfolding claim start_with
claim-cases project token l now s w =
    let d = drain project now s in
    elim (Option-cases (first (order_by is_older (select (is_runnable project now) d.jobs)))) [
      | inl e ↦ inl (rw e)
      | inr (row, e) ↦
          let (m, h) = first-Among is_older (is_runnable project now) d.jobs row e in
          inr (row, m, h, rw e (start_row token l now d row (drain-IsWellFormed project now s w) m))
    ]

start-IsBudgeted :
    (project token l now : ℕ) (j : Job)
    → is_runnable project now j ≡ true
    → IsBudgeted j
    → IsBudgeted (start token l now j)
start-IsBudgeted project token l now j h b = record {
  within = ground arith;
  lifetime = b.lifetime;
  token = refl;
  deadline = refl;
}

-- Every row of the started job counts one more attempt.
pub started_count :
    (token l now : ℕ) (s : Ledger) (row x : Job)
    → IsWellFormed s
    → Among row s.jobs
    → Among x (update (has_id row.id) (start token l now) s.jobs)
    → row.id ≡ x.id
    → row.attempts + 1 ≤ x.attempts
started_count token l now s row x w m o i =
    let (x', n, e) = update-Among (has_id row.id) (start token l now) s.jobs x o in
    elim (Bool-cases (has_id row.id x')) [
      | inl g ↦
          let same : x' ≡ row = w.keyed x' row n m (ground arith) in
          let c : x.attempts ≡ x'.attempts + 1 = ap (λ (j : Job). j.attempts) (rw g at e) in
          let d = ap (λ (j : Job). j.attempts) same in omega arith
      | inr g ↦ let j : x.id ≡ x'.id = ap (λ (z : Job). z.id) (rw g at e) in ground arith
    ]

-- The row that a claim starts, with its attempt recorded, keeps the tables well-formed.
pub started-IsWellFormed :
    (project token l now : ℕ) (s : Ledger) (row : Job)
    → IsWellFormed s
    → Among row s.jobs
    → is_runnable project now row ≡ true
    → IsWellFormed (started token l now s row)
started-IsWellFormed project token l now s row w m h =
    let ended =
      if has_status running row
      then finish_attempt row.id row.attempts lease_expired 0 0 now s.tries
      else s.tries in
    let f = start token l now in
    let base =
      rewrite-IsWellFormed (has_id row.id) f s ended w (start-IsSound token l now)
        (λ x n i.
          let same : x ≡ row = w.keyed x row n m (ground arith) in
          rw same (start-IsBudgeted project token l now row h (w.budgeted row m)))
        (ended-SameTries (has_status running row) row now s.tries) in
    record {
      keyed = base.keyed;
      budgeted = base.budgeted;
      counted = λ a x n o k. elim (insert-Among ended (new_try (f row)) a n) [
        | inl n' ↦ base.counted a x n' o k
        | inr e ↦
            let i : row.id ≡ x.id = ap (λ (z : Attempt). z.job_id) (sym e) ∙ k in
            let c : a.attempt ≡ row.attempts + 1 = ap (λ (z : Attempt). z.attempt) e in
            let d = started_count token l now s row x w m o i in omega arith
      ];
      referenced = λ a n. elim (insert-Among ended (new_try (f row)) a n) [
        | inl n' ↦ base.referenced a n'
        | inr e ↦
            let i : a.job_id ≡ row.id = ap (λ (z : Attempt). z.job_id) e in
            any-update (has_id a.job_id) (has_id row.id) f s.jobs (λ x. refl)
            ∙ some_any (has_id a.job_id) s.jobs row m (ground arith)
      ];
    }

-- In well-formed tables a claim never fails on the key of the attempts.
pub claim_total :
    (project token l now : ℕ) (s : Ledger)
    → IsWellFormed s
    → is_some (claim project token l now s) ≡ true
claim_total project token l now s w = elim (claim-cases project token l now s w) [
  | inl e ↦ rw e
  | inr (_, _, _, e) ↦ rw e
]

pub claim-IsWellFormed :
    (project token l now : ℕ) (s t : Ledger) (o : Option Job)
    → claim project token l now s ≡ some (t, o)
    → IsWellFormed s
    → IsWellFormed t
claim-IsWellFormed project token l now s t o e w =
    let d = drain-IsWellFormed project now s w in
    elim (claim-cases project token l now s w) [
      | inl q ↦ rw (← left (sym q ∙ e)) d
      | inr (row, m, h, q) ↦
          rw (← left (sym q ∙ e)) (started-IsWellFormed project token l now _ row d m h)
    ]
  where
    left :
        {x y : Ledger} {a b : Option Job}
        → ◌≡◌ {A = Option (Ledger × Option Job)} (some (x, a)) (some (y, b))
        → x ≡ y
    left e = cc
