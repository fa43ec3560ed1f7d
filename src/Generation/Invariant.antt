-- ===== src/Generation/Invariant.antt =====
-- What holds of the generation tables after any operations.
use isekai_memory.Base.{
  ℕ, ◌≤◌, ◌≡◌, refl, sym, ◌∙◌, ap, Bool, true, false, inl, inr, List, arith, Bool-cases,
  if◌then◌else◌, any, is_some, ◌==◌,
}
use isekai_memory.Base.Table.{update, any-update}
use isekai_memory.Base.Among.{Among, update-Among}
use isekai_memory.Generation.Jobs.{Job, Attempt, Ledger, running, has_id, has_status}
use isekai_memory.Generation.Queue.{finish_attempt, is_open_try}

-- The retry budget, and the check constraint on the lease.
pub record IsBudgeted (j : Job) : Type 0 where
  pub within : j.attempts ≤ j.max_attempts
  pub lifetime : j.max_attempts ≤ 30
  pub token : is_some j.lease_token ≡ has_status running j
  pub deadline : is_some j.lease_until ≡ has_status running j

-- The identifier is a key, every job is within its budget, and every attempt that is recorded is of
-- a job that has counted it.
pub record IsWellFormed (s : Ledger) : Type 0 where
  pub keyed : (x y : Job) → Among x s.jobs → Among y s.jobs → x.id ≡ y.id → x ≡ y
  pub budgeted : (x : Job) → Among x s.jobs → IsBudgeted x
  pub counted :
      (a : Attempt) (x : Job)
      → Among a s.tries
      → Among x s.jobs
      → a.job_id ≡ x.id
      → a.attempt ≤ x.attempts
  pub referenced : (a : Attempt) → Among a s.tries → any (has_id a.job_id) s.jobs ≡ true

-- Every attempt of `u` is one of `t`, perhaps finished.
abbrev pub SameTries : List Attempt → List Attempt → Type 0
SameTries t u =
    (a : Attempt)
    → Among a u
    → (b : Attempt) × Among b t × (b.job_id ≡ a.job_id) × (b.attempt ≡ a.attempt)

pub finish_attempt-SameTries :
    (job attempt code i o now : ℕ) (t : List Attempt)
    → SameTries t (finish_attempt job attempt code i o now t)
finish_attempt-SameTries job attempt code i o now t a m =
    let (b, n, e) = update-Among (is_open_try job attempt) _ t a m in
    elim (Bool-cases (is_open_try job attempt b)) [
      | inl h ↦ (b, n, rw (e, h), rw (e, h))
      | inr h ↦ (b, n, rw (e, h), rw (e, h))
    ]

-- A rewriting of jobs that keeps ids, lowers no count and respects the budget.
pub record IsSound (f : Job → Job) : Type 0 where
  pub same_id : (x : Job) → (f x).id ≡ x.id
  pub counts_on : (x : Job) → x.attempts ≤ (f x).attempts

rewritten_id : (f : Job → Job) (b : Bool) (x : Job) → IsSound f → (if b then f x else x).id ≡ x.id
rewritten_id f true x k = k.same_id x
rewritten_id f false x k = refl

rewritten_count :
    (f : Job → Job) (b : Bool) (x : Job) → IsSound f → x.attempts ≤ (if b then f x else x).attempts
rewritten_count f true x k = k.counts_on x
rewritten_count f false x k = omega arith

pub rewrite-keyed :
    (p : Job → Bool) (f : Job → Job) (s : Ledger) (x y : Job)
    → IsWellFormed s
    → IsSound f
    → Among x (update p f s.jobs)
    → Among y (update p f s.jobs)
    → x.id ≡ y.id
    → x ≡ y
rewrite-keyed p f s x y w k m n e =
    let (x', m', a) = update-Among p f s.jobs x m in
    let (y', n', b) = update-Among p f s.jobs y n in
    let i = ap (λ (j : Job). j.id) a ∙ rewritten_id f (p x') x' k in
    let j = ap (λ (j : Job). j.id) b ∙ rewritten_id f (p y') y' k in
    let same = w.keyed x' y' m' n' (sym i ∙ (e ∙ j)) in
    a ∙ (ap (λ (z : Job). if p z then f z else z) same ∙ sym b)

-- Such a rewriting, with attempts finished, keeps the tables well-formed.
pub rewrite-IsWellFormed :
    (p : Job → Bool) (f : Job → Job) (s : Ledger) (u : List Attempt)
    → IsWellFormed s
    → IsSound f
    → ((x : Job) → Among x s.jobs → p x ≡ true → IsBudgeted (f x))
    → SameTries s.tries u
    → IsWellFormed (record { jobs = update p f s.jobs; tries = u })
rewrite-IsWellFormed p f s u w k bud same = record {
  keyed = λ x y m n e. rewrite-keyed p f s x y w k m n e;
  budgeted = λ x m.
      let (x', m', a) = update-Among p f s.jobs x m in
      rw a
        (elim (Bool-cases (p x')) [ inl h ↦ rw h (bud x' m' h) | inr h ↦ rw h (w.budgeted x' m') ]);
  counted = λ a x m n e.
      let (b, o, i, c) = same a m in
      let (x', n', q) = update-Among p f s.jobs x n in
      let d =
        w.counted b x' o n' (i ∙ (e ∙ (ap (λ (j : Job). j.id) q ∙ rewritten_id f (p x') x' k))) in
      let more = rewritten_count f (p x') x' k in
      let less : (if p x' then f x' else x').attempts ≡ x.attempts =
        ap (λ (j : Job). j.attempts) (sym q) in
      omega arith;
  referenced = λ a m.
      let (b, o, i, c) = same a m in
      any-update (has_id a.job_id) p f s.jobs (λ x. ap (λ (n : ℕ). n == a.job_id) (k.same_id x))
      ∙ rw i at (w.referenced b o);
}
