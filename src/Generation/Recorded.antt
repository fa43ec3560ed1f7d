-- ===== src/Generation/Recorded.antt =====
-- A new job and a new attempt fit into well-formed tables.
use isekai_memory.Base.{
  ℕ, ◌+◌, ◌≡◌, refl, sym, ◌∙◌, ap, Bool, true, false, inl, inr, some, List, [], ◌∷◌, ◌++◌, arith,
  Bool-cases, if◌then◌else◌, any,
}
use isekai_memory.Base.Table.{update, any-append}
use isekai_memory.Base.Among.{Among, insert-Among, any_none, none_any}
use isekai_memory.Generation.Jobs.{Job, JobKey, Attempt, Ledger, running, has_id, has_status}
use isekai_memory.Generation.Queue.{
  start, new_try, new_job, is_try, finish_attempt, insert, lease_expired,
}
use isekai_memory.Generation.Invariant.{IsWellFormed, IsSound, SameTries, finish_attempt-SameTries}
use isekai_memory.Generation.Preserved.{same_tries, new_job-IsBudgeted, insert-cases}

pub insert-IsWellFormed :
    (id now : ℕ) (key : JobKey) (x y : ℕ) (s t : Ledger) (a : ℕ × Bool)
    → insert id now key x y s ≡ some (t, a)
    → IsWellFormed s
    → IsWellFormed t
insert-IsWellFormed id now key x y s t a e w = elim (insert-cases id now key x y s t a e) [
  | inl q ↦ rw q w
  | inr (fresh, q) ↦
      let new = new_job id now key x y in
      let old = λ (j : Job) (m : Among j s.jobs). any_none (has_id id) s.jobs j fresh m in
      rw q (record {
        keyed = λ i j m n k. elim (insert-Among s.jobs new i m) [
          | inl m' ↦ elim (insert-Among s.jobs new j n) [
            | inl n' ↦ w.keyed i j m' n' k
            | inr f ↦ absurd (not_new i j new (old i m') f k)
          ]
          | inr f ↦ elim (insert-Among s.jobs new j n) [
            | inl n' ↦ absurd (not_new j i new (old j n') f (sym k))
            | inr g ↦ f ∙ sym g
          ]
        ];
        budgeted = λ j m. elim (insert-Among s.jobs new j m) [
          | inl m' ↦ w.budgeted j m'
          | inr f ↦ rw f (new_job-IsBudgeted id now key x y)
        ];
        counted = λ b j m n k. elim (insert-Among s.jobs new j n) [
          | inl n' ↦ w.counted b j m n' k
          | inr f ↦
              let known = w.referenced b m in
              let i : b.job_id ≡ id = k ∙ ap (λ (z : Job). z.id) f in cc (rw i at known, fresh)
        ];
        referenced = λ b m. any-append (has_id b.job_id) s.jobs new (w.referenced b m);
      })
]
  where
    not_new : (i j new : Job) → has_id new.id i ≡ false → j ≡ new → i.id ≡ j.id → ⊥
    not_new i j new h f k = let q : i.id ≡ new.id = k ∙ ap (λ (z : Job). z.id) f in ground arith

-- The rows that a claim writes, where it finds a runnable one.
abbrev pub started : ℕ → ℕ → ℕ → Ledger → Job → Ledger
started token l now s row = record {
  jobs = update (has_id row.id) (start token l now) s.jobs;
  tries =
      (if has_status running row
        then finish_attempt row.id row.attempts lease_expired 0 0 now s.tries
        else s.tries)
      ++ (new_try (start token l now row) ∷ []);
}

pub ended-SameTries :
    (b : Bool) (row : Job) (now : ℕ) (t : List Attempt)
    → SameTries t (if b then finish_attempt row.id row.attempts lease_expired 0 0 now t else t)
ended-SameTries true row now t =
    finish_attempt-SameTries row.id row.attempts lease_expired 0 0 now t
ended-SameTries false row now t = same_tries t

pub start-IsSound : (token l now : ℕ) → IsSound (start token l now)
start-IsSound token l now = record { same_id = λ j. refl; counts_on = λ j. omega arith }

-- The attempt that a claim records is a new one.
pub no_collision :
    (s : Ledger) (row : Job) (t : List Attempt)
    → IsWellFormed s
    → Among row s.jobs
    → SameTries s.tries t
    → any (is_try row.id (row.attempts + 1)) t ≡ false
no_collision s row t w m same = none_any (is_try row.id (row.attempts + 1)) t (λ a n.
    let (b, o, i, c) = same a n in
    elim (Bool-cases (is_try row.id (row.attempts + 1) a)) [
      | inr h ↦ h
      | inl h ↦
          let j : a.job_id ≡ row.id = ground arith in
          let k : a.attempt ≡ row.attempts + 1 = ground arith in
          let d = w.counted b row o m (i ∙ j) in absurd (omega (arith, c, k, d))
    ])
