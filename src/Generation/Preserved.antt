-- ===== src/Generation/Preserved.antt =====
-- Failing, completing, draining and redriving keep the generation tables well-formed.
use isekai_memory.Base.{
  ℕ, ◌≡◌, refl, ◌∙◌, Bool, true, false, ◌⊎◌, inl, inr, some, List, [], ◌∷◌, ◌++◌, arith, Bool-cases,
  Option-cases, any, ◌&&◌,
}
use isekai_memory.Base.Table.{fetch, update}
use isekai_memory.Base.Among.{Among, fetch-Among}
use isekai_memory.Base.Outcome.{ok}
use isekai_memory.Generation.Jobs.{
  Job, JobKey, Attempt, Ledger, running, has_id, has_status, has_key, in_project,
}
use isekai_memory.Generation.Queue.{
  bury, bury_all, drain, new_job, finish_attempt, insert, insert_with, fail, give_back, is_retried,
  complete, succeed, redrive, redrive_with, revive, fenced, lease_expired,
}
use isekai_memory.Generation.Invariant.{
  IsBudgeted, IsWellFormed, IsSound, SameTries, finish_attempt-SameTries, rewrite-IsWellFormed,
}

pub same_tries : (t : List Attempt) → SameTries t t
same_tries t a m = (a, m, refl, refl)

settled-IsWellFormed :
    (i : ℕ) (f : Job → Job) (s : Ledger) (attempt code x y now : ℕ)
    → IsWellFormed s
    → IsSound f
    → ((j : Job) → IsBudgeted j → IsBudgeted (f j))
    → IsWellFormed (record {
      jobs = update (has_id i) f s.jobs;
      tries = finish_attempt i attempt code x y now s.tries;
    })
settled-IsWellFormed i f s attempt code x y now w k bud =
    rewrite-IsWellFormed (has_id i) f s _ w k (λ j m h. bud j (w.budgeted j m))
      (finish_attempt-SameTries i attempt code x y now s.tries)

bury-IsBudgeted : (j : Job) → IsBudgeted j → IsBudgeted (bury j)
bury-IsBudgeted j b = record {
  within = b.within;
  lifetime = b.lifetime;
  token = refl;
  deadline = refl;
}

succeed-IsBudgeted : (j : Job) → IsBudgeted j → IsBudgeted (succeed j)
succeed-IsBudgeted j b = record {
  within = b.within;
  lifetime = b.lifetime;
  token = refl;
  deadline = refl;
}

give_back-IsBudgeted :
    (retry : Bool) (code n now : ℕ) (j : Job)
    → IsBudgeted j
    → IsBudgeted (give_back retry code n now j)
give_back-IsBudgeted true code n now j b = record {
  within = b.within;
  lifetime = b.lifetime;
  token = refl;
  deadline = refl;
}
give_back-IsBudgeted false code n now j b = record {
  within = b.within;
  lifetime = b.lifetime;
  token = refl;
  deadline = refl;
}

bury_all-IsWellFormed :
    (now : ℕ) (rows : List Job) (s : Ledger) → IsWellFormed s → IsWellFormed (bury_all now rows s)
unfolding bury_all
bury_all-IsWellFormed now [] s w = w
bury_all-IsWellFormed now (row ∷ rows) s w = bury_all-IsWellFormed now rows _ (
    settled-IsWellFormed row.id bury s row.attempts lease_expired 0 0 now w
      (record { same_id = λ x. refl; counts_on = λ x. omega arith }) bury-IsBudgeted)

pub drain-IsWellFormed :
    (project now : ℕ) (s : Ledger) → IsWellFormed s → IsWellFormed (drain project now s)
unfolding drain
drain-IsWellFormed project now s w = bury_all-IsWellFormed now _ s w

pub fail-IsWellFormed :
    (job : Job) (code : ℕ) (retryable : Bool) (x y now : ℕ) (s : Ledger)
    → IsWellFormed s
    → IsWellFormed (fail job code retryable x y now s).0
unfolding fail
fail-IsWellFormed job code retryable x y now s w = elim (Bool-cases (fenced job now s)) [
  | inr h ↦ rw h w
  | inl h ↦ rw h (
      settled-IsWellFormed job.id (give_back (is_retried job retryable) code job.attempts now) s
        job.attempts code x y now w (record { same_id = λ j. refl; counts_on = λ j. omega arith })
        (give_back-IsBudgeted (is_retried job retryable) code job.attempts now))
]

pub complete-IsWellFormed :
    (job : Job) (code x y now : ℕ) (s : Ledger)
    → IsWellFormed s
    → IsWellFormed (complete job code x y now s).0
unfolding complete
complete-IsWellFormed job code x y now s w = elim (Bool-cases (fenced job now s)) [
  | inr h ↦ rw h w
  | inl h ↦ rw h (
      settled-IsWellFormed job.id succeed s job.attempts code x y now w
        (record { same_id = λ j. refl; counts_on = λ j. omega arith }) succeed-IsBudgeted)
]

redrive_row-cases :
    (expected actor now : ℕ) (s : Ledger) (row : Job)
    → ((redrive_with expected actor now s (some row)).0 ≡ s)
      ⊎ (has_status running row ≡ false)
        × (redrive_with expected actor now s (some row)
            ≡ (record s { jobs = update (has_id row.id) (revive actor now) s.jobs }, ok false))
unfolding redrive_with
redrive_row-cases expected actor now s row = ground arith

-- A redrive leaves the tables alone, or revives a row that is not running.
pub redrive-cases :
    (project id expected actor now : ℕ) (s : Ledger)
    → ((redrive project id expected actor now s).0 ≡ s)
      ⊎ (row : Job) × Among row s.jobs
        × (has_status running row ≡ false)
        × ((redrive project id expected actor now s)
            ≡ (record s { jobs = update (has_id row.id) (revive actor now) s.jobs }, ok false))
unfolding redrive redrive_with
redrive-cases project id expected actor now s =
    let p = λ (j : Job). in_project project j && has_id id j in
    elim (Option-cases (fetch p s.jobs)) [
      | inl e ↦ inl (rw e)
      | inr (row, e) ↦ elim (redrive_row-cases expected actor now s row) [
        | inl h ↦ inl (rw e h)
        | inr (h, k) ↦ inr (row, fetch-Among p s.jobs row e, h, rw e k)
      ]
    ]

revive-IsBudgeted :
    (actor now : ℕ) (j : Job)
    → has_status running j ≡ false
    → IsBudgeted j
    → IsBudgeted (revive actor now j)
revive-IsBudgeted actor now j h b =
    let w = b.within in
    let l = b.lifetime in
    record {
      within = omega arith;
      lifetime = omega arith;
      token = b.token ∙ h;
      deadline = b.deadline ∙ h;
    }

pub revive-IsSound : (actor now : ℕ) → IsSound (revive actor now)
revive-IsSound actor now = record { same_id = λ j. refl; counts_on = λ j. omega arith }

pub redrive-IsWellFormed :
    (project id expected actor now : ℕ) (s : Ledger)
    → IsWellFormed s
    → IsWellFormed (redrive project id expected actor now s).0
redrive-IsWellFormed project id expected actor now s w =
    elim (redrive-cases project id expected actor now s) [
      | inl e ↦ rw e w
      | inr (row, m, h, e) ↦ rw e (
          rewrite-IsWellFormed (has_id row.id) (revive actor now) s s.tries w
            (revive-IsSound actor now)
            (λ x n i.
              let same : x ≡ row = w.keyed x row n m (ground arith) in
              rw same (revive-IsBudgeted actor now row h (w.budgeted row m)))
            (same_tries s.tries))
    ]

pub new_job-IsBudgeted : (id now : ℕ) (key : JobKey) (x y : ℕ) → IsBudgeted (new_job id now key x y)
new_job-IsBudgeted id now key x y = record {
  within = omega arith;
  lifetime = omega arith;
  token = refl;
  deadline = refl;
}

-- An insertion finds a row of the key, or adds one whose identifier is new.
pub insert-cases :
    (id now : ℕ) (key : JobKey) (x y : ℕ) (s t : Ledger) (a : ℕ × Bool)
    → insert id now key x y s ≡ some (t, a)
    → (t ≡ s)
      ⊎ (any (has_id id) s.jobs ≡ false)
        × (t ≡ record s { jobs = s.jobs ++ (new_job id now key x y ∷ []) })
unfolding insert insert_with
insert-cases id now key x y s t a e = elim (Option-cases (fetch (has_key key) s.jobs)) [
  | inr (row, h) ↦ inl (cc (rw h at e))
  | inl h ↦ elim (Bool-cases (any (has_id id) s.jobs)) [
    | inl k ↦ cc (rw (h, k) at e)
    | inr k ↦ inr (k, cc (rw (h, k) at e))
  ]
]
