-- ===== src/Generation/Fencing.antt =====
-- Runs of the queue's operations: what every run keeps, and the fencing of workers.
use isekai_memory.Base.{
  ℕ, ◌≤◌, ◌≡◌, refl, sym, ◌∙◌, ap, Bool, true, inl, inr, Option, some, List, [], ◌∷◌, arith,
  Bool-cases, any, ◌==◌,
}
use isekai_memory.Base.Table.{update, any-update, any-append}
use isekai_memory.Base.Among.{Among, update-Among, insert-Among}
use isekai_memory.Generation.Jobs.{Job, JobKey, Attempt, Ledger, has_id}
use isekai_memory.Generation.Queue.{
  bury, bury_all, drain, start, claim, insert, new_job, fail, give_back, is_retried, complete,
  succeed, redrive, revive, fenced,
}
use isekai_memory.Generation.Invariant.{IsWellFormed, IsSound}
use isekai_memory.Generation.Preserved.{
  fail-IsWellFormed, complete-IsWellFormed, redrive-IsWellFormed, redrive-cases, insert-cases,
  revive-IsSound,
}
use isekai_memory.Generation.Recorded.{insert-IsWellFormed, start-IsSound}
use isekai_memory.Generation.Claiming.{claim-cases, claim-IsWellFormed}

-- A call of an operation.
pub data Step (s t : Ledger) : Type 0 where
  inserts :
      (id now : ℕ) (key : JobKey) (parameters actor : ℕ) (a : ℕ × Bool)
      → insert id now key parameters actor s ≡ some (t, a)
      → Step s t
  claims :
      (project token lease_seconds now : ℕ) (o : Option Job)
      → claim project token lease_seconds now s ≡ some (t, o)
      → Step s t
  fails :
      (job : Job) (code : ℕ) (retryable : Bool) (x y now : ℕ)
      → t ≡ (fail job code retryable x y now s).0
      → Step s t
  completes : (job : Job) (code x y now : ℕ) → t ≡ (complete job code x y now s).0 → Step s t
  redrives :
      (project id expected actor now : ℕ)
      → t ≡ (redrive project id expected actor now s).0
      → Step s t

pub data Run (s : Ledger) : Ledger → Type 0 where
  still : Run s s
  and_then : {t u : Ledger} → Run s t → Step t u → Run s u

Step-IsWellFormed : (s t : Ledger) → Step s t → IsWellFormed s → IsWellFormed t
Step-IsWellFormed s t (inserts i n k x y a e) w = insert-IsWellFormed i n k x y s t a e w
Step-IsWellFormed s t (claims p k l n o e) w = claim-IsWellFormed p k l n s t o e w
Step-IsWellFormed s t (fails j c r x y n e) w = rw e (fail-IsWellFormed j c r x y n s w)
Step-IsWellFormed s t (completes j c x y n e) w = rw e (complete-IsWellFormed j c x y n s w)
Step-IsWellFormed s t (redrives p i v a n e) w = rw e (redrive-IsWellFormed p i v a n s w)

-- From well-formed tables, such as empty ones, every run of the operations leads to well-formed
-- tables: identifiers are keys, each job has made at most `max_attempts` of at most 30 attempts and
-- holds a lease exactly while it runs, and every recorded attempt is one that its job has counted.
pub Run-IsWellFormed : (s t : Ledger) → Run s t → IsWellFormed s → IsWellFormed t
Run-IsWellFormed s _ still w = w
Run-IsWellFormed s _ (and_then {t = t} {u = u} r x) w =
    Step-IsWellFormed t u x (Run-IsWellFormed s t r w)

-- The job exists, and has counted at least `n` attempts.
pub record IsAhead (i n : ℕ) (s : Ledger) : Type 0 where
  pub exists : any (has_id i) s.jobs ≡ true
  pub counted : (x : Job) → Among x s.jobs → x.id ≡ i → n ≤ x.attempts

rewrite-IsAhead :
    (i n : ℕ) (p : Job → Bool) (f : Job → Job) (s : Ledger) (u : List Attempt)
    → IsSound f
    → IsAhead i n s
    → IsAhead i n (record { jobs = update p f s.jobs; tries = u })
rewrite-IsAhead i n p f s u k a = record {
  exists = any-update (has_id i) p f s.jobs (λ x. ap (λ (m : ℕ). m == i) (k.same_id x)) ∙ a.exists;
  counted = λ x m e.
      let (y, o, q) = update-Among p f s.jobs x m in
      elim (Bool-cases (p y)) [
        | inl h ↦
            let same = ap (λ (j : Job). j.id) (rw h at q) in
            let c = a.counted y o (sym (k.same_id y) ∙ (sym same ∙ e)) in
            let d = k.counts_on y in
            let count : x.attempts ≡ (f y).attempts = ap (λ (j : Job). j.attempts) (rw h at q) in
            omega arith
        | inr h ↦
            let same : x.id ≡ y.id = ap (λ (j : Job). j.id) (rw h at q) in
            let c = a.counted y o (sym same ∙ e) in
            let count : x.attempts ≡ y.attempts = ap (λ (j : Job). j.attempts) (rw h at q) in
            omega arith
      ];
}

bury_all-IsAhead :
    (i n now : ℕ) (rows : List Job) (s : Ledger) → IsAhead i n s → IsAhead i n (bury_all now rows s)
unfolding bury_all
bury_all-IsAhead i n now [] s a = a
bury_all-IsAhead i n now (row ∷ rows) s a = bury_all-IsAhead i n now rows _ (
    rewrite-IsAhead i n (has_id row.id) bury s _
      (record { same_id = λ x. refl; counts_on = λ x. omega arith }) a)

pub drain-IsAhead :
    (i n project now : ℕ) (s : Ledger) → IsAhead i n s → IsAhead i n (drain project now s)
unfolding drain
drain-IsAhead i n project now s a = bury_all-IsAhead i n now _ s a

pub claimed_tables :
    {x y : Ledger} {a b : Option Job}
    → ◌≡◌ {A = Option (Ledger × Option Job)} (some (x, a)) (some (y, b))
    → (x ≡ y) × (a ≡ b)
claimed_tables e = (cc, cc)

claim-IsAhead :
    (i n p k l now : ℕ) (s t : Ledger) (o : Option Job)
    → claim p k l now s ≡ some (t, o)
    → IsWellFormed s
    → IsAhead i n s
    → IsAhead i n t
claim-IsAhead i n p k l now s t o e w a =
    let d = drain-IsAhead i n p now s a in
    elim (claim-cases p k l now s w) [
      | inl q ↦ rw (← (claimed_tables (sym q ∙ e)).0) d
      | inr (row, m, h, q) ↦ rw (← (claimed_tables (sym q ∙ e)).0) (
          rewrite-IsAhead i n (has_id row.id) (start k l now) (drain p now s) _
            (start-IsSound k l now) d)
    ]

insert-IsAhead :
    (i n id now : ℕ) (key : JobKey) (x y : ℕ) (s t : Ledger) (a : ℕ × Bool)
    → insert id now key x y s ≡ some (t, a)
    → IsAhead i n s
    → IsAhead i n t
insert-IsAhead i n id now key x y s t a e h = elim (insert-cases id now key x y s t a e) [
  | inl q ↦ rw q h
  | inr (fresh, q) ↦ rw q (record {
    exists = any-append (has_id i) s.jobs (new_job id now key x y) h.exists;
    counted = λ j m k. elim (insert-Among s.jobs (new_job id now key x y) j m) [
      | inl m' ↦ h.counted j m' k
      | inr f ↦
          let same : i ≡ id = sym k ∙ ap (λ (z : Job). z.id) f in
          let known = h.exists in cc (rw same at known, fresh)
    ];
  })
]

fail-IsAhead :
    (i n : ℕ) (job : Job) (code : ℕ) (retryable : Bool) (x y now : ℕ) (s : Ledger)
    → IsAhead i n s
    → IsAhead i n (fail job code retryable x y now s).0
unfolding fail
fail-IsAhead i n job code retryable x y now s a = elim (Bool-cases (fenced job now s)) [
  | inr h ↦ rw h a
  | inl h ↦ rw h (
      rewrite-IsAhead i n (has_id job.id)
        (give_back (is_retried job retryable) code job.attempts now) s _
        (record { same_id = λ j. refl; counts_on = λ j. omega arith }) a)
]

complete-IsAhead :
    (i n : ℕ) (job : Job) (code x y now : ℕ) (s : Ledger)
    → IsAhead i n s
    → IsAhead i n (complete job code x y now s).0
unfolding complete
complete-IsAhead i n job code x y now s a = elim (Bool-cases (fenced job now s)) [
  | inr h ↦ rw h a
  | inl h ↦ rw h (
      rewrite-IsAhead i n (has_id job.id) succeed s _
        (record { same_id = λ j. refl; counts_on = λ j. omega arith }) a)
]

redrive-IsAhead :
    (i n p id v actor now : ℕ) (s : Ledger)
    → IsAhead i n s
    → IsAhead i n (redrive p id v actor now s).0
redrive-IsAhead i n p id v actor now s a = elim (redrive-cases p id v actor now s) [
  | inl e ↦ rw e a
  | inr (row, _, _, e) ↦ rw e (
      rewrite-IsAhead i n (has_id row.id) (revive actor now) s s.tries (revive-IsSound actor now) a)
]

Step-IsAhead : (i n : ℕ) (s t : Ledger) → Step s t → IsWellFormed s → IsAhead i n s → IsAhead i n t
Step-IsAhead i n s t (inserts j m k x y b e) w a = insert-IsAhead i n j m k x y s t b e a
Step-IsAhead i n s t (claims p k l m o e) w a = claim-IsAhead i n p k l m s t o e w a
Step-IsAhead i n s t (fails j c r x y m e) w a = rw e (fail-IsAhead i n j c r x y m s a)
Step-IsAhead i n s t (completes j c x y m e) w a = rw e (complete-IsAhead i n j c x y m s a)
Step-IsAhead i n s t (redrives p j v b m e) w a = rw e (redrive-IsAhead i n p j v b m s a)

-- In a run the attempts that a job has counted never fall.
pub Run-IsAhead :
    (i n : ℕ) (s t : Ledger) → Run s t → IsWellFormed s → IsAhead i n s → IsAhead i n t
Run-IsAhead i n s _ still w a = a
Run-IsAhead i n s _ (and_then {t = t} {u = u} r x) w a =
    Step-IsAhead i n t u x (Run-IsWellFormed s t r w) (Run-IsAhead i n s t r w a)
