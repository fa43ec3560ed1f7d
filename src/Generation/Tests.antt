-- ===== src/Generation/Tests.antt =====
-- A job that two workers claim one after the other, and the theorems at its tables.
use isekai_memory.Base.{arith, ◌≡◌, refl, true, false, none, some, [], ◌∷◌, is_some}
use isekai_memory.Base.Outcome.{ok}
use isekai_memory.Generation.Jobs.{Job, JobKey, Ledger, extract, dead}
use isekai_memory.Generation.Queue.{
  insert, insert_with, new_job, claim, drain, bury_all, start, start_with, new_try, lease_expired,
  fail, complete, redrive, redrive_with, revive,
}
use isekai_memory.Generation.Invariant.{IsWellFormed}
use isekai_memory.Generation.Claiming.{claim_total}
use isekai_memory.Generation.Fencing.{still, and_then, inserts, Run-IsWellFormed}
use isekai_memory.Generation.Retried.{IsNext, crashed_job_retried}
use isekai_memory.Generation.Workers.{stale_worker_fenced, redrive_repeats}

abbrev empty : Ledger
empty = record { jobs = []; tries = [] }

abbrev key : JobKey
key = record { project_id = 1; kind = extract; source_key = 2; source_watermark = 3; recipe = 4 }

abbrev first_job : Job
first_job = new_job 5 0 key 6 7

abbrev enqueued : Ledger
enqueued = record { jobs = first_job ∷ []; tries = [] }

enqueued_first : insert 5 0 key 6 7 empty ≡ some (enqueued, (5, false))
unfolding insert insert_with
enqueued_first = refl

-- The lease of the first worker is 60 s.
abbrev first_claim : Job
first_claim = start 100 60 10 first_job

abbrev claimed : Ledger
claimed = record { jobs = first_claim ∷ []; tries = new_try first_claim ∷ [] }

claimed_first : claim 1 100 60 10 enqueued ≡ some (claimed, some first_claim)
unfolding claim start_with drain bury_all
claimed_first = refl

abbrev second_claim : Job
second_claim = start 200 60 90_000_000 first_claim

abbrev claimed_again : Ledger
claimed_again = record {
  jobs = second_claim ∷ [];
  tries =
      record (new_try first_claim) {
        finished_at = some 90_000_000;
        outcome_code = some lease_expired;
      }
      ∷ new_try second_claim
      ∷ [];
}

claimed_second : claim 1 200 60 90_000_000 claimed ≡ some (claimed_again, some second_claim)
unfolding claim start_with drain bury_all
claimed_second = refl

empty-IsWellFormed : IsWellFormed empty
empty-IsWellFormed = record {
  keyed = λ x y m n e. elim m [ ];
  budgeted = λ x m. elim m [ ];
  counted = λ a x m n e. elim m [ ];
  referenced = λ a m. elim m [ ];
}

Run-IsWellFormed_example : IsWellFormed enqueued
Run-IsWellFormed_example =
    Run-IsWellFormed empty enqueued (and_then still (inserts 5 0 key 6 7 (5, false) enqueued_first))
      empty-IsWellFormed

-- The tables after the insertion, for the other witnesses.
enqueued-IsWellFormed : IsWellFormed enqueued
enqueued-IsWellFormed =
    Run-IsWellFormed empty enqueued (and_then still (inserts 5 0 key 6 7 (5, false) enqueued_first))
      empty-IsWellFormed

claim_total_example : is_some (claim 1 100 60 10 enqueued) ≡ true
claim_total_example = claim_total 1 100 60 10 enqueued enqueued-IsWellFormed

stale_worker_fenced_example :
    (fail first_claim 9 true 0 0 91_000_000 claimed_again ≡ (claimed_again, false))
    × (complete first_claim 9 0 0 91_000_000 claimed_again ≡ (claimed_again, false))
stale_worker_fenced_example =
    stale_worker_fenced 1 100 60 10 1 200 60 90_000_000 enqueued claimed claimed claimed_again
      claimed_again first_claim second_claim 9 true 0 0 91_000_000 enqueued-IsWellFormed
      claimed_first still claimed_second refl still

-- While the first lease runs there is nothing to claim.
unclaimed : claim 1 200 60 50_000_000 claimed ≡ some (claimed, none)
unfolding claim start_with drain bury_all
unclaimed = refl

crashed_job_retried_example :
    (u : Ledger) × (j' : Job) × (claim 1 200 60 90_000_000 claimed ≡ some (u, some j'))
    × IsNext first_claim j'
crashed_job_retried_example =
    crashed_job_retried 1 100 60 10 200 60 90_000_000 enqueued claimed first_claim
      enqueued-IsWellFormed claimed_first (omega arith) (omega arith)

abbrev dead_job : Job
dead_job = record first_job { status = dead; attempts = 3; version = 7 }

abbrev buried : Ledger
buried = record { jobs = dead_job ∷ []; tries = [] }

abbrev revived : Ledger
revived = record { jobs = revive 11 20 dead_job ∷ []; tries = [] }

revived_once : redrive 1 5 7 11 20 buried ≡ (revived, ok false)
unfolding redrive redrive_with
revived_once = refl

revived_again : redrive 1 5 7 11 30 revived ≡ (revived, ok true)
revived_again = redrive_repeats 1 5 7 11 20 30 buried revived false revived_once
