-- ===== src/Generation/Queue.antt =====
-- The operations of isekai_memory/generation/queue.py, and the end of `_complete` in
-- isekai_memory/generation/worker.py. Each is one transaction behind the project's lock; it takes its
-- clock readings and the identifiers that it draws as arguments.
use isekai_memory.Base.{
  ℕ, ◌+◌, ◌*◌, ◌^◌, min, Bool, true, false, ◌&&◌, ◌||◌, not, Option, none, some, List, [], ◌∷◌,
  ◌++◌, ltb, leb, ◌==◌, if◌then◌else◌, any, select, is_some,
}
use isekai_memory.Base.Table.{fetch, update}
use isekai_memory.Base.Sorted.{first, limit_to, order_by}
use isekai_memory.Base.Outcome.{Result, ok, raise, generation}
use isekai_memory.Generation.Jobs.{
  Job, JobKey, Attempt, Ledger, queued, running, succeeded, dead, has_status, has_id, in_project,
  has_key, is_older, holds, is_after, is_past,
}

-- Microseconds in a second.
abbrev pub second : ℕ
second = 1_000_000

-- The codes that this module writes itself.
abbrev pub lease_expired : ℕ
lease_expired = 0

-- The row that `_insert` adds, with the defaults of the table.
abbrev pub new_job : ℕ → ℕ → JobKey → ℕ → ℕ → Job
new_job id now key parameters actor = record {
  id = id;
  key = key;
  parameters = parameters;
  enqueued_by = actor;
  status = queued;
  version = 1;
  attempts = 0;
  max_attempts = 3;
  lease_token = none;
  lease_until = none;
  available_at = now;
  error_code = none;
  redrive_version = none;
  redrive_actor = none;
  created_at = now;
}

-- With the row that has the key already. The flag of the answer is `already_exists`; `none` if the
-- drawn identifier is taken.
unfoldable pub insert_with :
    ℕ → ℕ → JobKey → ℕ → ℕ → Ledger → Option Job → Option (Ledger × (ℕ × Bool))
insert_with id now key parameters actor s (some j) = some (s, (j.id, true))
insert_with id now key parameters actor s none =
    if any (has_id id) s.jobs
    then none
    else some
        (record s { jobs = s.jobs ++ (new_job id now key parameters actor ∷ []) }, (id, false))

-- `_insert`
unfoldable pub insert : ℕ → ℕ → JobKey → ℕ → ℕ → Ledger → Option (Ledger × (ℕ × Bool))
insert id now key parameters actor s =
    insert_with id now key parameters actor s (fetch (has_key key) s.jobs)

abbrev pub is_open_try : ℕ → ℕ → Attempt → Bool
is_open_try job attempt a = a.job_id == job && a.attempt == attempt && not (is_some a.finished_at)

abbrev pub finish_attempt : ℕ → ℕ → ℕ → ℕ → ℕ → ℕ → List Attempt → List Attempt
finish_attempt job attempt code input_chars output_chars now t =
    update (is_open_try job attempt)
      (λ a. record a {
        finished_at = some now;
        outcome_code = some code;
        input_chars = input_chars;
        output_chars = output_chars;
      })
      t

-- `lease_expired`: the job has no attempt left.
abbrev pub bury : Job → Job
bury j = record j {
  status = dead;
  version = j.version + 1;
  lease_token = none;
  lease_until = none;
  error_code = some lease_expired;
}

abbrev pub is_exhausted : ℕ → ℕ → Job → Bool
is_exhausted project now j =
    in_project project j
    && has_status running j
    && is_past j.lease_until now
    && leb j.max_attempts j.attempts

-- `for row in exhausted`
unfoldable pub bury_all : ℕ → List Job → Ledger → Ledger
bury_all now [] s = s
bury_all now (row ∷ rows) s = bury_all now rows (record {
  jobs = update (has_id row.id) bury s.jobs;
  tries = finish_attempt row.id row.attempts lease_expired 0 0 now s.tries;
})

unfoldable pub drain : ℕ → ℕ → Ledger → Ledger
drain project now s =
    bury_all now (limit_to 100 (order_by is_older (select (is_exhausted project now) s.jobs))) s

abbrev pub is_runnable : ℕ → ℕ → Job → Bool
is_runnable project now j =
    in_project project j
    && ltb j.attempts j.max_attempts
    && (has_status queued j && leb j.available_at now
        || has_status running j && is_past j.lease_until now)

abbrev pub start : ℕ → ℕ → ℕ → Job → Job
start token lease_seconds now j = record j {
  status = running;
  version = j.version + 1;
  attempts = j.attempts + 1;
  lease_token = some token;
  lease_until = some (now + lease_seconds * second);
}

abbrev pub new_try : Job → Attempt
new_try j = record {
  job_id = j.id;
  attempt = j.attempts;
  finished_at = none;
  outcome_code = none;
  input_chars = 0;
  output_chars = 0;
}

abbrev pub is_try : ℕ → ℕ → Attempt → Bool
is_try job attempt a = a.job_id == job && a.attempt == attempt

-- With the oldest runnable row. `none` if the attempt to be inserted exists: the transaction fails.
unfoldable pub start_with : ℕ → ℕ → ℕ → Ledger → Option Job → Option (Ledger × Option Job)
start_with token lease_seconds now s none = some (s, none)
start_with token lease_seconds now s (some row) =
    let t =
      if has_status running row
      then finish_attempt row.id row.attempts lease_expired 0 0 now s.tries
      else s.tries in
    let j = start token lease_seconds now row in
    if any (is_try j.id j.attempts) t
    then none
    else some (
      record {
        jobs = update (has_id row.id) (start token lease_seconds now) s.jobs;
        tries = t ++ (new_try j ∷ []);
      },
      some j,
    )

-- Drain, then take the oldest runnable job.
unfoldable pub claim : ℕ → ℕ → ℕ → ℕ → Ledger → Option (Ledger × Option Job)
claim project token lease_seconds now s =
    let t = drain project now s in
    start_with token lease_seconds now t
      (first (order_by is_older (select (is_runnable project now) t.jobs)))

-- Does this row match what the worker holds?
abbrev pub is_held : Job → ℕ → Job → Bool
is_held job now j =
    has_id job.id j
    && in_project job.key.project_id j
    && has_status running j
    && (elim job.lease_token [ none ↦ false | some token ↦ holds j.lease_token token ])
    && j.attempts == job.attempts
    && is_after j.lease_until now

unfoldable pub fenced : Job → ℕ → Ledger → Bool
fenced job now s = any (is_held job now) s.jobs

abbrev pub give_back : Bool → ℕ → ℕ → ℕ → Job → Job
give_back retry code attempts now j = record j {
  status = if retry then queued else dead;
  version = j.version + 1;
  error_code = some code;
  lease_token = none;
  lease_until = none;
  available_at = now + min 300 (2 ^ attempts) * second;
}

-- The job as the worker holds it decides on the retry.
abbrev pub is_retried : Job → Bool → Bool
is_retried job retryable = retryable && ltb job.attempts job.max_attempts

unfoldable pub fail : Job → ℕ → Bool → ℕ → ℕ → ℕ → Ledger → Ledger × Bool
fail job code retryable input_chars output_chars now s =
    if not (fenced job now s) then (s, false) else (
      record {
        jobs =
            update (has_id job.id) (give_back (is_retried job retryable) code job.attempts now)
              s.jobs;
        tries = finish_attempt job.id job.attempts code input_chars output_chars now s.tries;
      },
      true,
    )

abbrev pub succeed : Job → Job
succeed j = record j {
  status = succeeded;
  version = j.version + 1;
  lease_token = none;
  lease_until = none;
  error_code = none;
}

-- From the second `fenced` of `_complete` on. `false` is a `lease_lost`, which rolls back. The UPDATE
-- tests `lease_until` once more, here at the clock reading of `fenced`.
unfoldable pub complete : Job → ℕ → ℕ → ℕ → ℕ → Ledger → Ledger × Bool
complete job code input_chars output_chars now s = if not (fenced job now s) then (s, false) else (
  record {
    jobs = update (has_id job.id) succeed s.jobs;
    tries = finish_attempt job.id job.attempts code input_chars output_chars now s.tries;
  },
  true,
)

abbrev pub revive : ℕ → ℕ → Job → Job
revive actor now j = record j {
  status = queued;
  version = j.version + 1;
  max_attempts = min 30 (j.max_attempts + 3);
  available_at = now;
  error_code = none;
  redrive_version = some (j.version + 1);
  redrive_actor = some actor;
}

-- With the locked row. The flag of the result is `already_applied`.
unfoldable pub redrive_with : ℕ → ℕ → ℕ → Ledger → Option Job → Ledger × Result Bool
redrive_with expected actor now s none =
    (s, raise (record { series = generation; number = 2; http_status = 409 }))
redrive_with expected actor now s (some row) =
    if holds row.redrive_version (expected + 1) && holds row.redrive_actor actor
    then (s, ok true)
    else if not (has_status dead row) || not (row.version == expected) || leb 30 row.max_attempts
    then (s, raise (record { series = generation; number = 2; http_status = 409 }))
    else (record s { jobs = update (has_id row.id) (revive actor now) s.jobs }, ok false)

unfoldable pub redrive : ℕ → ℕ → ℕ → ℕ → ℕ → Ledger → Ledger × Result Bool
redrive project id expected actor now s =
    redrive_with expected actor now s (fetch (λ j. in_project project j && has_id id j) s.jobs)
