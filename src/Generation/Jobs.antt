-- ===== src/Generation/Jobs.antt =====
-- The tables `memory_generation_jobs` and `memory_generation_attempts`
-- (isekai_memory/generation/queue.py). Identifiers, tokens, actors and codes are only compared, so
-- they are numbers; times are microseconds.
use isekai_memory.Base.{ℕ, Bool, false, ◌&&◌, ◌||◌, Option, none, some, List, ltb, leb, ◌==◌}

pub data Kind : Type 0 where
  extract summary skill : Kind

pub data Status : Type 0 where
  queued running succeeded dead : Status

-- The columns of the unique key.
pub record JobKey : Type 0 where
  pub project_id : ℕ
  pub kind : Kind
  pub source_key : ℕ
  pub source_watermark : ℕ
  pub recipe : ℕ

-- `parameters` stands for the columns that are only copied.
pub record Job : Type 0 where
  pub id : ℕ
  pub key : JobKey
  pub parameters : ℕ
  pub enqueued_by : ℕ
  pub status : Status
  pub version : ℕ
  pub attempts : ℕ
  pub max_attempts : ℕ
  pub lease_token : Option ℕ
  pub lease_until : Option ℕ
  pub available_at : ℕ
  pub error_code : Option ℕ
  pub redrive_version : Option ℕ
  pub redrive_actor : Option ℕ
  pub created_at : ℕ

pub record Attempt : Type 0 where
  pub job_id : ℕ
  pub attempt : ℕ
  pub finished_at : Option ℕ
  pub outcome_code : Option ℕ
  pub input_chars : ℕ
  pub output_chars : ℕ

pub record Ledger : Type 0 where
  pub jobs : List Job
  pub tries : List Attempt

abbrev kind_index : Kind → ℕ
kind_index extract = 0
kind_index summary = 1
kind_index skill = 2

abbrev status_index : Status → ℕ
status_index queued = 0
status_index running = 1
status_index succeeded = 2
status_index dead = 3

abbrev pub has_status : Status → Job → Bool
has_status s j = status_index j.status == status_index s

abbrev pub has_id : ℕ → Job → Bool
has_id i j = j.id == i

abbrev pub in_project : ℕ → Job → Bool
in_project p j = j.key.project_id == p

abbrev pub has_key : JobKey → Job → Bool
has_key k j =
    j.key.project_id == k.project_id
    && kind_index j.key.kind == kind_index k.kind
    && j.key.source_key == k.source_key
    && j.key.source_watermark == k.source_watermark
    && j.key.recipe == k.recipe

-- `ORDER BY created_at,id`
abbrev pub is_older : Job → Job → Bool
is_older a b = ltb a.created_at b.created_at || a.created_at == b.created_at && ltb a.id b.id

-- `column = value`; a NULL is not.
abbrev pub holds : Option ℕ → ℕ → Bool
holds none v = false
holds (some w) v = w == v

-- `column > now`; a NULL is not.
abbrev pub is_after : Option ℕ → ℕ → Bool
is_after none now = false
is_after (some t) now = ltb now t

-- `column <= now`; a NULL is not.
abbrev pub is_past : Option ℕ → ℕ → Bool
is_past none now = false
is_past (some t) now = leb t now
