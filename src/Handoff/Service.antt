-- ===== src/Handoff/Service.antt =====
-- The service layer over the tables (isekai_memory/handoff/service.py): lease bounds, token digests
-- and errors. A call returns the tables as it leaves them, and its result.
use isekai_memory.Base.{ℕ, Bool, Option, none, some, if◌then◌else◌, leb, ◌&&◌, List}
use isekai_memory.Base.Outcome.{Result, ToolError, ok, raise, tool_error, handoff}
use isekai_memory.Handoff.Rows.{Handoff, Store, Claim}
use isekai_memory.Handoff.Lease.{claim_handoff_lease, get_claimed_handoff}
use isekai_memory.Handoff.Settle.{acknowledge_handoff, nack_handoff}
use isekai_memory.Handoff.Queue.{claim_handoff, list_pending_handoffs}

-- The lease bounds of the settings.
pub record Settings : Type 0 where
  pub claim_lease_min_seconds : ℕ
  pub claim_lease_default_seconds : ℕ
  pub claim_lease_max_seconds : ℕ

-- The arguments of the lease tools; an absent one is `none`.
pub record Arguments : Type 0 where
  pub handoff_id : ℕ
  pub project_id : ℕ
  pub claim_token : ℕ
  pub lease_seconds : Option ℕ
  pub accept_handoff_version : Option ℕ

-- `arguments.get(name, default)`
abbrev pub get_or : Option ℕ → ℕ → ℕ
get_or none d = d
get_or (some v) d = v

-- `authorized_project_id or arguments["project_id"]`
abbrev pub project_of : Arguments → Option ℕ → ℕ
project_of a authorized = get_or authorized a.project_id

abbrev pub found : {A : Type 0} → ToolError → Option A → Result A
found e none = raise e
found e (some a) = ok a

-- `if row is None: raise MemoryToolError(...)`, with the number of the error.
abbrev pub answer : {A : Type 0} → ℕ → Store × Option A → Store × Result A
answer n (t, row) = (t, found (tool_error handoff n) row)

-- `sha256` is `hashlib.sha256(token.encode("utf-8")).hexdigest()`.
module _ (sha256 : ℕ → ℕ) where
  -- Who claims, with the digest in place of the token.
  abbrev pub claim_of : Arguments → ℕ → Option ℕ → Claim
  claim_of a claimed_by authorized = record {
    handoff_id = a.handoff_id;
    project_id = project_of a authorized;
    claimed_by = claimed_by;
    claim_token_digest = sha256 a.claim_token;
  }

  unfoldable pub claim_handoff_recoverable :
      Settings → Arguments → ℕ → Option ℕ → ℕ → ℕ → Store → Store × Result (Handoff × Bool)
  claim_handoff_recoverable settings a claimed_by authorized db_now now s =
      let lease_seconds = get_or a.lease_seconds settings.claim_lease_default_seconds in
      if leb settings.claim_lease_min_seconds lease_seconds
        && leb lease_seconds settings.claim_lease_max_seconds
      then answer 7 (
          claim_handoff_lease (claim_of a claimed_by authorized) lease_seconds
            (get_or a.accept_handoff_version 1) db_now now s)
      else (s, raise (tool_error handoff 6))

  unfoldable pub get_claimed : Arguments → ℕ → Option ℕ → ℕ → Store → Result Handoff
  get_claimed a claimed_by authorized now s =
      found (tool_error handoff 7) (get_claimed_handoff (claim_of a claimed_by authorized) now s)

  unfoldable pub acknowledge_claimed_handoff :
      Arguments → ℕ → ℕ → Option ℕ → ℕ → Store → Store × Result (ℕ × Bool)
  acknowledge_claimed_handoff a generation claimed_by authorized db_now s =
      answer 8 (acknowledge_handoff (claim_of a claimed_by authorized) generation db_now s)

  unfoldable pub nack_claimed_handoff :
      Arguments → ℕ → ℕ → ℕ → Option ℕ → ℕ → Store → Store × Result (ℕ × Bool)
  nack_claimed_handoff a generation reason claimed_by authorized db_now s =
      answer 8 (nack_handoff (claim_of a claimed_by authorized) generation reason db_now s)

abbrev pub or_else : Option ℕ → Option ℕ → Option ℕ
or_else none q = q
or_else (some p) q = some p

-- `project_id` may be absent here.
unfoldable pub pull_handoff : ℕ → Option ℕ → ℕ → Option ℕ → ℕ → Store → Store × Result Handoff
pull_handoff handoff_id project claimed_by authorized now s =
    answer 1 (claim_handoff handoff_id claimed_by (or_else authorized project) now s)

-- The default page has 100 rows; `exclude_own` leaves out what the actor itself pushed.
unfoldable pub list_handoffs :
    ℕ → Option ℕ → Option ℕ → Option ℕ → Bool → ℕ → ℕ → Store → Store × List Handoff
list_handoffs project_id unit_id limit after_id exclude_own actor now s =
    list_pending_handoffs project_id unit_id (get_or limit 100) after_id
      (if exclude_own then some actor else none) now s
