-- ===== src/Handoff/Lease.antt =====
-- `claim_handoff_lease` and `get_claimed_handoff`.
use isekai_memory.Base.{
  ℕ, ◌+◌, ◌*◌, Bool, true, false, ◌&&◌, ◌||◌, not, Option, none, some, ltb, if◌then◌else◌, min, any,
}
use isekai_memory.Base.Table.{update}
use isekai_memory.Handoff.Rows.{
  Handoff, Store, Claim, pending, claimed, has_id, find_handoff, is_after, is_past, holds,
  is_open_to, has_status, is_receipt_of, is_active,
}

-- Microseconds in a second.
abbrev pub second : ℕ
second = 1_000_000

-- `LEAST(a, column)`, which passes over a NULL.
abbrev pub least : ℕ → Option ℕ → ℕ
least a none = a
least a (some b) = min a b

-- The row that `UPDATE … RETURNING` writes for a new lease.
abbrev pub grant : Claim → ℕ → ℕ → Handoff → Handoff
grant c lease_seconds now h = record h {
  status = claimed;
  claimed_by = some c.claimed_by;
  claimed_at = some now;
  claim_token_digest = some c.claim_token_digest;
  claim_lease_expires_at = some (least (now + lease_seconds * second) h.expires_at);
  claim_generation = h.claim_generation + 1;
  claim_disposition = none;
  claim_reason_code = none;
}

pub data Decision : Type 0 where
  refused replayed granted : Decision

-- The tests of `replay`; the row is already known to be unexpired.
abbrev pub is_replay : Claim → ℕ → Handoff → Bool
is_replay c db_now h =
    has_status claimed h
    && is_after h.claim_lease_expires_at db_now
    && holds h.claimed_by c.claimed_by
    && holds h.claim_token_digest c.claim_token_digest

abbrev pub is_recoverable : ℕ → Handoff → Bool
is_recoverable db_now h =
    has_status pending h || has_status claimed h && is_past h.claim_lease_expires_at db_now

-- The decision on the locked row; the flag is `token_was_completed`.
unfoldable pub claim_decision : Claim → ℕ → ℕ → Bool → Handoff → Decision
claim_decision c accept_version db_now completed h =
    if not (is_after h.expires_at db_now)
    then refused
    else if h.continuity_managed
        || ltb accept_version h.handoff_version
        || not (is_open_to h.recipient_user_id c.claimed_by)
    then refused
    else if is_replay c db_now h
    then replayed
    else if not (is_recoverable db_now h)
    then refused
    else if completed
    then refused
    else granted

-- What each decision does. The flag of the result is `claim_replayed`.
unfoldable pub carry_out :
    Decision → Claim → ℕ → ℕ → Store → Handoff → Store × Option (Handoff × Bool)
carry_out refused c lease_seconds now s h = (s, none)
carry_out replayed c lease_seconds now s h = (s, some (h, true))
carry_out granted c lease_seconds now s h = (
  record s { handoffs = update (has_id c.handoff_id) (grant c lease_seconds now) s.handoffs },
  some (grant c lease_seconds now h, false),
)

-- With the locked row.
unfoldable pub claim_locked :
    Claim → ℕ → ℕ → ℕ → ℕ → Store → Option Handoff → Store × Option (Handoff × Bool)
claim_locked c lease_seconds accept_version db_now now s none = (s, none)
claim_locked c lease_seconds accept_version db_now now s (some h) =
    carry_out (claim_decision c accept_version db_now (any (is_receipt_of c) s.receipts) h) c
      lease_seconds now s h

-- `now` is the clock at the UPDATE, read after `db_now`.
unfoldable pub claim_handoff_lease : Claim → ℕ → ℕ → ℕ → ℕ → Store → Store × Option (Handoff × Bool)
claim_handoff_lease c lease_seconds accept_version db_now now s =
    claim_locked c lease_seconds accept_version db_now now s
      (find_handoff c.handoff_id c.project_id s.handoffs)

-- The WHERE clause of `get_claimed_handoff`.
unfoldable pub if_claimed : Claim → ℕ → Option Handoff → Option Handoff
if_claimed c now none = none
if_claimed c now (some h) =
    if is_active now h
      && not h.continuity_managed
      && holds h.claimed_by c.claimed_by
      && holds h.claim_token_digest c.claim_token_digest
      && is_open_to h.recipient_user_id c.claimed_by
    then some h
    else none

-- `none` if no row matches.
unfoldable pub get_claimed_handoff : Claim → ℕ → Store → Option Handoff
get_claimed_handoff c now s = if_claimed c now (find_handoff c.handoff_id c.project_id s.handoffs)
