-- ===== src/Handoff/Rows.antt =====
-- The tables `handoffs` and `handoff_claim_receipts`. Identifiers, users and digests are only
-- compared, so they are numbers; times are microseconds. `id` is the primary key of `handoffs`.
use isekai_memory.Base.{
  ℕ, Bool, true, false, ◌&&◌, not, Option, none, some, List, ltb, leb, ◌==◌, if◌then◌else◌,
}
use isekai_memory.Base.Table.{fetch}

pub data Status : Type 0 where
  pending claimed acknowledged expired : Status

-- The operations of a receipt, and the values of `claim_disposition`.
pub data Disposition : Type 0 where
  is_acknowledged is_nacked : Disposition

-- `document` stands for the columns that are written once and only copied: unit, phase, sender,
-- result status, classification, summary, notes, envelopes, digests, continuation.
pub record Handoff : Type 0 where
  pub id : ℕ
  pub project_id : ℕ
  pub phase_attempt_id : ℕ
  pub from_user : ℕ
  pub unit_id : ℕ
  pub payload_digest : ℕ
  pub document : ℕ
  pub created_at : ℕ
  pub expires_at : Option ℕ
  pub handoff_version : ℕ
  pub recipient_user_id : Option ℕ
  pub continuity_managed : Bool
  pub status : Status
  pub claimed_by : Option ℕ
  pub claimed_at : Option ℕ
  pub claim_token_digest : Option ℕ
  pub claim_lease_expires_at : Option ℕ
  pub claim_generation : ℕ
  pub claim_disposition : Option Disposition
  pub claim_reason_code : Option ℕ

pub record Receipt : Type 0 where
  pub handoff_id : ℕ
  pub project_id : ℕ
  pub actor_id : ℕ
  pub claim_token_digest : ℕ
  pub claim_generation : ℕ
  pub operation : Disposition
  pub reason_code : Option ℕ

pub record Store : Type 0 where
  pub handoffs : List Handoff
  pub receipts : List Receipt

-- Who asks for which handoff, and with which token.
pub record Claim : Type 0 where
  pub handoff_id : ℕ
  pub project_id : ℕ
  pub claimed_by : ℕ
  pub claim_token_digest : ℕ

abbrev pub has_id : ℕ → Handoff → Bool
has_id i h = h.id == i

-- `WHERE id=$1::uuid AND project_id=$2`, by the primary key.
abbrev pub in_project : ℕ → Option Handoff → Option Handoff
in_project p none = none
in_project p (some h) = if h.project_id == p then some h else none

abbrev pub find_handoff : ℕ → ℕ → List Handoff → Option Handoff
find_handoff i p t = in_project p (fetch (has_id i) t)

-- `column > now`; a NULL is not.
abbrev pub is_after : Option ℕ → ℕ → Bool
is_after none now = false
is_after (some t) now = ltb now t

-- `column IS NOT NULL AND column <= now`
abbrev pub is_past : Option ℕ → ℕ → Bool
is_past none now = false
is_past (some t) now = leb t now

-- `column = value`; a NULL is not.
abbrev pub holds : Option ℕ → ℕ → Bool
holds none v = false
holds (some w) v = w == v

-- `recipient in (None, actor)`
abbrev pub is_open_to : Option ℕ → ℕ → Bool
is_open_to none actor = true
is_open_to (some r) actor = r == actor

abbrev status_index : Status → ℕ
status_index pending = 0
status_index claimed = 1
status_index acknowledged = 2
status_index expired = 3

abbrev pub has_status : Status → Handoff → Bool
has_status s h = status_index h.status == status_index s

abbrev pub is_disposition : Disposition → Option Disposition → Bool
is_disposition is_acknowledged (some is_acknowledged) = true
is_disposition is_nacked (some is_nacked) = true
is_disposition _ _ = false

-- A receipt of this handoff, project, actor and token.
abbrev pub is_receipt_of : Claim → Receipt → Bool
is_receipt_of c r =
    r.handoff_id == c.handoff_id
    && r.project_id == c.project_id
    && r.actor_id == c.claimed_by
    && r.claim_token_digest == c.claim_token_digest

-- The locked row belongs to this actor, token and generation.
abbrev pub is_claim_of : Claim → ℕ → Handoff → Bool
is_claim_of c generation h =
    holds h.claimed_by c.claimed_by
    && holds h.claim_token_digest c.claim_token_digest
    && h.claim_generation == generation

-- A claimed row whose lease and expiry are both ahead.
abbrev pub is_active : ℕ → Handoff → Bool
is_active now h =
    has_status claimed h && is_after h.claim_lease_expires_at now && is_after h.expires_at now

-- A result that was made by this call, not found from an earlier one.
abbrev pub is_new {ℓ} : {A : Type ℓ} → Option (A × Bool) → Bool
is_new none = false
is_new (some (a, replayed)) = not replayed
