-- ===== src/Handoff/Settle.antt =====
-- `acknowledge_handoff` and `nack_handoff`. The `UPDATE … AND claim_generation=$n` cannot miss:
-- the generation was compared on the locked row.
use isekai_memory.Base.{
  ℕ, Bool, true, false, ◌&&◌, not, Option, none, some, List, [], ◌∷◌, ◌++◌, ◌==◌, if◌then◌else◌,
  any,
}
use isekai_memory.Base.Table.{fetch, update}
use isekai_memory.Handoff.Rows.{
  Handoff, Receipt, Store, Claim, Disposition, is_acknowledged, is_nacked, pending, acknowledged,
  has_id, find_handoff, holds, has_status, is_disposition, is_receipt_of, is_claim_of, is_active,
}

-- The receipt of this claim, generation and operation.
abbrev pub is_settled_by : Claim → ℕ → Disposition → Receipt → Bool
is_settled_by c generation operation r =
    is_receipt_of c r
    && r.claim_generation == generation
    && is_disposition operation (some r.operation)

abbrev pub receipt_of : Claim → ℕ → Disposition → Option ℕ → Receipt
receipt_of c generation operation reason = record {
  handoff_id = c.handoff_id;
  project_id = c.project_id;
  actor_id = c.claimed_by;
  claim_token_digest = c.claim_token_digest;
  claim_generation = generation;
  operation = operation;
  reason_code = reason;
}

-- `ON CONFLICT (handoff_id, project_id, actor_id, claim_token_digest, operation) DO NOTHING`
abbrev pub insert_receipt : Claim → Receipt → List Receipt → List Receipt
insert_receipt c r t =
    if any (λ q. is_receipt_of c q && is_disposition r.operation (some q.operation)) t
    then t
    else t ++ (r ∷ [])

abbrev pub acknowledge : Handoff → Handoff
acknowledge h = record h {
  status = acknowledged;
  claim_disposition = some is_acknowledged;
  claim_reason_code = none;
}

abbrev pub nack : ℕ → Handoff → Handoff
nack reason h = record h {
  status = pending;
  claim_lease_expires_at = none;
  claim_disposition = some is_nacked;
  claim_reason_code = some reason;
}

-- The generation, and whether the settlement had been made before.
abbrev pub Settlement : Type 0
Settlement = Option (ℕ × Bool)

-- The part of `acknowledge_handoff` after the receipt lookup.
unfoldable pub acknowledge_locked : Claim → ℕ → ℕ → Store → Option Handoff → Store × Settlement
acknowledge_locked c generation db_now s none = (s, none)
acknowledge_locked c generation db_now s (some h) =
    if not (is_claim_of c generation h)
    then (s, none)
    else if has_status acknowledged h && is_disposition is_acknowledged h.claim_disposition
    then (s, some (h.claim_generation, true))
    else if not (is_active db_now h)
    then (s, none)
    else (
      record {
        handoffs = update (has_id c.handoff_id) acknowledge s.handoffs;
        receipts =
            insert_receipt c (receipt_of c h.claim_generation is_acknowledged none) s.receipts;
      },
      some (h.claim_generation, false),
    )

-- With the receipt that was looked up.
unfoldable pub acknowledge_with : Claim → ℕ → ℕ → Store → Option Receipt → Store × Settlement
acknowledge_with c generation db_now s (some r) = (s, some (r.claim_generation, true))
acknowledge_with c generation db_now s none =
    acknowledge_locked c generation db_now s (find_handoff c.handoff_id c.project_id s.handoffs)

unfoldable pub acknowledge_handoff : Claim → ℕ → ℕ → Store → Store × Settlement
acknowledge_handoff c generation db_now s =
    acknowledge_with c generation db_now s
      (fetch (is_settled_by c generation is_acknowledged) s.receipts)

-- The part of `nack_handoff` after the receipt lookup.
unfoldable pub nack_locked : Claim → ℕ → ℕ → ℕ → Store → Option Handoff → Store × Settlement
nack_locked c generation reason db_now s none = (s, none)
nack_locked c generation reason db_now s (some h) =
    if not (is_claim_of c generation h)
    then (s, none)
    else if has_status pending h && is_disposition is_nacked h.claim_disposition
    then (s, if holds h.claim_reason_code reason then some (h.claim_generation, true) else none)
    else if not (is_active db_now h)
    then (s, none)
    else (
      record {
        handoffs = update (has_id c.handoff_id) (nack reason) s.handoffs;
        receipts =
            insert_receipt c (receipt_of c h.claim_generation is_nacked (some reason)) s.receipts;
      },
      some (h.claim_generation, false),
    )

-- With the receipt that was looked up.
unfoldable pub nack_with : Claim → ℕ → ℕ → ℕ → Store → Option Receipt → Store × Settlement
nack_with c generation reason db_now s (some r) =
    (s, if holds r.reason_code reason then some (r.claim_generation, true) else none)
nack_with c generation reason db_now s none =
    nack_locked c generation reason db_now s (find_handoff c.handoff_id c.project_id s.handoffs)

unfoldable pub nack_handoff : Claim → ℕ → ℕ → ℕ → Store → Store × Settlement
nack_handoff c generation reason db_now s =
    nack_with c generation reason db_now s (fetch (is_settled_by c generation is_nacked) s.receipts)
