-- ===== src/Continuity/Filed.antt =====
-- The receipts of the administrative operations: `receipt` of isekai_memory/continuity/common.py. The
-- result of such an operation is one number, a version or a count.
use isekai_memory.Base.{ℕ, Bool, ◌&&◌, Option, none, some, List, ◌==◌, if◌then◌else◌}
use isekai_memory.Base.Table.{fetch}
use isekai_memory.Base.Outcome.{Result, ok, raise}
use isekai_memory.Continuity.Tables.{conflict}

-- The operations that leave a receipt.
pub data Operation : Type 0 where
  presence_policy_set presence_prune usage_policy_set usage_prune : Operation

abbrev operation_index : Operation → ℕ
operation_index presence_policy_set = 0
operation_index presence_prune = 1
operation_index usage_policy_set = 2
operation_index usage_prune = 3

-- A row of `memory_continuity_receipts`.
pub record Receipt : Type 0 where
  pub project_id : ℕ
  pub actor_id : ℕ
  pub operation : Operation
  pub idempotency_key : ℕ
  pub request_digest : ℕ
  pub result : ℕ

-- The key of a receipt, and the digest of the request.
pub record Request : Type 0 where
  pub project_id : ℕ
  pub idempotency_key : ℕ
  pub request_digest : ℕ

abbrev pub is_receipt_of : Request → Operation → ℕ → Receipt → Bool
is_receipt_of a operation actor r =
    r.project_id == a.project_id
    && r.actor_id == actor
    && operation_index r.operation == operation_index operation
    && r.idempotency_key == a.idempotency_key

abbrev check_receipt : Request → Option Receipt → Result (Option ℕ)
check_receipt a none = ok none
check_receipt a (some r) =
    if r.request_digest == a.request_digest then ok (some r.result) else raise conflict

-- `receipt` without a result.
unfoldable pub replay : Request → Operation → ℕ → List Receipt → Result (Option ℕ)
replay a operation actor t = check_receipt a (fetch (is_receipt_of a operation actor) t)

-- `receipt` with a result.
abbrev pub file : Request → Operation → ℕ → ℕ → Receipt
file a operation actor result = record {
  project_id = a.project_id;
  actor_id = actor;
  operation = operation;
  idempotency_key = a.idempotency_key;
  request_digest = a.request_digest;
  result = result;
}
