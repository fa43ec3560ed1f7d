-- ===== src/Continuity/Renewal.antt =====
-- `active`, `renew` and `release` of isekai_memory/continuity/work.py, with the receipts of common.py.
use isekai_memory.Base.{
  ℕ, ◌+◌, ◌*◌, min, max, Bool, true, false, ◌&&◌, not, Option, none, some, [], ◌∷◌, ◌++◌, ltb, ◌==◌,
  if◌then◌else◌,
}
use isekai_memory.Base.Table.{fetch, update}
use isekai_memory.Base.Outcome.{Result, ok, raise}
use isekai_memory.Continuity.Tables.{
  available, claimed, completed, WorkUnit, Bundle, Released, Receipt, Policy, complete_event,
  release_event, Store, conflict, is_state, holds, is_after, has_id, policy,
}
use isekai_memory.Continuity.Work.{second, locate}

-- The arguments that name a held lease, with what `renew` or `release` asks for.
pub record Held : Type 0 where
  pub project_id : ℕ
  pub unit_id : ℕ
  pub token : ℕ
  pub claim_generation : ℕ

-- `active` does not raise.
abbrev pub active : Held → ℕ → ℕ → WorkUnit → Bool
active a actor now u =
    is_state claimed u
    && holds u.claimed_by actor
    && holds u.claim_token_digest a.token
    && u.claim_generation == a.claim_generation
    && is_after u.lease_expires_at now

abbrev pub extend : ℕ → WorkUnit → WorkUnit
extend until u = record u { lease_expires_at = some until }

-- With the end of the running lease. The flag of the answer is `extended`.
abbrev pub renew_until :
    ℕ → ℕ → Policy → WorkUnit → Bundle → Store → ℕ → Store × Result (WorkUnit × Bool)
renew_until deadline now p u b s lease =
    if ltb lease deadline && ltb (now + p.lease_seconds * second) deadline
    then (s, raise conflict)
    else (
      record s {
        units = update (has_id u.id) (extend (max lease (min deadline b.expires_at))) s.units;
      },
      ok (
        extend (max lease (min deadline b.expires_at)) u,
        ltb lease (max lease (min deadline b.expires_at)),
      ),
    )

unfoldable pub renew_with :
    Held
    → ℕ
    → ℕ
    → ℕ
    → Store
    → Result Policy
    → Result (WorkUnit × Bundle)
    → Store × Result (WorkUnit × Bool)
renew_with a deadline actor now s (raise e) r = (s, raise e)
renew_with a deadline actor now s (ok p) (raise e) = (s, raise e)
renew_with a deadline actor now s (ok p) (ok (u, b)) =
    if not (active a actor now u) then (s, raise conflict) else elim u.lease_expires_at [
      | none ↦ (s, raise conflict)
      | some lease ↦ renew_until deadline now p u b s lease
    ]

unfoldable pub renew : Held → ℕ → ℕ → ℕ → ℕ → Store → Store × Result (WorkUnit × Bool)
renew a deadline actor opened now s =
    renew_with a deadline actor now s (policy a.project_id false s)
      (locate a.project_id a.unit_id actor opened s)

-- What a release is asked for, its idempotency key, and the digest of the request.
pub record Release : Type 0 where
  pub held : Held
  pub is_complete : Bool
  pub idempotency_key : ℕ
  pub request_digest : ℕ

abbrev pub is_receipt_of : Release → ℕ → Receipt → Bool
is_receipt_of a actor r =
    r.project_id == a.held.project_id
    && r.actor_id == actor
    && r.idempotency_key == a.idempotency_key

abbrev pub set_free : Bool → WorkUnit → WorkUnit
set_free is_complete u = record u {
  state = if is_complete then completed else available;
  claimed_by = none;
  claim_token_digest = none;
  lease_expires_at = none;
}

abbrev pub released : Release → WorkUnit → Released
released a u = record {
  unit_id = u.id;
  state = if a.is_complete then completed else available;
  claim_generation = u.claim_generation;
}

-- After the receipt lookup. The flag of the answer is `replayed`.
unfoldable pub release_with :
    Release → ℕ → ℕ → Store → Result (WorkUnit × Bundle) → Store × Result (Released × Bool)
release_with a actor now s (raise e) = (s, raise e)
release_with a actor now s (ok (u, b)) =
    if not (active a.held actor now u) then (s, raise conflict) else (
      record s {
        units = update (has_id u.id) (set_free a.is_complete) s.units;
        events =
            s.events
            ++ (record {
              project_id = a.held.project_id;
              actor_id = actor;
              action = if a.is_complete then complete_event else release_event;
              target_id = b.id;
              unit_id = u.id;
              claim_generation = u.claim_generation;
            }
                ∷ []);
        receipts =
            s.receipts
            ++ (record {
              project_id = a.held.project_id;
              actor_id = actor;
              idempotency_key = a.idempotency_key;
              request_digest = a.request_digest;
              result = released a u;
            }
                ∷ []);
      },
      ok (released a u, false),
    )

-- `receipt` without a result: an earlier answer to the same request, or a conflict with another.
unfoldable pub release_after :
    Release → ℕ → ℕ → ℕ → Store → Option Receipt → Store × Result (Released × Bool)
release_after a actor opened now s (some r) =
    if not (r.request_digest == a.request_digest)
    then (s, raise conflict)
    else (s, ok (r.result, true))
release_after a actor opened now s none =
    release_with a actor now s (locate a.held.project_id a.held.unit_id actor opened s)

unfoldable pub release : Release → ℕ → ℕ → ℕ → Store → Store × Result (Released × Bool)
release a actor opened now s =
    release_after a actor opened now s (fetch (is_receipt_of a actor) s.receipts)
