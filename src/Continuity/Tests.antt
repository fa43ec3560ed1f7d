-- ===== src/Continuity/Tests.antt =====
-- A work unit of isekai_memory/continuity/work.py that is claimed, renewed and released, and the theorems at its tables.
use isekai_memory.Base.{ℕ, ◌+◌, ◌*◌, ◌≤◌, ◌≡◌, refl, true, false, ◌&&◌, none, some, [], ◌∷◌}
use isekai_memory.Base.Outcome.{ok}
use isekai_memory.Base.Classified.{internal}
use isekai_memory.Continuity.Tables.{
  available, claimed, WorkUnit, Bundle, Released, Policy, Store, is_state, is_after, policy,
}
use isekai_memory.Continuity.Work.{
  locate, located, ClaimArguments, decide, act, claim, claim_with, second,
}
use isekai_memory.Continuity.Renewal.{
  Held, renew, renew_with, Release, release, release_with, release_after,
}
use isekai_memory.Continuity.Ownership.{is_started, is_ok}
use isekai_memory.Continuity.History.{still}
use isekai_memory.Continuity.Fence.{stale_owner_fenced}
use isekai_memory.Continuity.Promises.{claim_starts, claim_token_once, release_repeats}

abbrev free_unit : WorkUnit
free_unit = record {
  id = 5;
  project_id = 1;
  bundle_id = 2;
  assignee_user_ids = 20 ∷ 30 ∷ [];
  state = available;
  claimed_by = none;
  claim_token_digest = none;
  claim_generation = 0;
  lease_expires_at = none;
}

abbrev parent : Bundle
parent = record {
  id = 2;
  project_id = 1;
  classification = internal;
  version = 1;
  expires_at = 900_000_000;
  revoked_at = none;
}

abbrev limits : Policy
limits = record { project_id = 1; enabled = true; lease_seconds = 600 }

abbrev delivered : Store
delivered = record {
  units = free_unit ∷ [];
  bundles = parent ∷ [];
  deliveries =
      record { bundle_id = 2; recipient_user_id = 20; revoked_at = none }
      ∷ record { bundle_id = 2; recipient_user_id = 30; revoked_at = none }
      ∷ [];
  claims = [];
  receipts = [];
  policies = limits ∷ [];
  events = [];
}

abbrev by_token : ℕ → ClaimArguments
by_token token = record {
  project_id = 1;
  unit_id = 5;
  token = token;
  expected_generation = none;
  expected_routing_version = none;
}

abbrev owned : Store
owned = (claim (by_token 200) 20 1 1 delivered).0

abbrev owned_unit : WorkUnit
owned_unit = record free_unit {
  state = claimed;
  claimed_by = some 20;
  claim_token_digest = some 200;
  claim_generation = 1;
  lease_expires_at = some 600_000_001;
}

claimed_once : claim (by_token 200) 20 1 1 delivered ≡ (owned, ok (owned_unit, false))
unfolding claim claim_with locate located decide act
claimed_once = refl

started_lease :
    (p : Policy) × (u : WorkUnit) × (b : Bundle) × (policy 1 true delivered ≡ ok p)
    × (locate 1 5 20 1 delivered ≡ ok (u, b))
    × ((is_state claimed u && is_after u.lease_expires_at 1) ≡ false)
    × (owned_unit.claim_generation ≡ u.claim_generation + 1)
    × (until : ℕ) × (owned_unit.lease_expires_at ≡ some until)
    × (until ≤ b.expires_at)
    × (until ≤ 1 + p.lease_seconds * second)
started_lease = claim_starts (by_token 200) 20 1 1 delivered owned owned_unit claimed_once

claim_token_once_example :
    ((claim (by_token 200) 20 4 4 owned).0 ≡ owned)
    × (is_started (claim (by_token 200) 20 4 4 owned).1 ≡ false)
claim_token_once_example =
    claim_token_once (by_token 200) (by_token 200) 20 1 1 4 4 delivered owned owned owned_unit
      claimed_once still refl refl

abbrev held : Held
held = record { project_id = 1; unit_id = 5; token = 200; claim_generation = 1 }

abbrev renewed_unit : WorkUnit
renewed_unit = record owned_unit { lease_expires_at = some 700_000_000 }

abbrev renewed : Store
renewed = (renew held 700_000_000 20 200_000_000 200_000_000 owned).0

renewed_once :
    renew held 700_000_000 20 200_000_000 200_000_000 owned ≡ (renewed, ok (renewed_unit, true))
unfolding claim claim_with locate located decide act renew renew_with
renewed_once = refl

abbrev request : Release
request = record { held = held; is_complete = false; idempotency_key = 8; request_digest = 9 }

abbrev freed : Store
freed = (release request 20 300_000_000 300_000_000 owned).0

abbrev answer : Released
answer = record { unit_id = 5; state = available; claim_generation = 1 }

freed_once : release request 20 300_000_000 300_000_000 owned ≡ (freed, ok (answer, false))
unfolding claim claim_with locate located decide act release release_with release_after
freed_once = refl

release_repeats_example :
    release request 20 800_000_000 800_000_000 freed ≡ (freed, ok (answer, true))
release_repeats_example =
    release_repeats request 20 300_000_000 300_000_000 800_000_000 800_000_000 owned freed freed
      answer false freed_once still

abbrev retaken : Store
retaken = (claim (by_token 300) 30 700_000_000 700_000_000 owned).0

abbrev retaken_unit : WorkUnit
retaken_unit = record owned_unit {
  claimed_by = some 30;
  claim_token_digest = some 300;
  claim_generation = 2;
  lease_expires_at = some 900_000_000;
}

claimed_twice :
    claim (by_token 300) 30 700_000_000 700_000_000 owned ≡ (retaken, ok (retaken_unit, false))
unfolding claim claim_with locate located decide act
claimed_twice = refl

stale_owner_fenced_example :
    ((renew held 800_000_000 20 710_000_000 710_000_000 retaken).0 ≡ retaken)
    × (is_ok (renew held 800_000_000 20 710_000_000 710_000_000 retaken).1 ≡ false)
    × ((release request 20 710_000_000 710_000_000 retaken).0 ≡ retaken)
stale_owner_fenced_example =
    stale_owner_fenced (by_token 200) (by_token 300) 20 1 1 30 700_000_000 700_000_000 delivered
      owned owned retaken retaken owned_unit retaken_unit held request 800_000_000 20 710_000_000
      710_000_000 claimed_once still claimed_twice refl refl still refl refl refl refl
