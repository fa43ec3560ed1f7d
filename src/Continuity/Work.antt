-- ===== src/Continuity/Work.antt =====
-- `locate` and `claim` of isekai_memory/continuity/work.py: one claim of execution per work unit. Each
-- operation is one transaction behind the project's lock; a raise rolls it back. `opened` is the clock
-- when the bundle is read, `now` the clock of the operation.
use isekai_memory.Base.{
  ℕ, ◌+◌, ◌*◌, min, Bool, true, false, ◌&&◌, ◌||◌, not, Option, none, some, List, [], ◌∷◌, ◌++◌,
  ◌==◌, if◌then◌else◌, any, is_some,
}
use isekai_memory.Base.Table.{fetch, update}
use isekai_memory.Base.Outcome.{Result, ok, raise, ◌>>=◌}
use isekai_memory.Continuity.Tables.{
  available, claimed, WorkUnit, Bundle, Delivery, Claim, Policy, claim_event, Store, unavailable,
  conflict, is_state, holds, is_after, has_id, policy, bundle,
}

-- Microseconds in a second.
abbrev pub second : ℕ
second = 1_000_000

abbrev pub is_assignee : ℕ → WorkUnit → Bool
is_assignee actor u = any (λ a. a == actor) u.assignee_user_ids

abbrev pub is_delivered : ℕ → ℕ → List Delivery → Bool
is_delivered bundle_id actor t =
    any
      (λ d. d.bundle_id == bundle_id && d.recipient_user_id == actor && not (is_some d.revoked_at))
      t

-- `locate`, with the row of the unit.
unfoldable pub located : ℕ → ℕ → ℕ → Store → Option WorkUnit → Result (WorkUnit × Bundle)
located project actor opened s none = raise unavailable
located project actor opened s (some u) =
    if not (is_assignee actor u)
    then raise unavailable
    else (bundle project u.bundle_id opened s >>= λ b.
        if is_delivered u.bundle_id actor s.deliveries then ok (u, b) else raise unavailable)

unfoldable pub locate : ℕ → ℕ → ℕ → ℕ → Store → Result (WorkUnit × Bundle)
locate project id actor opened s =
    located project actor opened s
      (fetch (λ (u : WorkUnit). u.project_id == project && u.id == id) s.units)

-- The arguments of a claim; `token` is the digest of the claim token.
pub record ClaimArguments : Type 0 where
  pub project_id : ℕ
  pub unit_id : ℕ
  pub token : ℕ
  pub expected_generation : Option ℕ
  pub expected_routing_version : Option ℕ

-- An expectation that was given and is not met.
abbrev pub differs : Option ℕ → ℕ → Bool
differs none v = false
differs (some e) v = not (e == v)

pub data Decision : Type 0 where
  refuse replay start : Decision

abbrev pub is_used : ℕ → ℕ → ℕ → Claim → Bool
is_used unit actor token c =
    c.unit_id == unit && c.actor_id == actor && c.claim_token_digest == token

-- The tests of `claim`, in their order; the flag says whether the token was used for this unit.
unfoldable pub decide : ClaimArguments → ℕ → ℕ → Bool → WorkUnit → Bundle → Decision
decide a actor now used u b =
    if differs a.expected_routing_version b.version
    then refuse
    else if is_state claimed u && is_after u.lease_expires_at now
    then (if holds u.claimed_by actor && holds u.claim_token_digest a.token
        then (if elim a.expected_generation [
          | none ↦ false
          | some e ↦ not (e + 1 == u.claim_generation)
        ]
            then refuse
            else replay)
        else refuse)
    else if differs a.expected_generation u.claim_generation
    then refuse
    else if not (is_state available u || is_state claimed u)
    then refuse
    else if used
    then refuse
    else start

-- The row that the UPDATE writes.
abbrev pub take : ℕ → ℕ → ℕ → WorkUnit → WorkUnit
take actor token until u = record u {
  state = claimed;
  claimed_by = some actor;
  claim_token_digest = some token;
  claim_generation = u.claim_generation + 1;
  lease_expires_at = some until;
}

abbrev pub lease_end : ℕ → Policy → Bundle → ℕ
lease_end now p b = min b.expires_at (now + p.lease_seconds * second)

-- The flag of the answer is `replayed`.
unfoldable pub act :
    Decision
    → ClaimArguments
    → ℕ
    → ℕ
    → Policy
    → WorkUnit
    → Bundle
    → Store
    → Store × Result (WorkUnit × Bool)
act refuse a actor now p u b s = (s, raise conflict)
act replay a actor now p u b s = (s, ok (u, true))
act start a actor now p u b s = (
  record s {
    units = update (has_id u.id) (take actor a.token (lease_end now p b)) s.units;
    claims =
        s.claims
        ++ (record {
          unit_id = u.id;
          actor_id = actor;
          claim_token_digest = a.token;
          claim_generation = u.claim_generation + 1;
        }
            ∷ []);
    events =
        s.events
        ++ (record {
          project_id = a.project_id;
          actor_id = actor;
          action = claim_event;
          target_id = b.id;
          unit_id = u.id;
          claim_generation = u.claim_generation + 1;
        }
            ∷ []);
  },
  ok (take actor a.token (lease_end now p b) u, false),
)

unfoldable pub claim_with :
    ClaimArguments
    → ℕ
    → ℕ
    → Store
    → Result Policy
    → Result (WorkUnit × Bundle)
    → Store × Result (WorkUnit × Bool)
claim_with a actor now s (raise e) r = (s, raise e)
claim_with a actor now s (ok p) (raise e) = (s, raise e)
claim_with a actor now s (ok p) (ok (u, b)) =
    act (decide a actor now (any (is_used u.id actor a.token) s.claims) u b) a actor now p u b s

unfoldable pub claim : ClaimArguments → ℕ → ℕ → ℕ → Store → Store × Result (WorkUnit × Bool)
claim a actor opened now s =
    claim_with a actor now s (policy a.project_id true s)
      (locate a.project_id a.unit_id actor opened s)
