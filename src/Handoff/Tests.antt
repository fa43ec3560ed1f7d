-- ===== src/Handoff/Tests.antt =====
-- A run of the operations on handoffs of isekai_memory/store/queries.py, and the theorems at its states.
use isekai_memory.Base.{
  ℕ, ◌+◌, ◌≡◌, refl, sym, ap, Bool, true, false, Option, none, some, [], ◌∷◌, arith, any, ◌==◌,
  if◌then◌else◌,
}
use isekai_memory.Base.Outcome.{ok, raise, tool_error, handoff}
use isekai_memory.Base.Table.{fetch}
use isekai_memory.Handoff.Rows.{
  Handoff, Store, Claim, is_acknowledged, is_nacked, has_id, is_receipt_of, is_new,
}
use isekai_memory.Handoff.Lease.{
  claim_handoff_lease, claim_locked, carry_out, claim_decision, grant, get_claimed_handoff,
}
use isekai_memory.Handoff.Settle.{
  acknowledge, acknowledge_handoff, acknowledge_with, acknowledge_locked, nack_handoff, nack_with,
  nack_locked, nack, receipt_of,
}
use isekai_memory.Handoff.Queue.{Submission, new_handoff}
use isekai_memory.Handoff.Queue.Publish.{push_handoff, finish_push, push_handoff_repeats}
use isekai_memory.Handoff.Evolution.{Evolves}
use isekai_memory.Handoff.Outcomes.{IsGrantable}
use isekai_memory.Handoff.Steps.{leases, start, then_step, Run-Evolves}
use isekai_memory.Handoff.Renewal.{renew_lease, renew_locked, renew_until, extend}
use isekai_memory.Handoff.Promotion.{publish, publish_locked}
use isekai_memory.Continuity.Tables.{conflict}
use isekai_memory.Handoff.Safety.{
  IsLease, claim_handoff_lease_exclusive, claim_handoff_lease_grants, settlement_fenced,
}
use isekai_memory.Handoff.Retry.{claim_handoff_lease_replays, acknowledge_handoff_replays}
use isekai_memory.Handoff.Progress.{
  abandoned_lease_recovers, nack_handoff_reopens, nacked_token_spent,
}
use isekai_memory.Handoff.Service.{
  Settings, Arguments, claim_handoff_recoverable, nack_claimed_handoff,
}
use isekai_memory.Handoff.Errors.{claim_handoff_recoverable_raises, nack_claimed_handoff_raises}

abbrev submission : Submission
submission = record {
  id = 7;
  now = 0;
  project_id = 1;
  phase_attempt_id = 2;
  from_user = 3;
  unit_id = 4;
  payload_digest = 99;
  document = 5;
  expires_at = 1_000_000_000;
  handoff_version = 1;
  recipient_user_id = none;
}

abbrev anybody : ℕ → ℕ → Bool
anybody project user = true

abbrev published : Store
published = record { handoffs = new_handoff submission ∷ []; receipts = [] }

abbrev alice : Claim
alice = record { handoff_id = 7; project_id = 1; claimed_by = 20; claim_token_digest = 200 }

abbrev bob : Claim
bob = record { handoff_id = 7; project_id = 1; claimed_by = 30; claim_token_digest = 300 }

-- Alice leases it for 300 s at 10 s.
abbrev lease : Handoff
lease = grant alice 300 10_000_000 (new_handoff submission)

abbrev leased : Store
leased = record { handoffs = lease ∷ []; receipts = [] }

pushed :
    push_handoff anybody submission (record { handoffs = []; receipts = [] })
    ≡ (published, ok (new_handoff submission, false))
unfolding push_handoff finish_push
pushed = refl

granted_to_alice :
    claim_handoff_lease alice 300 1 10_000_000 10_000_000 published ≡ (leased, some (lease, false))
unfolding claim_handoff_lease claim_locked carry_out claim_decision
granted_to_alice = refl

push_handoff_repeats_example : push_handoff anybody submission published ≡ (
  published,
  if ◌==◌ 99 99 then ok (new_handoff submission, true) else raise (tool_error handoff 5),
)
push_handoff_repeats_example =
    push_handoff_repeats anybody submission submission (record { handoffs = []; receipts = [] })
      published (new_handoff submission) pushed refl refl

claim_handoff_lease_exclusive_example :
    claim_handoff_lease bob 300 1 20_000_000 20_000_000 leased ≡ (leased, none)
claim_handoff_lease_exclusive_example =
    claim_handoff_lease_exclusive bob 300 1 20_000_000 20_000_000 leased lease refl refl refl refl

claim_handoff_lease_grants_example :
    IsLease alice 300 10_000_000 leased lease
    × (h : Handoff) × (fetch (has_id 7) published.handoffs ≡ some h)
    × (lease.claim_generation ≡ h.claim_generation + 1)
    × IsGrantable alice 1 10_000_000 h
    × (leased.receipts ≡ published.receipts)
    × (any (is_receipt_of alice) published.receipts ≡ false)
    × (lease ≡ grant alice 300 10_000_000 h)
claim_handoff_lease_grants_example =
    claim_handoff_lease_grants alice 300 1 10_000_000 10_000_000 published leased lease
      granted_to_alice

-- The lease of Alice has run out at 400 s, and Bob claims the handoff.
abbrev second_lease : Handoff
second_lease = grant bob 300 400_000_000 lease

abbrev leased_again : Store
leased_again = record { handoffs = second_lease ∷ []; receipts = [] }

granted_to_bob :
    claim_handoff_lease bob 300 1 400_000_000 400_000_000 leased
    ≡ (leased_again, some (second_lease, false))
unfolding claim_handoff_lease claim_locked carry_out claim_decision
granted_to_bob = refl

settlement_fenced_example :
    ((acknowledge_handoff alice 1 500_000_000 leased_again).0 ≡ leased_again)
    × (is_new (acknowledge_handoff alice 1 500_000_000 leased_again).1 ≡ false)
    × ((nack_handoff alice 1 6 500_000_000 leased_again).0 ≡ leased_again)
    × (is_new (nack_handoff alice 1 6 500_000_000 leased_again).1 ≡ false)
settlement_fenced_example =
    settlement_fenced anybody alice bob 300 1 10_000_000 10_000_000 300 1 400_000_000 400_000_000
      published leased leased leased_again leased_again lease second_lease 6 500_000_000
      granted_to_alice start granted_to_bob refl refl start

Run-Evolves_example : Evolves published leased
Run-Evolves_example = Run-Evolves anybody published leased (
    then_step start (
      leases alice 300 1 10_000_000 10_000_000
        (ap (λ (r : Store × Option (Handoff × Bool)). r.0) (sym granted_to_alice))))

-- Alice renews at 20 s, until 400 s.
abbrev renewed : Store
renewed = (renew_lease alice 1 400_000_000 900 20_000_000 leased).0

renewed_by_alice :
    renew_lease alice 1 400_000_000 900 20_000_000 leased
    ≡ (record { handoffs = extend 400_000_000 lease ∷ []; receipts = [] }, ok (400_000_000, true))
unfolding renew_lease renew_locked renew_until
renewed_by_alice = refl

too_long :
    renew_lease alice 1 950_000_000 900 20_000_000 leased ≡ (leased, raise (tool_error handoff 11))
unfolding renew_lease renew_locked renew_until
too_long = refl

-- A lease that runs keeps its handoff from a bundle.
not_promoted : publish 1 7 (ok tt) (ok tt) 20_000_000 leased ≡ raise conflict
unfolding publish publish_locked
not_promoted = refl

claim_handoff_lease_replays_example :
    (claim_handoff_lease alice 60 1 20_000_000 20_000_000 leased ≡ (leased, some (lease, true)))
    × (get_claimed_handoff alice 20_000_000 leased ≡ some lease)
claim_handoff_lease_replays_example =
    claim_handoff_lease_replays alice 300 1 10_000_000 10_000_000 60 20_000_000 20_000_000 published
      leased lease granted_to_alice refl

-- Alice acknowledges at 20 s.
abbrev done : Store
done = record {
  handoffs = acknowledge lease ∷ [];
  receipts = receipt_of alice 1 is_acknowledged none ∷ [];
}

acknowledged_by_alice : acknowledge_handoff alice 1 20_000_000 leased ≡ (done, some (1, false))
unfolding acknowledge_handoff acknowledge_with acknowledge_locked
acknowledged_by_alice = refl

acknowledge_handoff_replays_example :
    acknowledge_handoff alice 1 2_000_000_000 done ≡ (done, some (1, true))
acknowledge_handoff_replays_example =
    acknowledge_handoff_replays anybody alice 1 20_000_000 2_000_000_000 leased done done 1
      acknowledged_by_alice start

-- Alice rejects at 20 s, with the reason 6.
abbrev rejected : Store
rejected = record {
  handoffs = nack 6 lease ∷ [];
  receipts = receipt_of alice 1 is_nacked (some 6) ∷ [];
}

rejected_by_alice : nack_handoff alice 1 6 20_000_000 leased ≡ (rejected, some (1, false))
unfolding nack_handoff nack_with nack_locked
rejected_by_alice = refl

nack_handoff_reopens_example :
    (claim_handoff_lease bob 300 1 30_000_000 30_000_000 rejected).1
    ≡ some (grant bob 300 30_000_000 (nack 6 lease), false)
nack_handoff_reopens_example =
    nack_handoff_reopens alice bob 1 6 20_000_000 300 1 30_000_000 30_000_000 leased rejected lease
      1 refl rejected_by_alice refl refl refl refl (omega arith) refl refl

nacked_token_spent_example :
    ((claim_handoff_lease alice 300 1 30_000_000 30_000_000 rejected).0 ≡ rejected)
    × (is_new (claim_handoff_lease alice 300 1 30_000_000 30_000_000 rejected).1 ≡ false)
nacked_token_spent_example =
    nacked_token_spent anybody alice 1 6 20_000_000 300 1 30_000_000 30_000_000 leased rejected
      rejected 1 rejected_by_alice start

-- Bob takes over at 320 s, after Alice's lease.
abandoned_lease_recovers_example :
    (claim_handoff_lease bob 60 1 320_000_000 320_000_000 leased).1
    ≡ some (grant bob 60 320_000_000 lease, false)
abandoned_lease_recovers_example =
    abandoned_lease_recovers alice bob 300 1 10_000_000 10_000_000 60 1 320_000_000 320_000_000
      published leased lease granted_to_alice refl refl (omega arith) refl (omega arith) refl refl

-- The service, with a digest that adds 180 to a token.
abbrev bounds : Settings
bounds = record {
  claim_lease_min_seconds = 30;
  claim_lease_default_seconds = 300;
  claim_lease_max_seconds = 3600;
}

abbrev request : Option ℕ → Arguments
request lease_seconds = record {
  handoff_id = 7;
  project_id = 1;
  claim_token = 20;
  lease_seconds = lease_seconds;
  accept_handoff_version = none;
}

abbrev digest : ℕ → ℕ
digest token = token + 180

too_short :
    claim_handoff_recoverable digest bounds
      (request (some 29))
      20
      none
      10_000_000
      10_000_000
      published
    ≡ (published, raise (tool_error handoff 6))
unfolding claim_handoff_recoverable
too_short = refl

too_short_tables : published ≡ published
too_short_tables =
    claim_handoff_recoverable_raises digest (request (some 29)) 20 none bounds 10_000_000 10_000_000
      published published (tool_error handoff 6) too_short

by_default :
    claim_handoff_recoverable digest bounds (request none) 20 none 10_000_000 10_000_000 published
    ≡ (leased, ok (lease, false))
unfolding claim_handoff_recoverable claim_handoff_lease claim_locked carry_out claim_decision
by_default = refl

unclaimed :
    nack_claimed_handoff digest (request none) 1 6 20 none 10_000_000 published
    ≡ (published, raise (tool_error handoff 8))
unfolding nack_claimed_handoff nack_handoff nack_with nack_locked
unclaimed = refl

unclaimed_tables : (published ≡ published) × (tool_error handoff 8 ≡ tool_error handoff 8)
unclaimed_tables =
    nack_claimed_handoff_raises digest (request none) 20 none 1 6 10_000_000 published published
      (tool_error handoff 8) unclaimed
