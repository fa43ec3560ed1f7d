-- ===== src/Experience/Tests.antt =====
-- A claim that is rejected and proposed again, and the theorem at its tables.
use isekai_memory.Base.{ℕ, ◌≡◌, refl, true, false, none, some, [], ◌∷◌}
use isekai_memory.Base.Outcome.{ok, raise}
use isekai_memory.Experience.Rows.{
  pending, rejected, approve, reject, Experience, Store, suppress, error,
}
use isekai_memory.Experience.Lifecycle.{
  Review, review, review_found, review_row, review_parent, apply_review, carry_out, log, refusal,
  retire, release_suppression, release_found, release_with,
}
use isekai_memory.Experience.Blocked.{none_yet, rejected_claim_blocked}
use isekai_memory.Experience.Outcomes.{is_made}

abbrev proposed : ℕ → Experience
proposed id = record {
  id = id;
  project_id = 1;
  status = pending;
  version = 1;
  supersedes_id = none;
  supersedes_version = none;
  expires_at = none;
  valid_from = none;
  source_payload_digest = 50;
  content_fingerprint = 60;
  document = some 70;
}

abbrev twice : Store
twice = record { experiences = proposed 5 ∷ proposed 6 ∷ []; events = []; suppressions = [] }

abbrev rejection : Review
rejection = record {
  project_id = 1;
  memory_id = 5;
  actor_id = 9;
  action = reject;
  expected_version = 1;
}

abbrev approval : Review
approval = record {
  project_id = 1;
  memory_id = 6;
  actor_id = 8;
  action = approve;
  expected_version = 1;
}

abbrev after_rejection : Store
after_rejection = (review rejection 10 twice).0

rejected_once : review rejection 10 twice ≡ (
  after_rejection,
  ok (record { applied_status = rejected; applied_version = 2; related_memory_id = none }, false),
)
unfolding review review_found review_row review_parent apply_review carry_out log
rejected_once = refl

approval_refused : (review approval 20 after_rejection).1 ≡ raise (error 7)
unfolding review review_found review_row review_parent apply_review carry_out log refusal suppress
approval_refused = refl

approval_accepted : is_made (review approval 20 twice).1 ≡ true
unfolding review review_found review_row review_parent apply_review carry_out log refusal retire
approval_accepted = refl

-- An administrator releases the suppression, and the second proposal can be approved.
released : (release_suppression 1 5 7 1 15 after_rejection).1 ≡ ok (2, false)
unfolding review review_found review_row review_parent apply_review carry_out log suppress
    release_suppression release_found release_with
released = refl

accepted_after_release :
    is_made (review approval 20 (release_suppression 1 5 7 1 15 after_rejection).0).1 ≡ true
unfolding review review_found review_row review_parent apply_review carry_out log suppress
    release_suppression release_found release_with refusal retire
accepted_after_release = refl

rejected_claim_blocked_example :
    ((review approval 20 after_rejection).0 ≡ after_rejection)
    × (is_made (review approval 20 after_rejection).1 ≡ false)
unfolding review review_found review_row review_parent apply_review carry_out log suppress
rejected_claim_blocked_example =
    rejected_claim_blocked rejection approval 10 20 twice after_rejection after_rejection
      (record { applied_status = rejected; applied_version = 2; related_memory_id = none })
      (proposed 5) (proposed 6) rejected_once refl refl none_yet refl refl refl refl refl
