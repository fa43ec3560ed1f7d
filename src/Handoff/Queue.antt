-- ===== src/Handoff/Queue.antt =====
-- `insert_handoff`, `get_handoff_by_attempt`, `list_pending_handoffs` and the one-shot `claim_handoff`.
pub mod Listing
pub mod Publish
use isekai_memory.Base.{
  ℕ, ◌+◌, Bool, true, false, ◌&&◌, ◌||◌, not, Option, none, some, List, [], ◌∷◌, ◌++◌, ltb, leb,
  ◌==◌, if◌then◌else◌, any, select, is_some, zero, suc,
}
use isekai_memory.Base.Outcome.{Result, ok, raise, tool_error, handoff}
use isekai_memory.Base.Table.{fetch, update}
use isekai_memory.Handoff.Rows.{
  Handoff, Store, pending, claimed, expired, has_id, is_after, is_past, has_status,
}

-- The arguments of `insert_handoff`, with the new row's `id` and the transaction's `now()`.
-- `payload_digest` is the digest that `push_handoff` has computed of the payload, its sender included.
pub record Submission : Type 0 where
  pub id : ℕ
  pub now : ℕ
  pub project_id : ℕ
  pub phase_attempt_id : ℕ
  pub from_user : ℕ
  pub unit_id : ℕ
  pub payload_digest : ℕ
  pub document : ℕ
  pub expires_at : ℕ
  pub handoff_version : ℕ
  pub recipient_user_id : Option ℕ

abbrev pub is_attempt : ℕ → ℕ → Handoff → Bool
is_attempt project attempt h = h.project_id == project && h.phase_attempt_id == attempt

abbrev pub new_handoff : Submission → Handoff
new_handoff a = record {
  id = a.id;
  project_id = a.project_id;
  phase_attempt_id = a.phase_attempt_id;
  from_user = a.from_user;
  unit_id = a.unit_id;
  payload_digest = a.payload_digest;
  document = a.document;
  created_at = a.now;
  expires_at = some a.expires_at;
  handoff_version = a.handoff_version;
  recipient_user_id = a.recipient_user_id;
  continuity_managed = false;
  status = pending;
  claimed_by = none;
  claimed_at = none;
  claim_token_digest = none;
  claim_lease_expires_at = none;
  claim_generation = 0;
  claim_disposition = none;
  claim_reason_code = none;
}

-- `is_eligible project user` is the view `memory_eligible_members`.
module _ (is_eligible : ℕ → ℕ → Bool) where
  abbrev is_unreachable : ℕ → Option ℕ → Bool
  is_unreachable project none = false
  is_unreachable project (some user) = not (is_eligible project user)

  -- `none` if the attempt has a row already.
  unfoldable pub insert_handoff : Submission → Store → Result (Store × Option Handoff)
  insert_handoff a s =
      if any (is_attempt a.project_id a.phase_attempt_id) s.handoffs
      then ok (s, none)
      else if is_unreachable a.project_id a.recipient_user_id
      then raise (tool_error handoff 13)
      else ok (record s { handoffs = s.handoffs ++ (new_handoff a ∷ []) }, some (new_handoff a))

unfoldable pub get_handoff_by_attempt : ℕ → ℕ → Store → Option Handoff
get_handoff_by_attempt project attempt s = fetch (is_attempt project attempt) s.handoffs

-- Rows that the lister and the one-shot claim may touch.
abbrev pub is_plain : Handoff → Bool
is_plain h = h.handoff_version == 1 && not h.continuity_managed

abbrev pub expire : Handoff → Handoff
expire h = record h { status = expired }

-- The first statement of `list_pending_handoffs`.
abbrev pub is_overdue : ℕ → ℕ → Handoff → Bool
is_overdue project now h =
    h.project_id == project && has_status pending h && is_past h.expires_at now && is_plain h

unfoldable pub expire_overdue : ℕ → ℕ → Store → Store
expire_overdue project now s = record s {
  handoffs = update (is_overdue project now) expire s.handoffs;
}

-- A NULL filter lets every row through.
abbrev matches_unit : Option ℕ → Handoff → Bool
matches_unit none h = true
matches_unit (some u) h = h.unit_id == u

abbrev not_from : Option ℕ → Handoff → Bool
not_from none h = true
not_from (some actor) h = not (h.from_user == actor)

-- `(created_at,id) < (SELECT created_at,id FROM handoffs WHERE id=$3 AND project_id=$1)`, with a
-- missing cursor row as NULL.
abbrev is_before : List Handoff → ℕ → Option ℕ → Handoff → Bool
is_before t project none h = true
is_before t project (some after_id) h = elim (fetch (has_id after_id) t) [
  | none ↦ false
  | some a ↦
      a.project_id == project
      && (ltb h.created_at a.created_at || h.created_at == a.created_at && ltb h.id a.id)
]

-- The WHERE clause of the listing.
abbrev pub is_listed : List Handoff → ℕ → Option ℕ → Option ℕ → Option ℕ → ℕ → Handoff → Bool
is_listed t project unit after_id exclude_actor now h =
    h.project_id == project
    && (has_status pending h
        || has_status claimed h
          && is_some h.claim_token_digest
          && is_past h.claim_lease_expires_at now)
    && is_after h.expires_at now
    && is_plain h
    && matches_unit unit h
    && is_before t project after_id h
    && not_from exclude_actor h

-- `ORDER BY created_at DESC, id DESC`
abbrev is_newer : Handoff → Handoff → Bool
is_newer a b = ltb b.created_at a.created_at || a.created_at == b.created_at && ltb b.id a.id

unfoldable pub insert_sorted : Handoff → List Handoff → List Handoff
insert_sorted h [] = h ∷ []
insert_sorted h (g ∷ t) = if is_newer h g then h ∷ g ∷ t else g ∷ insert_sorted h t

unfoldable pub sort : List Handoff → List Handoff
sort [] = []
sort (h ∷ t) = insert_sorted h (sort t)

unfoldable pub take : ℕ → List Handoff → List Handoff
take zero t = []
take (suc n) [] = []
take (suc n) (h ∷ t) = h ∷ take n t

unfoldable pub list_pending_handoffs :
    ℕ → Option ℕ → ℕ → Option ℕ → Option ℕ → ℕ → Store → Store × List Handoff
list_pending_handoffs project unit limit after_id exclude_actor now s =
    let s' = expire_overdue project now s in
    (
      s',
      take limit (
          sort
            (select (is_listed s'.handoffs project unit after_id exclude_actor now) s'.handoffs)),
    )

-- `$3::text IS NULL OR project_id=$3`
abbrev matches_project : Option ℕ → Handoff → Bool
matches_project none h = true
matches_project (some p) h = h.project_id == p

abbrev pub is_claimable : ℕ → Option ℕ → Handoff → Bool
is_claimable now project h =
    has_status pending h && is_after h.expires_at now && is_plain h && matches_project project h

abbrev pub take_over : ℕ → ℕ → Handoff → Handoff
take_over actor now h = record h {
  status = claimed;
  claimed_by = some actor;
  claimed_at = some now;
  claim_token_digest = none;
  claim_lease_expires_at = none;
  claim_generation = h.claim_generation + 1;
  claim_disposition = none;
  claim_reason_code = none;
}

-- With the row of that id.
unfoldable pub pull : ℕ → Option ℕ → ℕ → Store → Option Handoff → Store × Option Handoff
pull actor project now s none = (s, none)
pull actor project now s (some h) =
    if is_claimable now project h
    then (
      record s { handoffs = update (has_id h.id) (take_over actor now) s.handoffs },
      some (take_over actor now h),
    )
    else (s, none)

unfoldable pub claim_handoff : ℕ → ℕ → Option ℕ → ℕ → Store → Store × Option Handoff
claim_handoff handoff_id actor project now s =
    pull actor project now s (fetch (has_id handoff_id) s.handoffs)
