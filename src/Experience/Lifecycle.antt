-- ===== src/Experience/Lifecycle.antt =====
-- `review` and `release_suppression` of isekai_memory/experience/lifecycle.py. Each is one
-- transaction behind the project's lock; a raise rolls it back.
use isekai_memory.Base.{
  ℕ, ◌+◌, Bool, true, false, ◌&&◌, ◌||◌, not, Option, none, some, [], ◌∷◌, ◌++◌, ltb, leb, ◌==◌,
  if◌then◌else◌, is_some,
}
use isekai_memory.Base.Table.{fetch, update}
use isekai_memory.Base.Outcome.{Result, ok, raise}
use isekai_memory.Experience.Rows.{
  Status, pending, active, rejected, archived, superseded, forgotten, Action, approve, reject,
  archive, forget, Logged, reviewed, supersede, Experience, Event, Suppression, Store, is_status,
  has_id, is_action, missing, error, is_claim, is_suppressed, suppress,
}

-- What `_receipt` answers.
pub record Receipt : Type 0 where
  pub applied_status : Status
  pub applied_version : ℕ
  pub related_memory_id : Option ℕ

abbrev pub receipt_of : Event → Receipt
receipt_of e = record {
  applied_status = e.applied_status;
  applied_version = e.version;
  related_memory_id = e.related_memory_id;
}

abbrev pub move : Status → Experience → Experience
move after x = record x { status = after; version = x.version + 1 }

abbrev pub event_of : Experience → ℕ → Logged → Status → Option ℕ → Event
event_of row actor action after related = record {
  memory_id = row.id;
  version = row.version + 1;
  actor_id = actor;
  action = action;
  previous_status = row.status;
  applied_status = after;
  related_memory_id = related;
}

-- `_event`
unfoldable pub log : Experience → ℕ → Logged → Status → Option ℕ → Store → Store
log row actor action after related s = record s {
  experiences = update (has_id row.id) (move after) s.experiences;
  events = s.events ++ (event_of row actor action after related ∷ []);
}

-- The arguments of a review.
pub record Review : Type 0 where
  pub project_id : ℕ
  pub memory_id : ℕ
  pub actor_id : ℕ
  pub action : Action
  pub expected_version : ℕ

abbrev pub is_receipt : Review → Event → Bool
is_receipt a e = e.memory_id == a.memory_id && e.version == a.expected_version + 1

-- The status that the action starts from; `forget` starts from any.
abbrev pub starts_from : Action → Experience → Bool
starts_from approve x = is_status pending x
starts_from reject x = is_status pending x
starts_from archive x = is_status active x
starts_from forget x = true

abbrev pub status_after : Action → Status
status_after approve = active
status_after reject = rejected
status_after archive = archived
status_after forget = forgotten

-- The row is of the expected version and may take this action.
abbrev pub is_applicable : Review → Experience → Bool
is_applicable a x =
    x.version == a.expected_version && not (is_status forgotten x) && starts_from a.action x

abbrev has_version : Option ℕ → ℕ → Bool
has_version none v = false
has_version (some w) v = v == w

-- The row that a revision replaces: `ok none` if the review replaces none.
abbrev check_parent : Experience → Option Experience → Result (Option Experience)
check_parent row none = raise (error 8)
check_parent row (some parent) =
    if is_status active parent && has_version row.supersedes_version parent.version
    then ok (some parent)
    else raise (error 8)

abbrev pub find_parent : Action → Experience → Store → Option ℕ → Result (Option Experience)
find_parent approve row s (some i) =
    check_parent row
      (fetch (λ (x : Experience). has_id i x && x.project_id == row.project_id) s.experiences)
find_parent approve row s none = ok none
find_parent _ row s o = ok none

abbrev has_ended : Option ℕ → ℕ → Bool
has_ended none now = false
has_ended (some t) now = leb t now

abbrev not_begun : Option ℕ → ℕ → Bool
not_begun none now = false
not_begun (some t) now = ltb now t

-- The number of the error that an approval raises.
unfoldable pub refusal : Experience → ℕ → Store → Option ℕ
refusal row now s =
    if has_ended row.expires_at now || not_begun row.valid_from now
    then some 4
    else if is_suppressed row.project_id row.source_payload_digest row.content_fingerprint s
    then some 7
    else none

abbrev pub same_claim : Experience → Experience → Bool
same_claim x y =
    x.source_payload_digest == y.source_payload_digest
    && x.content_fingerprint == y.content_fingerprint

abbrev id_of : Option Experience → Option ℕ
id_of none = none
id_of (some x) = some x.id

-- `if parent is not None:`
unfoldable pub retire : Experience → ℕ → Option Experience → Store → Store
retire row actor none s = s
retire row actor (some parent) s =
    log parent actor supersede superseded (some row.id)
      (if same_claim parent row then s else suppress parent actor superseded s)

abbrev pub erase : Experience → Experience
erase x = record x { status = forgotten; document = none }

-- What each action does to the row besides its event.
unfoldable pub carry_out : Action → Experience → ℕ → Option Experience → Store → Store
carry_out approve row actor parent s = retire row actor parent s
carry_out reject row actor parent s = suppress row actor rejected s
carry_out archive row actor parent s = s
carry_out forget row actor parent s =
    let t = suppress row actor forgotten s in
    record t { experiences = update (has_id row.id) erase t.experiences }

abbrev pub finish :
    Review → Experience → Option Experience → Store → Store × Result (Receipt × Bool)
finish a row parent s = (
  log row a.actor_id (reviewed a.action) (status_after a.action) (id_of parent)
      (carry_out a.action row a.actor_id parent s),
  ok (
    receipt_of (event_of row a.actor_id (reviewed a.action) (status_after a.action) (id_of parent)),
    false,
  ),
)

-- `if action == "approve":` and what follows it
unfoldable pub apply_review :
    Review → Experience → Option Experience → ℕ → Store → Action → Store × Result (Receipt × Bool)
apply_review a row parent now s approve = elim (refusal row now s) [
  | some n ↦ (s, raise (error n))
  | none ↦ finish a row parent s
]
apply_review a row parent now s _ = finish a row parent s

unfoldable pub review_parent :
    Review → Experience → ℕ → Store → Result (Option Experience) → Store × Result (Receipt × Bool)
review_parent a row now s (raise e) = (s, raise e)
review_parent a row now s (ok parent) = apply_review a row parent now s a.action

abbrev pub is_repeated : Review → Option Event → Bool
is_repeated a none = false
is_repeated a (some e) = e.actor_id == a.actor_id && is_action a.action e.action

-- With the row and the event that were looked up. The flag of the answer is `already_applied`.
unfoldable pub review_row :
    Review → ℕ → Store → Experience → Option Event → Store × Result (Receipt × Bool)
review_row a now s row o =
    if is_repeated a o
    then (s, elim o [ none ↦ raise (error 3) | some e ↦ ok (receipt_of e, true) ])
    else if not (is_applicable a row)
    then (s, raise (error 3))
    else review_parent a row now s (find_parent a.action row s row.supersedes_id)

unfoldable pub review_found :
    Review → ℕ → Store → Option Experience → Store × Result (Receipt × Bool)
review_found a now s none = (s, raise missing)
review_found a now s (some row) = review_row a now s row (fetch (is_receipt a) s.events)

unfoldable pub review : Review → ℕ → Store → Store × Result (Receipt × Bool)
review a now s =
    review_found a now s (
      fetch (λ (x : Experience). has_id a.memory_id x && x.project_id == a.project_id)
        s.experiences)

abbrev pub release_claim : ℕ → ℕ → Suppression → Suppression
release_claim actor now x = record x {
  released_at = some now;
  updated_by = actor;
  version = x.version + 1;
}

-- With the suppression of the row's claim. The flag of the answer is `already_released`.
unfoldable pub release_with :
    ℕ → Experience → ℕ → ℕ → ℕ → Store → Option Suppression → Store × Result (ℕ × Bool)
release_with project row actor expected now s none = (s, raise missing)
release_with project row actor expected now s (some x) =
    if is_some x.released_at && x.version == expected + 1 && x.updated_by == actor
    then (s, ok (expected + 1, true))
    else if not (x.version == expected) || is_some x.released_at
    then (s, raise (error 9))
    else (
      record s {
        suppressions =
            update (is_claim project row.source_payload_digest row.content_fingerprint)
              (release_claim actor now) s.suppressions;
      },
      ok (expected + 1, false),
    )

unfoldable pub release_found : ℕ → ℕ → ℕ → ℕ → Store → Option Experience → Store × Result (ℕ × Bool)
release_found project actor expected now s none = (s, raise missing)
release_found project actor expected now s (some row) =
    release_with project row actor expected now s
      (fetch (is_claim project row.source_payload_digest row.content_fingerprint) s.suppressions)

unfoldable pub release_suppression : ℕ → ℕ → ℕ → ℕ → ℕ → Store → Store × Result (ℕ × Bool)
release_suppression project memory_id actor expected now s =
    release_found project actor expected now s
      (fetch (λ (x : Experience). has_id memory_id x && x.project_id == project) s.experiences)
