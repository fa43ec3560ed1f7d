-- ===== src/Usage/Ledger/Administration.antt =====
-- `policy_set` and `prune` of isekai_memory/continuity/usage.py. Whether a time zone is known is a
-- parameter.
use isekai_memory.Base.{
  ℕ, ◌+◌, ◌*◌, Bool, true, false, ◌&&◌, ◌||◌, not, Option, none, some, List, [], ◌∷◌, ◌++◌, ltb,
  ◌==◌, if◌then◌else◌, any, length, select, is_some,
}
use isekai_memory.Base.Table.{update}
use isekai_memory.Base.Sorted.{order_by, limit_to}
use isekai_memory.Base.Outcome.{Result, ok, raise}
use isekai_memory.Continuity.Filed.{usage_policy_set, usage_prune, Request, replay, file}
use isekai_memory.Access.Tokens.{Principal, admin, contributed, authorize_tool}
use isekai_memory.Usage.Ledger.Rows.{
  Session, Body, PolicyRow, Action, policy_event, prune_event, Event, Store, conflict, invalid,
  policy, hours,
}
use isekai_memory.Usage.Ledger.Operations.{Reply, filed, refuse}

abbrev pub recorded : ℕ → ℕ → Action → ℕ → ℕ → Event
recorded project actor action target detail = record {
  project_id = project;
  actor_id = actor;
  action = action;
  target_id = target;
  detail = detail;
}

pub record PolicySet : Type 0 where
  pub request : Request
  pub body : Body
  pub expected_version : ℕ

-- `INSERT … ON CONFLICT(project_id) DO UPDATE`
abbrev pub upsert : PolicyRow → List PolicyRow → List PolicyRow
upsert r t =
    if any (λ (x : PolicyRow). x.project_id == r.project_id) t
    then update (λ (x : PolicyRow). x.project_id == r.project_id)
        (λ x. record x { version = r.version; policy = r.policy }) t
    else t ++ (r ∷ [])

-- After the receipt lookup.
unfoldable pub set_policy : PolicySet → ℕ → Store → Result (Option ℕ) → Store × Reply
set_policy a actor s (raise e) = (s, refuse e)
set_policy a actor s (ok (some version)) = (s, filed version true)
set_policy a actor s (ok none) =
    let version = (policy a.request.project_id s).0 in
    if not (version == a.expected_version) then (s, refuse conflict) else (
      record s {
        policies =
            upsert
              (record { project_id = a.request.project_id; version = version + 1; policy = a.body })
              s.policies;
        receipts = s.receipts ++ (file a.request usage_policy_set actor (version + 1) ∷ []);
        events =
            s.events
            ++ (recorded a.request.project_id actor policy_event a.request.project_id (version + 1)
                ∷ []);
      },
      filed (version + 1) false,
    )

abbrev pub authorized : Result (Unit {0}) → Store → Store × Reply → Store × Reply
authorized (raise e) s result = (s, refuse e)
authorized (ok _) s result = result

unfoldable pub policy_set : (ℕ → Bool) → PolicySet → Principal → Store → Store × Reply
policy_set is_timezone a p s =
    authorized (authorize_tool p (contributed admin true) (some a.request.project_id)) s (
      if is_timezone a.body.timezone
      then set_policy a p.user_id s (replay a.request usage_policy_set p.user_id s.receipts)
      else (s, refuse invalid))

abbrev bucket_or_created : Session → ℕ
bucket_or_created r = elim r.bucket_at [ none ↦ r.created_at | some t ↦ t ]

-- A session whose bucket, or creation, lies before the cutoff `now - days`.
abbrev pub is_expired : ℕ → ℕ → ℕ → Session → Bool
is_expired project days now r =
    r.project_id == project
    && not (is_some r.retired_at)
    && ltb (bucket_or_created r + hours (24 * days)) now

-- `ORDER BY created_at, id`
abbrev created_before : Session → Session → Bool
created_before a b = ltb a.created_at b.created_at || a.created_at == b.created_at && ltb a.id b.id

unfoldable pub candidates : ℕ → ℕ → ℕ → ℕ → List Session → List Session
candidates project days now limit t =
    limit_to limit (order_by created_before (select (is_expired project days now) t))

abbrev pub is_candidate : List Session → Session → Bool
is_candidate c r = any (λ x. x.id == r.id) c

-- The columns that the UPDATE of `prune` sets.
abbrev pub retire_row : ℕ → Session → Session
retire_row now r = record r { retired_at = some now; metrics = none }

unfoldable pub retire_expired : Request → ℕ → ℕ → ℕ → Store → Result (Option ℕ) → Store × Reply
retire_expired a limit actor now s (raise e) = (s, refuse e)
retire_expired a limit actor now s (ok (some retired)) = (s, filed retired true)
retire_expired a limit actor now s (ok none) =
    let c = candidates a.project_id (policy a.project_id s).1.retention_days now limit s.sessions in
    let retired = length (select (is_candidate c) s.sessions) in
    (
      record s {
        sessions = update (is_candidate c) (retire_row now) s.sessions;
        receipts = s.receipts ++ (file a usage_prune actor retired ∷ []);
        events = s.events ++ (recorded a.project_id actor prune_event a.project_id retired ∷ []);
      },
      filed retired false,
    )

-- `prune`; an absent `limit` is 100.
unfoldable pub prune : Request → Option ℕ → Principal → ℕ → Store → Store × Reply
prune a limit p now s =
    authorized (authorize_tool p (contributed admin true) (some a.project_id)) s (
      retire_expired a (elim limit [ none ↦ 100 | some n ↦ n ]) p.user_id now s
        (replay a usage_prune p.user_id s.receipts))
