-- ===== src/Presence/Sessions/Administration.antt =====
-- `policy_set` and `prune` of isekai_memory/continuity/presence.py, with the receipts of common.py.
use isekai_memory.Base.{
  ℕ, ◌+◌, ◌*◌, Bool, true, false, ◌&&◌, ◌||◌, not, Option, none, some, List, [], ◌∷◌, ◌++◌, ltb,
  ◌==◌, if◌then◌else◌, any, length, select, is_some,
}
use isekai_memory.Base.Table.{update}
use isekai_memory.Base.Sorted.{order_by, limit_to}
use isekai_memory.Base.Outcome.{Result, ok, raise}
use isekai_memory.Continuity.Filed.{presence_policy_set, presence_prune, Request, replay, file}
use isekai_memory.Access.Tokens.{Principal, admin, contributed, authorize_tool}
use isekai_memory.Presence.Times.{unknown, PresencePolicy, missing, instant, second}
use isekai_memory.Presence.State.{other_scope}
use isekai_memory.Presence.Sessions.Rows.{
  Session, Body, PolicyRow, policy_event, prune_event, Store, conflict, invalid, policy,
  policy_values,
}
use isekai_memory.Presence.Sessions.Operations.{Reply, filed, refuse, recorded}

pub record PolicySet : Type 0 where
  pub request : Request
  pub body : Body
  pub expected_version : ℕ

-- `INSERT … ON CONFLICT(project_id) DO UPDATE`
abbrev pub upsert : PolicyRow → List PolicyRow → List PolicyRow
upsert r t =
    if any (λ (x : PolicyRow). x.project_id == r.project_id) t
    then update (λ (x : PolicyRow). x.project_id == r.project_id)
        (λ x. record x { version = r.version; policy = r.policy }) t
    else t ++ (r ∷ [])

-- After the receipt lookup.
unfoldable pub set_policy : PolicySet → ℕ → Store → Result (Option ℕ) → Store × Reply
set_policy a actor s (raise e) = (s, refuse e)
set_policy a actor s (ok (some version)) = (s, filed version true)
set_policy a actor s (ok none) =
    let version = (policy a.request.project_id s).0 in
    if not (version == a.expected_version) then (s, refuse conflict) else (
      record s {
        policies =
            upsert
              (record { project_id = a.request.project_id; version = version + 1; policy = a.body })
              s.policies;
        receipts = s.receipts ++ (file a.request presence_policy_set actor (version + 1) ∷ []);
        events =
            s.events
            ++ (recorded a.request.project_id actor policy_event a.request.project_id (version + 1)
                ∷ []);
      },
      filed (version + 1) false,
    )

abbrev pub checked_policy_set : PolicySet → ℕ → Store → Option PresencePolicy → Store × Reply
checked_policy_set a actor s none = (s, refuse invalid)
checked_policy_set a actor s (some _) =
    set_policy a actor s (replay a.request presence_policy_set actor s.receipts)

abbrev pub authorized : Result (Unit {0}) → Store → Store × Reply → Store × Reply
authorized (raise e) s result = (s, refuse e)
authorized (ok _) s result = result

unfoldable pub policy_set : PolicySet → Principal → Store → Store × Reply
policy_set a p s =
    authorized (authorize_tool p (contributed admin true) (some a.request.project_id)) s
      (checked_policy_set a p.user_id s (policy_values a.body))

-- `COALESCE(ended_at, last_seen_at)`
abbrev ended_or_seen : Session → ℕ
ended_or_seen r = elim r.ended_at [ none ↦ instant r.last_seen_at | some t ↦ t ]

-- A session whose end, or last report, lies before the cutoff `now - hours`.
abbrev pub is_expired : ℕ → ℕ → ℕ → Session → Bool
is_expired project hours now r =
    r.project_id == project
    && not (is_some r.retired_at)
    && ltb (ended_or_seen r + hours * 3600 * second) now

-- `ORDER BY last_seen_at, id`
abbrev seen_before : Session → Session → Bool
seen_before a b =
    ltb (instant a.last_seen_at) (instant b.last_seen_at)
    || instant a.last_seen_at == instant b.last_seen_at && ltb a.id b.id

unfoldable pub candidates : ℕ → ℕ → ℕ → ℕ → List Session → List Session
candidates project hours now limit t =
    limit_to limit (order_by seen_before (select (is_expired project hours now) t))

abbrev pub is_candidate : List Session → Session → Bool
is_candidate c r = any (λ x. x.id == r.id) c

-- The columns that the UPDATE of `prune` sets.
abbrev pub retire_row : ℕ → Session → Session
retire_row now r = record r {
  retired_at = some now;
  ended_at = elim r.ended_at [ none ↦ some now | some t ↦ some t ];
  reported_state = unknown;
  observation_scope = other_scope;
  state_observation_available = false;
  active_work_count = 0;
  work_unit_id = none;
  checkpoint_id = none;
  idle_since_at = missing;
}

unfoldable pub retire_expired : Request → ℕ → ℕ → ℕ → Store → Result (Option ℕ) → Store × Reply
retire_expired a limit actor now s (raise e) = (s, refuse e)
retire_expired a limit actor now s (ok (some retired)) = (s, filed retired true)
retire_expired a limit actor now s (ok none) =
    let c =
      candidates a.project_id (policy a.project_id s).1.retention_hours now limit s.sessions in
    let retired = length (select (is_candidate c) s.sessions) in
    (
      record s {
        sessions = update (is_candidate c) (retire_row now) s.sessions;
        receipts = s.receipts ++ (file a presence_prune actor retired ∷ []);
        events = s.events ++ (recorded a.project_id actor prune_event a.project_id retired ∷ []);
      },
      filed retired false,
    )

-- `prune`; an absent `limit` is 100.
unfoldable pub prune : Request → Option ℕ → Principal → ℕ → Store → Store × Reply
prune a limit p now s =
    authorized (authorize_tool p (contributed admin true) (some a.project_id)) s (
      retire_expired a (elim limit [ none ↦ 100 | some n ↦ n ]) p.user_id now s
        (replay a presence_prune p.user_id s.receipts))
