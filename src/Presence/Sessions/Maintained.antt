-- ===== src/Presence/Sessions/Maintained.antt =====
-- The effect of `prune` and `policy_set` of isekai_memory/continuity/presence.py on the sessions.
use isekai_memory.Base.{
  ℕ, ◌≡◌, inl, inr, refl, true, Option, none, some, List, ◌==◌, arith, Bool-cases, Option-cases,
}
use isekai_memory.Base.Among.{Among, any-Among, All-intro, All-Among}
use isekai_memory.Base.Sorted.{All-select, All-order_by, All-limit_to}
use isekai_memory.Base.Outcome.{Result, ok, raise}
use isekai_memory.Access.Tokens.{Principal, admin, contributed, authorize_tool}
use isekai_memory.Continuity.Filed.{Request, presence_policy_set, presence_prune, replay}
use isekai_memory.Presence.Times.{PresencePolicy}
use isekai_memory.Presence.Sessions.Rows.{Session, Store, policy, policy_values}
use isekai_memory.Presence.Sessions.Operations.{Reply}
use isekai_memory.Presence.Sessions.Administration.{
  is_expired, candidates, is_candidate, retire_row, retire_expired, prune, PolicySet, policy_set,
  set_policy, authorized, checked_policy_set,
}
use isekai_memory.Presence.Sessions.Changes.{Allowed, IsKeyed, Effect, keeps, rewrites}

retire-Allowed : (now : ℕ) (r : Session) → r.retired_at ≡ none → Allowed r (retire_row now r)
retire-Allowed now r live = record {
  continues = record {
    id = refl;
    project_id = refl;
    actor_id = refl;
    client_instance_id = refl;
    token = refl;
    registration = refl;
    parent = refl;
    sequence = omega arith;
    classification = omega arith;
    ended = elim (Option-cases r.ended_at) [ inl n ↦ inl n | inr (t, e) ↦ inr (rw e) ];
    retired = inl live;
  };
  timed = λ h. record {
    seen = h.seen;
    since = h.since;
    ordered = h.ordered;
    interval = inl (λ e. cc e);
  };
  still_live = λ h. refl;
  still_ended = λ h. elim (Option-cases r.ended_at) [ inl n ↦ rw n | inr (t, e) ↦ rw e ];
}

-- The candidates of a prune are live sessions of the table.
candidate_row :
    (project hours now limit : ℕ) (t : List Session) (x : Session)
    → IsKeyed t
    → Among x t
    → is_candidate (candidates project hours now limit t) x ≡ true
    → x.retired_at ≡ none
unfolding candidates
candidate_row project hours now limit t x keyed m h =
    let P = λ (y : Session). Among y t × (is_expired project hours now y ≡ true) in
    let chosen = All-limit_to P limit _ (
      All-order_by P _ _ (
        All-select (λ y. Among y t) (is_expired project hours now) t
          (All-intro (λ y. Among y t) t (λ y n. n)))) in
    let (y, n, same) = any-Among _ _ h in
    let (k, expired) = All-Among P _ y chosen n in
    let e : x ≡ y = keyed x y m k (ground arith) in
    let live : y.retired_at ≡ none = ground arith in rw e live

authorized-Effect :
    (s : Store) (m : Result (Unit {0})) (result : Store × Reply)
    → Effect s result.0
    → Effect s (authorized m s result).0
authorized-Effect s (raise e) result h = keeps refl
authorized-Effect s (ok _) result h = h

retire-Effect :
    (a : Request) (limit actor now : ℕ) (s : Store) (m : Result (Option ℕ))
    → IsKeyed s.sessions
    → Effect s (retire_expired a limit actor now s m).0
unfolding retire_expired
retire-Effect a limit actor now s (raise e) keyed = keeps refl
retire-Effect a limit actor now s (ok (some r)) keyed = keeps refl
retire-Effect a limit actor now s (ok none) keyed =
    let hours = (policy a.project_id s).1.retention_hours in
    rewrites (is_candidate (candidates a.project_id hours now limit s.sessions)) (retire_row now)
      refl
      λ x m h.
        retire-Allowed now x (candidate_row a.project_id hours now limit s.sessions x keyed m h)

pub prune-Effect :
    (a : Request) (limit : Option ℕ) (p : Principal) (now : ℕ) (s : Store)
    → IsKeyed s.sessions
    → Effect s (prune a limit p now s).0
unfolding prune
prune-Effect a limit p now s keyed =
    authorized-Effect s (authorize_tool p (contributed admin true) (some a.project_id)) _
      (retire-Effect a _ p.user_id now s (replay a presence_prune p.user_id s.receipts) keyed)

set-Effect :
    (a : PolicySet) (actor : ℕ) (s : Store) (m : Result (Option ℕ))
    → Effect s (set_policy a actor s m).0
unfolding set_policy
set-Effect a actor s (raise e) = keeps refl
set-Effect a actor s (ok (some v)) = keeps refl
set-Effect a actor s (ok none) =
    elim (Bool-cases ((policy a.request.project_id s).0 == a.expected_version)) [
      | inl y ↦ rw y (keeps refl)
      | inr n ↦ rw n (keeps refl)
    ]

checked-Effect :
    (a : PolicySet) (actor : ℕ) (s : Store) (o : Option PresencePolicy)
    → Effect s (checked_policy_set a actor s o).0
checked-Effect a actor s none = keeps refl
checked-Effect a actor s (some _) =
    set-Effect a actor s (replay a.request presence_policy_set actor s.receipts)

pub policy_set-Effect : (a : PolicySet) (p : Principal) (s : Store) → Effect s (policy_set a p s).0
unfolding policy_set
policy_set-Effect a p s =
    authorized-Effect s (authorize_tool p (contributed admin true) (some a.request.project_id)) _
      (checked-Effect a p.user_id s (policy_values a.body))
