-- ===== src/Presence/Sessions/Servable.antt =====
-- The stored policies of isekai_memory/continuity/presence.py pass their checks, and every parent
-- session is in the table.
use isekai_memory.Base.{
  ℕ, ◌≡◌, inl, inr, refl, true, ◌&&◌, not, Option, none, some, List, ◌==◌, arith, All, any, is_some,
  Bool-cases, Option-cases,
}
use isekai_memory.Base.Table.{fetch, All-update, All-insert, fetch-any, any_mono}
use isekai_memory.Base.Among.{Among, update-Among, insert-Among, some_any, any-Among}
use isekai_memory.Base.Outcome.{Result, ok, raise}
use isekai_memory.Continuity.Filed.{Request, presence_policy_set, presence_prune, replay}
use isekai_memory.Presence.Times.{PresencePolicy}
use isekai_memory.Presence.Sessions.Rows.{
  Classification, Session, Body, PolicyRow, Store, has_id, policy, policy_values,
}
use isekai_memory.Presence.Sessions.Operations.{
  Plan, repeat_answer, insert_session, rewrite_session, fault, perform, Register, register,
  new_session, initial_class,
}
use isekai_memory.Presence.Sessions.Heartbeats.{heartbeat, end_session}
use isekai_memory.Presence.Sessions.Administration.{
  PolicySet, authorized, checked_policy_set, policy_set, set_policy, upsert, prune, retire_expired,
}
use isekai_memory.Presence.Sessions.Changes.{IsKeyed, Effect, keeps, inserts, rewrites}
use isekai_memory.Presence.Sessions.History.{
  Step, registers, reports, ends, prunes, sets_policy, Run, still, and_then, Run-IsKeyed,
  Step-Effect, Effect-Continues,
}

abbrev pub IsUsable : Body → Type 0
IsUsable b = (p : PresencePolicy) × (policy_values b ≡ some p)

abbrev pub IsPresent : List Session → Option ℕ → Type 0
IsPresent t none = Unit
IsPresent t (some q) = any (has_id q) t ≡ true

-- Every stored policy passes `PresencePolicy`, and every parent is there, which its foreign key says.
pub record IsServable (s : Store) : Type 0 where
  pub policies : All (λ (r : PolicyRow). IsUsable r.policy) s.policies
  pub parents : (x : Session) → Among x s.sessions → IsPresent s.sessions x.parent_session_id

IsPresent-Effect :
    (s t : Store) (o : Option ℕ) → Effect s t → IsPresent s.sessions o → IsPresent t.sessions o
IsPresent-Effect s t none e h = tt
IsPresent-Effect s t (some q) e h =
    let (x, m, k) = any-Among (has_id q) s.sessions h in
    let (y, n, c) = Effect-Continues s t x e m in some_any (has_id q) t.sessions y n (rw c.id k)

first_parent :
    (a : Register) (actor : ℕ) (s : Store) (o : Option ℕ) (c : Classification)
    → initial_class (record a { parent_session_id = o }) actor s ≡ ok c
    → IsPresent s.sessions o
first_parent a actor s none c e = tt
first_parent a actor s (some q) c e =
    let clause = λ (r : Session).
      r.id == q
      && r.project_id == a.project_id
      && r.actor_id == actor
      && not (is_some r.ended_at)
      && not (is_some r.retired_at) in
    elim (Option-cases (fetch clause s.sessions)) [
      | inl n ↦ cc (rw n at e)
      | inr (r, f) ↦
          any_mono clause (has_id q) s.sessions (λ x k. ground arith)
            (fetch-any clause s.sessions r f)
    ]

parents-Effect :
    (s t : Store)
    → ((x : Session) → Among x s.sessions → IsPresent s.sessions x.parent_session_id)
    → Effect s t
    → (y : Session) → Among y t.sessions
    → IsPresent t.sessions y.parent_session_id
parents-Effect s t h (keeps e) y m =
    IsPresent-Effect s t y.parent_session_id (keeps e) (h y (rw e at m))
parents-Effect s t h (inserts a actor id now c e unused room k) y m =
    elim (insert-Among s.sessions (new_session a actor id now c) y (rw e at m)) [
      | inl old ↦
          IsPresent-Effect s t y.parent_session_id (inserts a actor id now c e unused room k)
            (h y old)
      | inr q ↦ rw q (
          IsPresent-Effect s t a.parent_session_id (inserts a actor id now c e unused room k)
            (first_parent a actor s a.parent_session_id c k))
    ]
parents-Effect s t h (rewrites p f e allowed) y m =
    let (x, n, q) = update-Among p f s.sessions y (rw e at m) in
    let keep = IsPresent-Effect s t x.parent_session_id (rewrites p f e allowed) (h x n) in
    elim (Bool-cases (p x)) [
      | inl k ↦ rw (q, k, (allowed x n k).continues.parent) keep
      | inr k ↦ rw (q, k) keep
    ]

perform-policies : (m : Result Plan) (s : Store) → (perform m s).0.policies ≡ s.policies
unfolding perform
perform-policies (raise e) s = refl
perform-policies (ok fault) s = refl
perform-policies (ok (repeat_answer r v)) s = refl
perform-policies (ok (insert_session r v)) s = refl
perform-policies (ok (rewrite_session f r v es)) s = refl

retire-policies :
    (a : Request) (limit actor now : ℕ) (s : Store) (m : Result (Option ℕ)) (g : Result (Unit {0}))
    → (authorized g s (retire_expired a limit actor now s m)).0.policies ≡ s.policies
unfolding retire_expired
retire-policies a limit actor now s m (raise e) = refl
retire-policies a limit actor now s (raise e) (ok _) = refl
retire-policies a limit actor now s (ok (some r)) (ok _) = refl
retire-policies a limit actor now s (ok none) (ok _) = refl

upsert-IsUsable :
    (r : PolicyRow) (t : List PolicyRow)
    → All (λ (x : PolicyRow). IsUsable x.policy) t
    → IsUsable r.policy
    → All (λ (x : PolicyRow). IsUsable x.policy) (upsert r t)
upsert-IsUsable r t h u =
    let P = λ (x : PolicyRow). IsUsable x.policy in
    let mine = λ (x : PolicyRow). x.project_id == r.project_id in
    elim (Bool-cases (any mine t)) [
      | inl y ↦ rw y (All-update P mine _ t (λ x _ _. u) h)
      | inr n ↦ rw n (All-insert P t r h u)
    ]

set-policies :
    (a : PolicySet) (actor : ℕ) (s : Store) (m : Result (Option ℕ))
    → All (λ (x : PolicyRow). IsUsable x.policy) s.policies
    → IsUsable a.body
    → All (λ (x : PolicyRow). IsUsable x.policy) (set_policy a actor s m).0.policies
unfolding set_policy
set-policies a actor s (raise e) h u = h
set-policies a actor s (ok (some v)) h u = h
set-policies a actor s (ok none) h u =
    elim (Bool-cases ((policy a.request.project_id s).0 == a.expected_version)) [
      | inl y ↦ rw y (upsert-IsUsable _ s.policies h u)
      | inr n ↦ rw n h
    ]

checked-policies :
    (a : PolicySet) (actor : ℕ) (s : Store) (o : Option PresencePolicy) (g : Result (Unit {0}))
    → All (λ (x : PolicyRow). IsUsable x.policy) s.policies
    → policy_values a.body ≡ o
    → All
        (λ (x : PolicyRow). IsUsable x.policy)
        (authorized g s (checked_policy_set a actor s o)).0.policies
checked-policies a actor s o (raise e) h u = h
checked-policies a actor s none (ok _) h u = h
checked-policies a actor s (some p) (ok _) h u =
    set-policies a actor s (replay a.request presence_policy_set actor s.receipts) h (p, u)

Step-policies :
    (s t : Store)
    → All (λ (x : PolicyRow). IsUsable x.policy) s.policies
    → Step s t
    → All (λ (x : PolicyRow). IsUsable x.policy) t.policies
unfolding register heartbeat end_session prune policy_set
Step-policies s t h (registers a p id now _ e) = rw (e, perform-policies _ s) h
Step-policies s t h (reports a p now e) = rw (e, perform-policies _ s) h
Step-policies s t h (ends a p now e) = rw (e, perform-policies _ s) h
Step-policies s t h (prunes a limit p now e) =
    rw (e, retire-policies a _ p.user_id now s (replay a presence_prune p.user_id s.receipts) _) h
Step-policies s t h (sets_policy a p e) =
    rw e (checked-policies a p.user_id s (policy_values a.body) _ h refl)

-- In every run from keyed tables the stored policies stay usable and the parents present.
pub Run-IsServable : (s t : Store) → IsKeyed s.sessions → IsServable s → Run s t → IsServable t
Run-IsServable s _ k h still = h
Run-IsServable s _ k h (and_then {t = t} {u = u} r x) =
    let before = Run-IsServable s t k h r in
    record {
      policies = Step-policies t u before.policies x;
      parents = parents-Effect t u before.parents (Step-Effect t u (Run-IsKeyed s t k r) x);
    }
