-- ===== src/Presence/Sessions/History.antt =====
-- Runs of the operations of isekai_memory/continuity/presence.py, and what they keep of a session.
use isekai_memory.Base.{ℕ, ◌≡◌, inl, inr, refl, ◌∙◌, false, Option, List, arith, any, Bool-cases}
use isekai_memory.Base.Among.{Among, update-Among, insert-Among}
use isekai_memory.Base.Keyed
use isekai_memory.Access.Tokens.{Principal}
use isekai_memory.Continuity.Filed.{Request}
use isekai_memory.Presence.Heartbeat.{IsTimed}
use isekai_memory.Presence.Sessions.Rows.{Session, Store, has_id, previous_of}
use isekai_memory.Presence.Sessions.Reports.{Speaker, Report}
use isekai_memory.Presence.Sessions.Operations.{Register, register, new_session}
use isekai_memory.Presence.Sessions.Heartbeats.{heartbeat, end_session}
use isekai_memory.Presence.Sessions.Administration.{PolicySet, policy_set, prune}
use isekai_memory.Presence.Sessions.Changes.{Continues, IsKeyed, Effect, keeps, inserts, rewrites}
use isekai_memory.Presence.Sessions.Effects.{register-Effect, heartbeat-Effect, end-Effect}
use isekai_memory.Presence.Sessions.Maintained.{prune-Effect, policy_set-Effect}

-- A call of an operation. The identifier that `register` draws is not in use.
pub data Step (s t : Store) : Type 0 where
  registers :
      (a : Register) (p : Principal) (id now : ℕ)
      → any (has_id id) s.sessions ≡ false
      → t ≡ (register a p id now s).0
      → Step s t
  reports : (a : Report) (p : Principal) (now : ℕ) → t ≡ (heartbeat a p now s).0 → Step s t
  ends : (a : Speaker) (p : Principal) (now : ℕ) → t ≡ (end_session a p now s).0 → Step s t
  prunes :
      (a : Request) (limit : Option ℕ) (p : Principal) (now : ℕ)
      → t ≡ (prune a limit p now s).0
      → Step s t
  sets_policy : (a : PolicySet) (p : Principal) → t ≡ (policy_set a p s).0 → Step s t

pub data Run (s : Store) : Store → Type 0 where
  still : Run s s
  and_then : {t u : Store} → Run s t → Step t u → Run s u

pub Step-Effect : (s t : Store) → IsKeyed s.sessions → Step s t → Effect s t
Step-Effect s t k (registers a p id now unused e) = rw e (register-Effect a p id now s unused)
Step-Effect s t k (reports a p now e) = rw e (heartbeat-Effect a p now s k)
Step-Effect s t k (ends a p now e) = rw e (end-Effect a p now s k)
Step-Effect s t k (prunes a limit p now e) = rw e (prune-Effect a limit p now s k)
Step-Effect s t k (sets_policy a p e) = rw e (policy_set-Effect a p s)

Continues-refl : (x : Session) → Continues x x
Continues-refl x = record {
  id = refl;
  project_id = refl;
  actor_id = refl;
  client_instance_id = refl;
  token = refl;
  registration = refl;
  parent = refl;
  sequence = omega arith;
  classification = omega arith;
  ended = inr refl;
  retired = inr refl;
}

Continues-trans : (x y z : Session) → Continues x y → Continues y z → Continues x z
Continues-trans x y z h k = record {
  id = k.id ∙ h.id;
  project_id = k.project_id ∙ h.project_id;
  actor_id = k.actor_id ∙ h.actor_id;
  client_instance_id = k.client_instance_id ∙ h.client_instance_id;
  token = k.token ∙ h.token;
  registration = k.registration ∙ h.registration;
  parent = k.parent ∙ h.parent;
  sequence = omega (arith, h.sequence, k.sequence);
  classification = omega (arith, h.classification, k.classification);
  ended = Keyed.fixed (λ (r : Session). r.ended_at) x y z h.ended k.ended;
  retired = Keyed.frozen (λ (r : Session). r.retired_at) x y z h.retired k.retired;
}

pub Effect-IsKeyed : (s t : Store) → IsKeyed s.sessions → Effect s t → IsKeyed t.sessions
Effect-IsKeyed s t k (keeps e) = rw e k
Effect-IsKeyed s t k (inserts a actor id now c e unused _ _) = rw e (
    Keyed.IsKeyed-insert (λ (x : Session). x.id) s.sessions (new_session a actor id now c) k unused)
Effect-IsKeyed s t k (rewrites p f e allowed) = rw e (
    Keyed.IsKeyed-update (λ (x : Session). x.id) p f s.sessions
      (λ x m h. (allowed x m h).continues.id) k)

pub Effect-Continues :
    (s t : Store) (x : Session)
    → Effect s t
    → Among x s.sessions
    → (y : Session) × Among y t.sessions × Continues x y
Effect-Continues s t x (keeps e) m = (x, rw e m, Continues-refl x)
Effect-Continues s t x (inserts a actor id now c e _ _ _) m =
    rw e (Keyed.append-Kept Continues Continues-refl s.sessions (new_session a actor id now c) x m)
Effect-Continues s t x (rewrites p f e allowed) m = rw e (
    Keyed.update-Kept Continues Continues-refl p f s.sessions (λ y n h. (allowed y n h).continues) x
      m)

pub Run-IsKeyed : (s t : Store) → IsKeyed s.sessions → Run s t → IsKeyed t.sessions
Run-IsKeyed s _ k still = k
Run-IsKeyed s _ k (and_then {t = t} {u = u} r x) =
    let h = Run-IsKeyed s t k r in Effect-IsKeyed t u h (Step-Effect t u h x)

-- From tables where identifiers are a key: in every run of the operations each session stays in the
-- table with its identity, token, registration and parent; its sequence and its classification never
-- fall, its end is final, and once retired it never changes again.
pub Run-Continues :
    (s t : Store) (x : Session)
    → IsKeyed s.sessions
    → Run s t
    → Among x s.sessions
    → (y : Session) × Among y t.sessions × Continues x y
Run-Continues s _ x k still m = (x, m, Continues-refl x)
Run-Continues s _ x k (and_then {t = t} {u = u} r d) m =
    let (y, n, h) = Run-Continues s t x k r m in
    let (z, o, g) = Effect-Continues t u y (Step-Effect t u (Run-IsKeyed s t k r) d) n in
    (z, o, Continues-trans x y z h g)

abbrev pub AreTimed : List Session → Type 0
AreTimed t = (x : Session) → Among x t → IsTimed (previous_of x)

new-IsTimed :
    (a : Register) (actor id now : ℕ) (c : _) → IsTimed (previous_of (new_session a actor id now c))
new-IsTimed a actor id now c = record {
  seen = refl;
  since = refl;
  ordered = omega arith;
  interval = inl (λ e. cc e);
}

Effect-AreTimed : (s t : Store) → AreTimed s.sessions → Effect s t → AreTimed t.sessions
Effect-AreTimed s t k (keeps e) = rw e k
Effect-AreTimed s t k (inserts a actor id now c e _ _ _) = rw e λ x m.
    elim (insert-Among s.sessions (new_session a actor id now c) x m) [
      | inl old ↦ k x old
      | inr q ↦ rw q (new-IsTimed a actor id now c)
    ]
Effect-AreTimed s t k (rewrites p f e allowed) = rw e λ x m.
    let (y, n, q) = update-Among p f s.sessions x m in
    elim (Bool-cases (p y)) [
      | inl h ↦ rw (q, h) ((allowed y n h).timed (k y n))
      | inr h ↦ rw (q, h) (k y n)
    ]

-- From keyed tables where the times of all sessions are in order, such as empty ones, they are in
-- order after every run of the operations, whatever the clocks read.
pub Run-AreTimed :
    (s t : Store) → IsKeyed s.sessions → AreTimed s.sessions → Run s t → AreTimed t.sessions
Run-AreTimed s _ k h still = h
Run-AreTimed s _ k h (and_then {t = t} {u = u} r x) =
    Effect-AreTimed t u (Run-AreTimed s t k h r) (Step-Effect t u (Run-IsKeyed s t k r) x)
