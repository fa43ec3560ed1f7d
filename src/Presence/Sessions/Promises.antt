-- ===== src/Presence/Sessions/Promises.antt =====
-- What an observer is promised over runs of the operations of isekai_memory/continuity/presence.py.
use isekai_memory.Base.{ℕ, ◌≤◌, ◌≡◌, refl, Bool, true, false, not, Option, none, some, arith}
use isekai_memory.Base.Among.{Among, rewritten-Among}
use isekai_memory.Base.Outcome.{Result, ToolError, ok, raise, raise_if, ◌>>=◌}
use isekai_memory.Access.Tokens.{Principal, write, contributed, authorize_tool}
use isekai_memory.Presence.Times.{PresencePolicy, StateTimes}
use isekai_memory.Presence.Sessions.Rows.{
  Classification, Session, Body, Store, invalid, has_id, policy, policy_values,
}
use isekai_memory.Presence.Sessions.Reports.{
  Speaker, Report, is_valid_report, is_owned, owned, admit, classify,
}
use isekai_memory.Presence.Sessions.Operations.{Answer, Reply, answer, refuse, Plan, perform}
use isekai_memory.Presence.Sessions.Heartbeats.{
  take_report, heartbeat, heartbeat_plan, report_row, planned_report, timed_report,
}
use isekai_memory.Presence.Sessions.Changes.{IsKeyed, owned_row}
use isekai_memory.Presence.Sessions.Effects.{heartbeat-Effect}
use isekai_memory.Presence.Sessions.History.{Run, Run-Continues, Run-IsKeyed, Effect-IsKeyed}

-- A reply to a transaction of several steps: one of them refuses, or all go through.
pub bind-perform {κ} :
    {A : Type 0} (Q : Store × Reply → Type κ) (s : Store) (m : Result A) (k : A → Result Plan)
    → ((e : ToolError) → Q (s, refuse e))
    → ((x : A) → m ≡ ok x → Q (perform (k x) s))
    → Q (perform (m >>= k) s)
unfolding perform
bind-perform Q s (ok x) k no_ h = h x refl
bind-perform Q s (raise e) k no_ h = no_ e

-- An answer that is not a replay.
abbrev pub is_new : Reply → Bool
is_new (answer x) = not x.replayed
is_new _ = false

-- The session of the speaker has come as far as this sequence.
abbrev Reached : Speaker → ℕ → Store → Type 0
Reached a actor t =
    (y : Session) × Among y t.sessions × (is_owned a actor y ≡ true) × (a.sequence ≤ y.sequence)

abbrev Settled : Speaker → ℕ → Store × Reply → Type 0
Settled a actor result = (x : Answer) → result.1 ≡ answer x → Reached a actor result.0

module _ (a : Report) (actor now : ℕ) (s : Store) where
  timed-Settled :
      (v : ℕ) (r : Session) (c : Classification) (p : PresencePolicy) (t : Option StateTimes)
      → owned a.speaker actor s ≡ ok r
      → Settled a.speaker actor (perform (ok (timed_report a actor now v r c p t)) s)
  unfolding perform
  timed-Settled v r c p none o x e = cc
  timed-Settled v r c p (some t) o x e =
      let (m, _, _, mine) = owned_row a.speaker actor s r o in
      (
        report_row a now c t r,
        rewritten-Among (has_id r.id) (report_row a now c t) s.sessions r m (ground arith),
        mine,
        omega arith,
      )

  planned-Settled :
      (v : ℕ) (r : Session) (c : Option Classification) (p : Option PresencePolicy)
      → owned a.speaker actor s ≡ ok r
      → Settled a.speaker actor (perform (ok (planned_report a actor now v r c p)) s)
  unfolding perform
  planned-Settled v r none p o x e = cc
  planned-Settled v r (some c) none o x e = cc
  planned-Settled v r (some c) (some p) o x e = timed-Settled v r c p _ o x e

  report-Settled :
      (v : ℕ × Body) (r : Session) (again : Bool)
      → owned a.speaker actor s ≡ ok r
      → admit a v.1.enabled r ≡ ok again
      → Settled a.speaker actor (perform (take_report a actor now v s r again) s)
  unfolding perform take_report admit
  report-Settled (version, body) r true o e x q =
      let (m, _, _, mine) = owned_row a.speaker actor s r o in (r, m, mine, ground arith)
  report-Settled (version, body) r false o e x q =
      bind-perform (Settled a.speaker actor) s (classify a actor now s r) _ (λ e x q. cc)
        (λ c k. planned-Settled version r c (policy_values body) o) x q

heartbeat-Settled :
    (a : Report) (p : Principal) (now : ℕ) (s : Store)
    → Settled a.speaker p.user_id (heartbeat a p now s)
unfolding heartbeat heartbeat_plan
heartbeat-Settled a p now s =
    let Q = Settled a.speaker p.user_id in
    let v = policy a.speaker.project_id s in
    bind-perform Q s (authorize_tool p (contributed write true) (some a.speaker.project_id)) _
      (λ e x q. cc)
      λ _ _.
        bind-perform Q s (raise_if (not (is_valid_report a)) invalid) _ (λ e x q. cc)
          λ _ _.
            bind-perform Q s (owned a.speaker p.user_id s) _ (λ e x q. cc)
              λ r o.
                bind-perform Q s (admit a v.1.enabled r) _ (λ e x q. cc)
                  λ again e. report-Settled a p.user_id now s v r again o e

-- What a session has reached it keeps.
Run-Reached :
    (a : Speaker) (actor : ℕ) (s t : Store)
    → IsKeyed s.sessions
    → Run s t
    → Reached a actor s
    → Reached a actor t
Run-Reached a actor s t k r (y, m, mine, far) =
    let (z, n, c) = Run-Continues s t y k r m in
    (z, n, rw (c.id, c.project_id, c.actor_id) mine, omega (arith, c.sequence))

-- A report of a sequence that the session has reached changes nothing.
reached_admit :
    (a : Report) (enabled : Bool) (r : Session) (again : Bool)
    → a.speaker.sequence ≤ r.sequence
    → admit a enabled r ≡ ok again
    → again ≡ true
unfolding admit
reached_admit a enabled r again h e = ground arith

abbrev Idle : Store → Store × Reply → Type 0
Idle s result = (result.0 ≡ s) × (is_new result.1 ≡ false)

repeat-Idle :
    (a : Report) (actor now : ℕ) (v : ℕ × Body) (s : Store) (r : Session)
    → Idle s (perform (take_report a actor now v s r true) s)
unfolding perform take_report
repeat-Idle a actor now (version, body) s r = (refl, refl)

heartbeat-Reached :
    (a : Report) (p : Principal) (now : ℕ) (s : Store)
    → IsKeyed s.sessions
    → Reached a.speaker p.user_id s
    → Idle s (heartbeat a p now s)
unfolding heartbeat heartbeat_plan
heartbeat-Reached a p now s keyed (y, m, mine, far) =
    let v = policy a.speaker.project_id s in
    bind-perform (Idle s) s (authorize_tool p (contributed write true) (some a.speaker.project_id))
      _ (λ e. (refl, refl))
      λ _ _.
        bind-perform (Idle s) s (raise_if (not (is_valid_report a)) invalid) _ (λ e. (refl, refl))
          λ _ _.
            bind-perform (Idle s) s (owned a.speaker p.user_id s) _ (λ e. (refl, refl))
              λ r o.
                bind-perform (Idle s) s (admit a v.1.enabled r) _ (λ e. (refl, refl))
                  λ again e.
                    let (n, _, _, also) = owned_row a.speaker p.user_id s r o in
                    let same : y ≡ r = keyed y r m n (ground arith) in
                    let old : again ≡ true =
                      reached_admit a v.1.enabled r again (rw (← same) far) e in
                    rw old (repeat-Idle a p.user_id now v s r)

-- A report counts once: after its success, and any run of the operations, the same report changes
-- nothing and is at most answered as a replay, whatever the clock.
pub heartbeat_once :
    (a : Report) (p : Principal) (now later : ℕ) (s t : Store) (x : Answer)
    → IsKeyed s.sessions
    → (heartbeat a p now s).1 ≡ answer x
    → Run (heartbeat a p now s).0 t
    → ((heartbeat a p later t).0 ≡ t) × (is_new (heartbeat a p later t).1 ≡ false)
heartbeat_once a p now later s t x keyed e run =
    let h = heartbeat-Effect a p now s keyed in
    let k = Effect-IsKeyed s (heartbeat a p now s).0 keyed h in
    heartbeat-Reached a p later t (Run-IsKeyed (heartbeat a p now s).0 t k run) (
      Run-Reached a.speaker p.user_id (heartbeat a p now s).0 t k run
        (heartbeat-Settled a p now s x e))
