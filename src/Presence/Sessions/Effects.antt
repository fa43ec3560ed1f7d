-- ===== src/Presence/Sessions/Effects.antt =====
-- The effect of `register`, `heartbeat` and `end` of isekai_memory/continuity/presence.py on the sessions.
use isekai_memory.Base.{
  ℕ, ◌≤◌, ◌<◌, ◌≡◌, inl, inr, refl, ap, ◌∙◌, leb, Bool, true, false, ◌&&◌, not, Option, none, some,
  ◌==◌, arith, any, is_some, Bool-cases, Option-cases,
}
use isekai_memory.Base.Table.{fetch}
use isekai_memory.Base.Outcome.{ok, raise_if}
use isekai_memory.Access.Tokens.{Principal, write, contributed, authorize_tool}
use isekai_memory.Presence.Times.{PresencePolicy, StateTimes, aware, next_times}
use isekai_memory.Presence.Heartbeat.{next_times-IsTimed}
use isekai_memory.Presence.Sessions.Rows.{
  Classification, rank, Session, Body, Store, invalid, holds, has_id, previous_of, policy,
  policy_values,
}
use isekai_memory.Presence.Sessions.Reports.{
  Speaker, Report, is_valid_report, owned, is_changed, admit, classify,
}
use isekai_memory.Presence.Sessions.Operations.{
  perform, Register, is_instance, enroll, register, initial_class, is_limited,
}
use isekai_memory.Presence.Sessions.Heartbeats.{
  take_report, heartbeat_plan, heartbeat, report_row, planned_report, timed_report, state_events,
  end_row, take_end, end_session,
}
use isekai_memory.Presence.Sessions.Changes.{
  Allowed, IsKeyed, Effect, keeps, inserts, classify-le, owned_row, admit_new, bind-Effect,
  rewrite-Effect,
}

pub register-Effect :
    (a : Register) (p : Principal) (id now : ℕ) (s : Store)
    → any (has_id id) s.sessions ≡ false
    → Effect s (register a p id now s).0
unfolding register enroll perform
register-Effect a p id now s unused =
    bind-Effect s (authorize_tool p (contributed write true) (some a.project_id)) _ λ x e.
      elim (Option-cases
        (fetch (is_instance a.project_id p.user_id a.client_instance_id) s.sessions)) [
          | inr (r, f) ↦ rw f (elim (Bool-cases (r.register_digest == a.fingerprint)) [
            | inr n ↦ rw n (keeps refl)
            | inl y ↦ elim (Bool-cases (is_some r.retired_at)) [
              | inl k ↦ rw (y, k) (keeps refl)
              | inr k ↦ rw (y, k) (keeps refl)
            ]
          ])
          | inl f ↦ rw f (
              bind-Effect s (raise_if (not (policy a.project_id s).1.enabled) _) _ λ _ _.
                elim (Bool-cases (is_limited a.project_id p.user_id now s.sessions)) [
                  | inl l ↦ rw l (keeps refl)
                  | inr l ↦ rw l (
                      bind-Effect s (initial_class a p.user_id s) _
                        λ c k. inserts a p.user_id id now c refl unused l k)
                ])
        ]

report-Allowed :
    (a : Report) (now : ℕ) (c : Classification) (p : PresencePolicy) (t : StateTimes) (r : Session)
    → r.retired_at ≡ none
    → r.ended_at ≡ none
    → r.sequence < a.speaker.sequence
    → rank r.classification ≤ rank c
    → next_times (some (previous_of r)) a.reported_state (aware now) p (is_changed a r) ≡ some t
    → Allowed r (report_row a now c t r)
report-Allowed a now c p t r live unended later class times = record {
  continues = record {
    id = refl;
    project_id = refl;
    actor_id = refl;
    client_instance_id = refl;
    token = refl;
    registration = refl;
    parent = refl;
    sequence = omega arith;
    classification = class;
    ended = inl unended;
    retired = inl live;
  };
  timed = λ h. next_times-IsTimed (previous_of r) a.reported_state now p (is_changed a r) t h times;
  still_live = λ h. h;
  still_ended = λ h. h;
}

module _ (a : Report) (actor now : ℕ) (s : Store) (keyed : IsKeyed s.sessions) where
  timed-Effect :
      (version : ℕ) (r : Session) (c : Classification) (p : PresencePolicy) (t : Option StateTimes)
      → owned a.speaker actor s ≡ ok r
      → r.ended_at ≡ none
      → r.sequence < a.speaker.sequence
      → rank r.classification ≤ rank c
      → next_times (some (previous_of r)) a.reported_state (aware now) p (is_changed a r) ≡ t
      → Effect s (perform (ok (timed_report a actor now version r c p t)) s).0
  unfolding perform
  timed-Effect version r c p none o unended later class e = keeps refl
  timed-Effect version r c p (some t) o unended later class e =
      let (m, live, _, _) = owned_row a.speaker actor s r o in
      rewrite-Effect s (report_row a now c t) r version (state_events a actor now c p r) keyed m
        (report-Allowed a now c p t r live unended later class e)

  planned-Effect :
      (version : ℕ) (r : Session) (c : Option Classification) (p : Option PresencePolicy)
      → owned a.speaker actor s ≡ ok r
      → r.ended_at ≡ none
      → r.sequence < a.speaker.sequence
      → ((d : Classification) → c ≡ some d → rank r.classification ≤ rank d)
      → Effect s (perform (ok (planned_report a actor now version r c p)) s).0
  unfolding perform
  planned-Effect version r none p o unended later class = keeps refl
  planned-Effect version r (some c) none o unended later class = keeps refl
  planned-Effect version r (some c) (some p) o unended later class =
      timed-Effect version r c p _ o unended later (class c refl) refl

  report-Effect :
      (v : ℕ × Body) (r : Session) (again : Bool)
      → owned a.speaker actor s ≡ ok r
      → admit a v.1.enabled r ≡ ok again
      → Effect s (perform (take_report a actor now v s r again) s).0
  unfolding perform take_report
  report-Effect (version, body) r true o e = keeps refl
  report-Effect (version, body) r false o e =
      let (unended, later) = admit_new a body.enabled r e in
      bind-Effect s (classify a actor now s r) _ λ c k.
        planned-Effect version r c (policy_values body) o unended later
          λ d q. classify-le a actor now s r d (k ∙ ap ok q)

pub heartbeat-Effect :
    (a : Report) (p : Principal) (now : ℕ) (s : Store)
    → IsKeyed s.sessions
    → Effect s (heartbeat a p now s).0
unfolding heartbeat heartbeat_plan
heartbeat-Effect a p now s keyed =
    let v = policy a.speaker.project_id s in
    bind-Effect s (authorize_tool p (contributed write true) (some a.speaker.project_id)) _ λ _ _.
      bind-Effect s (raise_if (not (is_valid_report a)) invalid) _ λ _ _.
        bind-Effect s (owned a.speaker p.user_id s) _ λ r o.
          bind-Effect s (admit a v.1.enabled r) _
            λ again e. report-Effect a p.user_id now s keyed v r again o e

end-Allowed :
    (a : Speaker) (now : ℕ) (r : Session)
    → r.retired_at ≡ none
    → r.ended_at ≡ none
    → r.sequence < a.sequence
    → Allowed r (end_row a now r)
end-Allowed a now r live unended later = record {
  continues = record {
    id = refl;
    project_id = refl;
    actor_id = refl;
    client_instance_id = refl;
    token = refl;
    registration = refl;
    parent = refl;
    sequence = omega arith;
    classification = omega arith;
    ended = inl unended;
    retired = inl live;
  };
  timed = λ h. h;
  still_live = λ h. h;
  still_ended = λ h. refl;
}

-- An end that is neither refused nor a replay is of an open session, and later.
pub end-Effect :
    (a : Speaker) (p : Principal) (now : ℕ) (s : Store)
    → IsKeyed s.sessions
    → Effect s (end_session a p now s).0
unfolding end_session take_end perform
end-Effect a p now s keyed =
    bind-Effect s (authorize_tool p (contributed write true) (some a.project_id)) _ λ _ _.
      bind-Effect s (owned a p.user_id s) _ λ r o. elim (Option-cases r.ended_at) [
        | inr (t, k) ↦
            elim (Bool-cases (a.sequence == r.sequence && holds r.report_digest a.fingerprint)) [
              | inl y ↦ rw (k, y) (keeps refl)
              | inr n ↦ rw (k, n) (keeps refl)
            ]
        | inl k ↦ elim (Bool-cases (leb a.sequence r.sequence)) [
          | inl y ↦ rw (k, y) (keeps refl)
          | inr n ↦
              let (m, live, _, _) = owned_row a p.user_id s r o in
              let later : r.sequence < a.sequence = ground arith in
              rw (k, n)
                (rewrite-Effect s (end_row a now) r (policy a.project_id s).0 _ keyed m
                  (end-Allowed a now r live k later))
        ]
      ]
