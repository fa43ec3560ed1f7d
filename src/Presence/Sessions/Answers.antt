-- ===== src/Presence/Sessions/Answers.antt =====
-- No `ValueError` escapes from the heartbeat of isekai_memory/continuity/presence.py.
use isekai_memory.Base.{
  ℕ, ◌≡◌, ◌≢◌, inl, inr, refl, ◌∙◌, ap, Bool, true, false, not, Option, none, some, List, ◌++◌,
  ◌==◌, All, Option-cases,
}
use isekai_memory.Base.Table.{fetch, All-fetch, any-fetch}
use isekai_memory.Base.Outcome.{Result, ok, raise, raise_if, ◌>>=◌}
use isekai_memory.Access.Tokens.{Principal, write, contributed, authorize_tool}
use isekai_memory.Presence.Times.{
  PresencePolicy, StateTimes, aware, next_times, is_recognized, presence_policy,
}
use isekai_memory.Presence.Sessions.Rows.{
  Classification, Session, Body, PolicyRow, Store, invalid, has_id, previous_of, policy,
  policy_values,
}
use isekai_memory.Presence.Sessions.Reports.{
  Report, is_valid_report, owned, is_changed, admit, classify, maximum, unit_class,
  checkpoint_class,
}
use isekai_memory.Presence.Sessions.Operations.{Reply, crash, perform}
use isekai_memory.Presence.Sessions.Heartbeats.{
  take_report, heartbeat, heartbeat_plan, planned_report, timed_report,
}
use isekai_memory.Presence.Sessions.Changes.{IsKeyed, owned_row}
use isekai_memory.Presence.Sessions.History.{Run}
use isekai_memory.Presence.Sessions.Promises.{bind-perform}
use isekai_memory.Presence.Sessions.Servable.{IsUsable, IsPresent, IsServable, Run-IsServable}

abbrev Escapes : Store × Reply → Type 0
Escapes result = result.1 ≡ crash

usable :
    (project : ℕ) (s : Store)
    → All (λ (x : PolicyRow). IsUsable x.policy) s.policies
    → IsUsable (policy project s).1
unfolding policy policy_values presence_policy
usable project s h =
    let mine = λ (r : PolicyRow). r.project_id == project in
    elim (Option-cases (fetch mine s.policies)) [
      | inl n ↦ rw n (_, refl)
      | inr (r, f) ↦ rw f (All-fetch (λ (x : PolicyRow). IsUsable x.policy) mine s.policies h f)
    ]

maximum_present :
    (c : Classification) (t : List Classification) (o : Option ℕ) (s : Store)
    → IsPresent s.sessions o
    → maximum c t o s ≢ none
unfolding maximum
maximum_present c t none s h e = cc
maximum_present c t (some q) s h e =
    let (r, f) = any-fetch (has_id q) s.sessions h in cc (rw f at e)

classified_present :
    (c : Classification) (o : Option ℕ) (s : Store) (u k : Result (List Classification))
    → IsPresent s.sessions o
    → (u >>= λ x. k >>= λ y. ok (maximum c (x ++ y) o s)) ≢ ok none
classified_present c o s (raise e) k h q = cc
classified_present c o s (ok x) (raise e) h q = cc
classified_present c o s (ok x) (ok y) h q = maximum_present c (x ++ y) o s h (cc)

module _ (a : Report) (actor now : ℕ) (s : Store) where
  timed_stays :
      (v : ℕ) (r : Session) (c : Classification) (p : PresencePolicy) (t : Option StateTimes)
      → is_recognized a.reported_state ≡ true
      → next_times (some (previous_of r)) a.reported_state (aware now) p (is_changed a r) ≡ t
      → ¬ Escapes (perform (ok (timed_report a actor now v r c p t)) s)
  unfolding perform next_times
  timed_stays v r c p none h e q = cc (rw h at e)
  timed_stays v r c p (some t) h e q = cc

  planned_stays :
      (v : ℕ) (r : Session) (c : Option Classification) (p : Option PresencePolicy)
      → is_recognized a.reported_state ≡ true
      → c ≢ none
      → p ≢ none
      → ¬ Escapes (perform (ok (planned_report a actor now v r c p)) s)
  planned_stays v r none p h c_ p_ q = c_ refl
  planned_stays v r (some c) none h c_ p_ q = p_ refl
  planned_stays v r (some c) (some p) h c_ p_ q = timed_stays v r c p _ h refl q

  report_stays :
      (v : ℕ × Body) (r : Session) (again : Bool)
      → is_recognized a.reported_state ≡ true
      → IsUsable v.1
      → IsPresent s.sessions r.parent_session_id
      → ¬ Escapes (perform (take_report a actor now v s r again) s)
  unfolding perform take_report classify
  report_stays (version, body) r true h u k q = cc
  report_stays (version, body) r false h u k q =
      bind-perform (λ x. ¬ Escapes x) s (classify a actor now s r) _ (λ e x. cc)
        (λ c e.
          planned_stays version r c (policy_values body) h
            (λ n.
              classified_present _ r.parent_session_id s
                (unit_class a.speaker.project_id a.work_unit_id actor now s)
                (checkpoint_class a.speaker.project_id a.checkpoint_id actor now s) k (e ∙ ap ok n))
            (λ n. cc (u.1, n)))
        q

-- From servable keyed tables, and after every run of the operations, a heartbeat that reports one of
-- the five states is answered or refused: no `ValueError` escapes from it, whatever it reports and
-- whatever the clock.
pub heartbeat_answers :
    (s t : Store) (a : Report) (p : Principal) (now : ℕ)
    → IsKeyed s.sessions
    → IsServable s
    → Run s t
    → is_recognized a.reported_state ≡ true
    → (heartbeat a p now t).1 ≢ crash
unfolding heartbeat heartbeat_plan
heartbeat_answers s t a p now keyed served run known =
    let h = Run-IsServable s t keyed served run in
    let Q = λ (x : Store × Reply). ¬ Escapes x in
    let v = policy a.speaker.project_id t in
    bind-perform Q t (authorize_tool p (contributed write true) (some a.speaker.project_id)) _
      (λ e x. cc)
      λ _ _.
        bind-perform Q t (raise_if (not (is_valid_report a)) invalid) _ (λ e x. cc)
          λ _ _.
            bind-perform Q t (owned a.speaker p.user_id t) _ (λ e x. cc)
              λ r o.
                bind-perform Q t (admit a v.1.enabled r) _ (λ e x. cc)
                  λ again e.
                    let (m, _, _, _) = owned_row a.speaker p.user_id t r o in
                    report_stays a p.user_id now t v r again known
                      (usable a.speaker.project_id t h.policies) (h.parents r m)
