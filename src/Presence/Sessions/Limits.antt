-- ===== src/Presence/Sessions/Limits.antt =====
-- The limits of isekai_memory/continuity/presence.py hold in every run.
use isekai_memory.Base.{
  ℕ, ◌≤◌, ◌<◌, ◌≡◌, inl, inr, true, false, ◌&&◌, List, ◌==◌, arith, count, is_some, Bool-cases,
}
use isekai_memory.Base.Among.{count-update-le, count-insert-le, count-insert_other}
use isekai_memory.Presence.Sessions.Rows.{Session, Store}
use isekai_memory.Presence.Sessions.Operations.{new_session, is_live, is_open_of}
use isekai_memory.Presence.Sessions.Changes.{Allowed, IsKeyed, Effect, keeps, inserts, rewrites}
use isekai_memory.Presence.Sessions.History.{Run, still, and_then, Run-IsKeyed, Step-Effect}

-- At most `MAX_LIVE_PER_PROJECT` live sessions in a project, and `MAX_OPEN_PER_USER` open ones of a
-- user in it.
pub record IsWithinLimits (t : List Session) : Type 0 where
  pub live : (project : ℕ) → count (is_live project) t ≤ 10_000
  pub open_of_user : (project actor : ℕ) → count (is_open_of project actor) t ≤ 64

Allowed-is_live :
    (project : ℕ) (x y : Session)
    → Allowed x y
    → is_live project y ≡ true
    → is_live project x ≡ true
Allowed-is_live project x y h e =
    let same = h.continues.project_id in
    let lives = h.still_live in
    elim (Bool-cases (is_some x.retired_at)) [
      | inl dead ↦ let also = lives dead in absurd (ground arith)
      | inr k ↦ ground arith
    ]

Allowed-is_open_of :
    (project actor : ℕ) (x y : Session)
    → Allowed x y
    → is_open_of project actor y ≡ true
    → is_open_of project actor x ≡ true
Allowed-is_open_of project actor x y h e =
    let same = h.continues.project_id in
    let whose = h.continues.actor_id in
    elim (Bool-cases (is_some x.retired_at)) [
      | inl dead ↦ let also = h.still_live dead in absurd (ground arith)
      | inr k ↦ elim (Bool-cases (is_some x.ended_at)) [
        | inl over ↦ let also = h.still_ended over in absurd (ground arith)
        | inr l ↦ ground arith
      ]
    ]

Effect-IsWithinLimits :
    (s t : Store) → IsWithinLimits s.sessions → Effect s t → IsWithinLimits t.sessions
Effect-IsWithinLimits s t h (keeps e) = rw e h
Effect-IsWithinLimits s t h (rewrites p f e allowed) = rw e (record {
  live = λ project.
      let fewer =
        count-update-le (is_live project) p f s.sessions
          λ x m k l. Allowed-is_live project x (f x) (allowed x m k) l in
      let before = h.live project in omega arith;
  open_of_user = λ project actor.
      let fewer =
        count-update-le (is_open_of project actor) p f s.sessions
          λ x m k l. Allowed-is_open_of project actor x (f x) (allowed x m k) l in
      let before = h.open_of_user project actor in omega arith;
})
Effect-IsWithinLimits s t h (inserts a actor id now c e unused room _) =
    let r = new_session a actor id now c in
    rw e (record {
      live = λ project.
          let before = h.live project in
          elim (Bool-cases (a.project_id == project)) [
            | inl y ↦
                let same : a.project_id ≡ project = ground arith in
                let more = count-insert-le (is_live project) s.sessions r in
                let free : count (is_live a.project_id) s.sessions < 10_000 = ground arith in
                let here : count (is_live project) s.sessions < 10_000 = rw same at free in
                omega arith
            | inr n ↦
                let other : is_live project r ≡ false = rw n in
                let same = count-insert_other (is_live project) s.sessions r other in omega arith
          ];
      open_of_user = λ project user.
          let before = h.open_of_user project user in
          elim (Bool-cases (a.project_id == project && actor == user)) [
            | inl y ↦
                let same : a.project_id ≡ project = ground arith in
                let self : actor ≡ user = ground arith in
                let more = count-insert-le (is_open_of project user) s.sessions r in
                let free : count (is_open_of a.project_id actor) s.sessions < 64 = ground arith in
                let here : count (is_open_of project user) s.sessions < 64 =
                  rw (same, self) at free in
                omega arith
            | inr n ↦
                let other : is_open_of project user r ≡ false = ground arith in
                let same = count-insert_other (is_open_of project user) s.sessions r other in
                omega arith
          ];
    })

-- From keyed tables within the limits, such as empty ones: after every run of the operations a project
-- has at most 10,000 live sessions, and a user at most 64 open ones in it.
pub Run-IsWithinLimits :
    (s t : Store)
    → IsKeyed s.sessions
    → IsWithinLimits s.sessions
    → Run s t
    → IsWithinLimits t.sessions
Run-IsWithinLimits s _ k h still = h
Run-IsWithinLimits s _ k h (and_then {t = t} {u = u} r x) =
    Effect-IsWithinLimits t u (Run-IsWithinLimits s t k h r)
      (Step-Effect t u (Run-IsKeyed s t k r) x)
