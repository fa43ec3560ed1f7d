-- ===== src/Usage/Ledger/Limits.antt =====
-- The limits of isekai_memory/continuity/usage.py hold in every run.
use isekai_memory.Base.{
  ℕ, ◌≤◌, ◌<◌, ◌≡◌, inl, inr, Bool, true, ◌&&◌, ◌==◌, arith, any, count, Bool-cases,
}
use isekai_memory.Base.Among.{
  Among, insert-Among, some_any, any-Among, count-insert-le, count-insert_other, count-cong,
}
use isekai_memory.Usage.Ledger.Rows.{Received, Store, has_id}
use isekai_memory.Usage.Ledger.Reports.{is_counted, is_revision_of}
use isekai_memory.Usage.Ledger.Changes.{IsKeyed, Effect, keeps, inserts, rewrites, reports}
use isekai_memory.Usage.Ledger.History.{
  Run, still, and_then, Run-IsKeyed, Step-Effect, Effect-Accrues,
}

abbrev pub of_project : ℕ → Received → Bool
of_project project y = y.project_id == project

abbrev pub of_session : ℕ → ℕ → Received → Bool
of_session project session y = y.project_id == project && y.session_id == session

-- Every receipt has its session, a project has at most `MAX_RECEIPTS` of them, and a session at most
-- `MAX_REVISIONS`.
pub record IsBounded (s : Store) : Type 0 where
  pub has_session :
      (y : Received) → Among y s.received → any (has_id y.session_id) s.sessions ≡ true
  pub total : (project : ℕ) → count (of_project project) s.received ≤ 200_000
  pub revisions : (project session : ℕ) → count (of_session project session) s.received ≤ 512

session-Effect :
    (s t : Store) (id : ℕ)
    → Effect s t
    → any (has_id id) s.sessions ≡ true
    → any (has_id id) t.sessions ≡ true
session-Effect s t id e h =
    let (x, m, k) = any-Among (has_id id) s.sessions h in
    let (y, n, c) = Effect-Accrues s t x e m in some_any (has_id id) t.sessions y n (rw c.id k)

same-IsBounded : (s t : Store) → Effect s t → t.received ≡ s.received → IsBounded s → IsBounded t
same-IsBounded s t e q h = record {
  has_session = λ y m. session-Effect s t y.session_id e (h.has_session y (rw q at m));
  total = λ p. rw q (h.total p);
  revisions = λ p i. rw q (h.revisions p i);
}

-- The join with the sessions drops no receipt.
counted-total :
    (s : Store) (project : ℕ)
    → IsBounded s
    → count (is_counted project s.sessions) s.received ≡ count (of_project project) s.received
counted-total s project h =
    count-cong (is_counted project s.sessions) (of_project project) s.received
      λ y m. let here = h.has_session y m in ground arith

counted-revisions :
    (s : Store) (project session : ℕ)
    → IsBounded s
    → count (is_revision_of project session s.sessions) s.received
      ≡ count (of_session project session) s.received
counted-revisions s project session h =
    count-cong (is_revision_of project session s.sessions) (of_session project session) s.received
      λ y m. let here = h.has_session y m in ground arith

Effect-IsBounded : (s t : Store) → IsBounded s → Effect s t → IsBounded t
Effect-IsBounded s t h (keeps e q) = same-IsBounded s t (keeps e q) q h
Effect-IsBounded s t h (inserts a actor id now late c e q u l) =
    same-IsBounded s t (inserts a actor id now late c e q u l) q h
Effect-IsBounded s t h (rewrites p f e q k) = same-IsBounded s t (rewrites p f e q k) q h
Effect-IsBounded s t h (reports p f r y actor now e q k room mine here) = record {
  has_session = λ z m. elim (insert-Among s.received y z (rw q at m)) [
    | inl old ↦
        session-Effect s t z.session_id (reports p f r y actor now e q k room mine here)
          (h.has_session z old)
    | inr same ↦
        let known = some_any (has_id r.id) s.sessions r here (ground arith) in
        rw (same, mine)
          (session-Effect s t r.id (reports p f r y actor now e q k room mine here) known)
  ];
  total = λ project.
      let before = h.total project in
      rw q (elim (Bool-cases (y.project_id == project)) [
        | inr n ↦ let other = count-insert_other (of_project project) s.received y n in omega arith
        | inl yes_ ↦
            let same : y.project_id ≡ project = ground arith in
            let more = count-insert-le (of_project project) s.received y in
            let joined = counted-total s y.project_id h in
            let free : count (is_counted y.project_id s.sessions) s.received < 200_000 =
              ground arith in
            let few : count (of_project project) s.received < 200_000 = rw (joined, same) at free in
            omega arith
      ]);
  revisions = λ project session.
      let before = h.revisions project session in
      rw q (elim (Bool-cases (y.project_id == project && y.session_id == session)) [
        | inr n ↦
            let other = count-insert_other (of_session project session) s.received y n in
            omega arith
        | inl yes_ ↦
            let same : y.project_id ≡ project = ground arith in
            let self : r.id ≡ session = ground arith in
            let more = count-insert-le (of_session project session) s.received y in
            let joined = counted-revisions s y.project_id r.id h in
            let free : count (is_revision_of y.project_id r.id s.sessions) s.received < 512 =
              ground arith in
            let few : count (of_session project session) s.received < 512 =
              rw (joined, same, self) at free in
            omega arith
      ]);
}

-- From keyed tables within the bounds, such as empty ones: after every run of the operations a project
-- has at most 200,000 receipts of reports, and a session at most 512 of them.
pub Run-IsBounded : (s t : Store) → IsKeyed s.sessions → IsBounded s → Run s t → IsBounded t
Run-IsBounded s _ k h still = h
Run-IsBounded s _ k h (and_then {t = t} {u = u} r x) =
    Effect-IsBounded t u (Run-IsBounded s t k h r) (Step-Effect t u (Run-IsKeyed s t k r) x)
