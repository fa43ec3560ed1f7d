-- ===== src/Usage/Ledger/Changes.antt =====
-- How an operation can change the sessions and receipts of isekai_memory/continuity/usage.py.
use isekai_memory.Base.{
  ℕ, ◌≤◌, ◌<◌, ◌≡◌, ◌⊎◌, inl, inr, refl, Bool, true, false, Option, none, some, List, [], ◌∷◌, ◌++◌,
  arith, any, is_some,
}
use isekai_memory.Base.Table.{fetch, update, fetch-holds}
use isekai_memory.Base.Among.{Among, fetch-Among}
use isekai_memory.Base.Keyed
use isekai_memory.Base.Classified.{Classification}
use isekai_memory.Base.Outcome.{Result, ToolError, ok, raise, ◌>>=◌}
use isekai_memory.Usage.Metrics.{Metrics}
use isekai_memory.Usage.Revision.{validate_revision}
use isekai_memory.Usage.Ledger.Rows.{is_complete, is_final, Session, Received, Body, Store, has_id}
use isekai_memory.Usage.Ledger.Operations.{
  Reply, refuse, Plan, perform, Register, new_session, is_full,
}
use isekai_memory.Usage.Ledger.Reports.{
  Report, is_owned, check_owned, owned, revises, check_report, Attribution, attribute, report_row,
  is_crowded,
}

-- Stored metrics are revised, never reset, until the session is retired.
abbrev pub Revises : Session → Session → Type 0
Revises x y =
    (x.metrics ≡ none)
    ⊎ (is_some y.retired_at ≡ true)
    ⊎ ((m : Metrics) × (n : Metrics) × (x.metrics ≡ some m)
        × (y.metrics ≡ some n)
        × (validate_revision m n ≡ true))

-- Once a session is final its attribution is pinned.
pub record IsPinned (x y : Session) : Type 0 where
  pub finalized_at : y.finalized_at ≡ x.finalized_at
  pub bucket_at : y.bucket_at ≡ x.bucket_at
  pub bucket_basis : y.bucket_basis ≡ x.bucket_basis
  pub source_occurred_at : y.source_occurred_at ≡ x.source_occurred_at

-- How a session may change.
pub record Accrues (x y : Session) : Type 0 where
  pub id : y.id ≡ x.id
  pub project_id : y.project_id ≡ x.project_id
  pub actor_id : y.actor_id ≡ x.actor_id
  pub token : y.session_token_digest ≡ x.session_token_digest
  pub registration : y.register_digest ≡ x.register_digest
  pub accepts_until : y.accepts_until ≡ x.accepts_until
  pub sequence : x.sequence ≤ y.sequence
  pub metrics : Revises x y
  pub still_final : is_final x.completion_state ≡ true → is_final y.completion_state ≡ true
  pub still_complete : is_complete x.coverage ≡ true → is_complete y.coverage ≡ true
  pub pinned : (x.finalized_at ≡ none) ⊎ IsPinned x y
  pub retired : (x.retired_at ≡ none) ⊎ (y ≡ x)

abbrev pub IsKeyed : List Session → Type 0
IsKeyed = Keyed.IsKeyed (λ (x : Session). x.id)

-- What an operation does to the sessions, and that receipts are only added.
pub data Effect (s t : Store) : Type 0 where
  keeps : t.sessions ≡ s.sessions → t.received ≡ s.received → Effect s t
  inserts :
      (a : Register) (actor id now late : ℕ) (c : Classification)
      → t.sessions ≡ s.sessions ++ (new_session a actor id now late c ∷ [])
      → t.received ≡ s.received
      → any (has_id id) s.sessions ≡ false
      → is_full a.project_id actor now s.sessions ≡ false
      → Effect s t
  rewrites :
      (p : Session → Bool) (f : Session → Session)
      → t.sessions ≡ update p f s.sessions
      → t.received ≡ s.received
      → ((x : Session) → Among x s.sessions → p x ≡ true → Accrues x (f x))
      → Effect s t
  reports :
      (p : Session → Bool) (f : Session → Session) (r : Session) (y : Received) (actor now : ℕ)
      → t.sessions ≡ update p f s.sessions
      → t.received ≡ s.received ++ (y ∷ [])
      → ((x : Session) → Among x s.sessions → p x ≡ true → Accrues x (f x))
      → is_crowded y.project_id r.id actor now s ≡ false
      → y.session_id ≡ r.id
      → Among r s.sessions
      → Effect s t

-- A reply to a transaction of several steps: one of them refuses, or all go through.
pub bind-perform {κ} :
    {A : Type 0} (Q : Store × Reply → Type κ) (s : Store) (m : Result A) (k : A → Result Plan)
    → ((e : ToolError) → Q (s, refuse e))
    → ((x : A) → m ≡ ok x → Q (perform (k x) s))
    → Q (perform (m >>= k) s)
unfolding perform
bind-perform Q s (ok x) k refused h = h x refl
bind-perform Q s (raise e) k refused h = refused e

checked_row :
    (a : Report) (o : Option Session) (r : Session)
    → check_owned a o ≡ ok r
    → (o ≡ some r) × (r.retired_at ≡ none)
checked_row a none r e = cc
checked_row a (some x) r e = ground arith

-- The session that a report is for is in the table, the reporter's, and not retired.
pub owned_row :
    (a : Report) (actor : ℕ) (s : Store) (r : Session)
    → owned a actor s ≡ ok r
    → Among r s.sessions × (r.retired_at ≡ none) × (is_owned a actor r ≡ true)
unfolding owned
owned_row a actor s r e =
    let (found, live) = checked_row a (fetch (is_owned a actor) s.sessions) r e in
    (
      fetch-Among (is_owned a actor) s.sessions r found,
      live,
      fetch-holds (is_owned a actor) s.sessions r found,
    )

-- A report that passes the tests comes in time, to an enabled ledger, revises the metrics, and takes
-- neither finality nor coverage back.
pub check_report-ok :
    (a : Report) (now : ℕ) (body : Body) (m : Metrics) (r : Session)
    → check_report a now body m r ≡ ok tt
    → (now ≤ r.accepts_until)
      × (revises r.metrics m ≡ true)
      × (is_final r.completion_state ≡ true → is_final a.completion_state ≡ true)
      × (is_complete r.coverage ≡ true → is_complete a.coverage ≡ true)
unfolding check_report
check_report-ok a now body m r e =
    (ground arith, ground arith, λ h. ground arith, λ h. ground arith)

-- The attribution of a final session is the one that it had.
attribute-pinned :
    (a : Report) (now late : ℕ) (r : Session) (t : Attribution) (f : Option ℕ)
    → r.finalized_at ≡ f
    → attribute a now late r f ≡ ok t
    → (f ≡ none)
      ⊎ ((t.finalized_at ≡ r.finalized_at)
          × (t.bucket_at ≡ r.bucket_at)
          × (t.bucket_basis ≡ r.bucket_basis)
          × (a.source_occurred_at ≡ r.source_occurred_at))
unfolding attribute
attribute-pinned a now late r t none g e = inl refl
attribute-pinned a now late r t (some f) g e =
    inr (ground arith, ground arith, ground arith, ground arith)

revised :
    (a : Report) (now : ℕ) (m : Metrics) (t : Attribution) (r : Session) (o : Option Metrics)
    → r.metrics ≡ o
    → revises o m ≡ true
    → Revises r (report_row a now m t r)
revised a now m t r none e h = inl e
revised a now m t r (some old) e h = inr (inr (old, m, e, refl, h))

pub report-Accrues :
    (a : Report) (now late : ℕ) (body : Body) (m : Metrics) (t : Attribution) (r : Session)
    → r.retired_at ≡ none
    → r.sequence < a.sequence
    → check_report a now body m r ≡ ok tt
    → attribute a now late r r.finalized_at ≡ ok t
    → Accrues r (report_row a now m t r)
report-Accrues a now late body m t r live later checks when =
    let (_, better, finality, covers) = check_report-ok a now body m r checks in
    record {
      id = refl;
      project_id = refl;
      actor_id = refl;
      token = refl;
      registration = refl;
      accepts_until = refl;
      sequence = omega arith;
      metrics = revised a now m t r r.metrics refl better;
      still_final = finality;
      still_complete = covers;
      pinned = elim (attribute-pinned a now late r t r.finalized_at refl when) [
        | inl n ↦ inl n
        | inr (f, b, c, o) ↦
            inr
              (record { finalized_at = f; bucket_at = b; bucket_basis = c; source_occurred_at = o })
      ];
      retired = inl live;
    }

pub retire-Accrues :
    (now : ℕ) (r : Session)
    → r.retired_at ≡ none
    → Accrues r (record r { retired_at = some now; metrics = none })
retire-Accrues now r live = record {
  id = refl;
  project_id = refl;
  actor_id = refl;
  token = refl;
  registration = refl;
  accepts_until = refl;
  sequence = omega arith;
  metrics = inr (inl refl);
  still_final = λ h. h;
  still_complete = λ h. h;
  pinned = inr (record {
    finalized_at = refl;
    bucket_at = refl;
    bucket_basis = refl;
    source_occurred_at = refl;
  });
  retired = inl live;
}
