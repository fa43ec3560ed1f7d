-- ===== src/Usage/Ledger/History.antt =====
-- Runs of the operations of isekai_memory/continuity/usage.py, and what they keep.
use isekai_memory.Base.{
  ℕ, ◌≤◌, ◌≡◌, ◌⊎◌, inl, inr, refl, ◌∙◌, sym, Bool, true, false, Option, none, some, [], ◌∷◌, arith,
  any, is_some,
}
use isekai_memory.Base.Table.{fetch, fetch-append}
use isekai_memory.Base.Among.{Among}
use isekai_memory.Base.Keyed
use isekai_memory.Continuity.Filed.{Request}
use isekai_memory.Access.Tokens.{Principal}
use isekai_memory.Usage.Counters.{reported, amount}
use isekai_memory.Usage.Metrics.{Metrics}
use isekai_memory.Usage.Revision.{
  validate_revision, validate_revision_refl, validate_revision_trans, is_history,
  reported_total_grows,
}
use isekai_memory.Usage.Ledger.Rows.{Session, Received, Store, has_id}
use isekai_memory.Usage.Ledger.Operations.{Register, register, new_session}
use isekai_memory.Usage.Ledger.Reports.{Report, report}
use isekai_memory.Usage.Ledger.Administration.{PolicySet, policy_set, prune}
use isekai_memory.Usage.Ledger.Changes.{
  Revises, IsPinned, Accrues, IsKeyed, Effect, keeps, inserts, rewrites, reports,
}
use isekai_memory.Usage.Ledger.Effects.{
  register-Effect, report-Effect, prune-Effect, policy_set-Effect,
}

-- A call of an operation. The identifier that `register` draws is not in use.
pub data Step (s t : Store) : Type 0 where
  registers :
      (a : Register) (p : Principal) (id opened now : ℕ)
      → any (has_id id) s.sessions ≡ false
      → t ≡ (register a p id opened now s).0
      → Step s t
  reports_usage : (a : Report) (p : Principal) (now : ℕ) → t ≡ (report a p now s).0 → Step s t
  prunes :
      (a : Request) (limit : Option ℕ) (p : Principal) (now : ℕ)
      → t ≡ (prune a limit p now s).0
      → Step s t
  sets_policy :
      (is_timezone : ℕ → Bool) (a : PolicySet) (p : Principal)
      → t ≡ (policy_set is_timezone a p s).0
      → Step s t

pub data Run (s : Store) : Store → Type 0 where
  still : Run s s
  and_then : {t u : Store} → Run s t → Step t u → Run s u

pub Step-Effect : (s t : Store) → IsKeyed s.sessions → Step s t → Effect s t
Step-Effect s t k (registers a p id o now unused e) = rw e (register-Effect a p id o now s unused)
Step-Effect s t k (reports_usage a p now e) = rw e (report-Effect a p now s k)
Step-Effect s t k (prunes a limit p now e) = rw e (prune-Effect a limit p now s k)
Step-Effect s t k (sets_policy z a p e) = rw e (policy_set-Effect z a p s)

Revises-refl : (x : Session) (o : Option Metrics) → x.metrics ≡ o → Revises x x
Revises-refl x none e = inl e
Revises-refl x (some m) e = inr (inr (m, m, e, e, validate_revision_refl m))

Accrues-refl : (x : Session) → Accrues x x
Accrues-refl x = record {
  id = refl;
  project_id = refl;
  actor_id = refl;
  token = refl;
  registration = refl;
  accepts_until = refl;
  sequence = omega arith;
  metrics = Revises-refl x x.metrics refl;
  still_final = λ h. h;
  still_complete = λ h. h;
  pinned = inr (record {
    finalized_at = refl;
    bucket_at = refl;
    bucket_basis = refl;
    source_occurred_at = refl;
  });
  retired = inr refl;
}

retired_stays :
    (y z : Session)
    → is_some y.retired_at ≡ true
    → (y.retired_at ≡ none) ⊎ (z ≡ y)
    → is_some z.retired_at ≡ true
retired_stays y z h (inl n) = cc (rw n at h)
retired_stays y z h (inr e) = rw e h

Revises-trans :
    (x y z : Session) → (y.retired_at ≡ none) ⊎ (z ≡ y) → Revises x y → Revises y z → Revises x z
Revises-trans x y z f (inl n) k = inl n
Revises-trans x y z f (inr (inl h)) k = inr (inl (retired_stays y z h f))
Revises-trans x y z f (inr (inr (m, n, p, q, h))) (inl k) = cc
Revises-trans x y z f (inr (inr (m, n, p, q, h))) (inr (inl k)) = inr (inl k)
Revises-trans x y z f (inr (inr (m, n, p, q, h))) (inr (inr (n', o, p', q', h'))) =
    let same : n ≡ n' = cc in inr (inr (m, o, p, q', validate_revision_trans m n o h (rw same h')))

IsPinned-trans :
    (x y z : Session)
    → (x.finalized_at ≡ none) ⊎ IsPinned x y
    → (y.finalized_at ≡ none) ⊎ IsPinned y z
    → (x.finalized_at ≡ none) ⊎ IsPinned x z
IsPinned-trans x y z (inl n) k = inl n
IsPinned-trans x y z (inr p) (inl n) = inl (sym p.finalized_at ∙ n)
IsPinned-trans x y z (inr p) (inr q) = inr (record {
  finalized_at = q.finalized_at ∙ p.finalized_at;
  bucket_at = q.bucket_at ∙ p.bucket_at;
  bucket_basis = q.bucket_basis ∙ p.bucket_basis;
  source_occurred_at = q.source_occurred_at ∙ p.source_occurred_at;
})

Accrues-trans : (x y z : Session) → Accrues x y → Accrues y z → Accrues x z
Accrues-trans x y z h k = record {
  id = k.id ∙ h.id;
  project_id = k.project_id ∙ h.project_id;
  actor_id = k.actor_id ∙ h.actor_id;
  token = k.token ∙ h.token;
  registration = k.registration ∙ h.registration;
  accepts_until = k.accepts_until ∙ h.accepts_until;
  sequence = omega (arith, h.sequence, k.sequence);
  metrics = Revises-trans x y z k.retired h.metrics k.metrics;
  still_final = λ e. k.still_final (h.still_final e);
  still_complete = λ e. k.still_complete (h.still_complete e);
  pinned = IsPinned-trans x y z h.pinned k.pinned;
  retired = Keyed.frozen (λ (r : Session). r.retired_at) x y z h.retired k.retired;
}

pub Effect-IsKeyed : (s t : Store) → IsKeyed s.sessions → Effect s t → IsKeyed t.sessions
Effect-IsKeyed s t k (keeps e _) = rw e k
Effect-IsKeyed s t k (inserts a actor id now late c e _ unused _) = rw e (
    Keyed.IsKeyed-insert (λ (x : Session). x.id) s.sessions (new_session a actor id now late c) k
      unused)
Effect-IsKeyed s t k (rewrites p f e _ allowed) =
    rw e
      (Keyed.IsKeyed-update (λ (x : Session). x.id) p f s.sessions (λ x m h. (allowed x m h).id) k)
Effect-IsKeyed s t k (reports p f r y actor now e _ allowed _ _ _) =
    rw e
      (Keyed.IsKeyed-update (λ (x : Session). x.id) p f s.sessions (λ x m h. (allowed x m h).id) k)

pub Effect-Accrues :
    (s t : Store) (x : Session)
    → Effect s t
    → Among x s.sessions
    → (y : Session) × Among y t.sessions × Accrues x y
Effect-Accrues s t x (keeps e _) m = (x, rw e m, Accrues-refl x)
Effect-Accrues s t x (inserts a actor id now late c e _ _ _) m =
    rw e (Keyed.append-Kept Accrues Accrues-refl s.sessions _ x m)
Effect-Accrues s t x (rewrites p f e _ allowed) m =
    rw e (Keyed.update-Kept Accrues Accrues-refl p f s.sessions allowed x m)
Effect-Accrues s t x (reports p f r y actor now e _ allowed _ _ _) m =
    rw e (Keyed.update-Kept Accrues Accrues-refl p f s.sessions allowed x m)

pub Run-IsKeyed : (s t : Store) → IsKeyed s.sessions → Run s t → IsKeyed t.sessions
Run-IsKeyed s _ k still = k
Run-IsKeyed s _ k (and_then {t = t} {u = u} r x) =
    let h = Run-IsKeyed s t k r in Effect-IsKeyed t u h (Step-Effect t u h x)

-- From tables where identifiers are a key: in every run of the operations each usage session stays in
-- the table with its identity; its sequence never falls, its stored metrics are only revised until it
-- is retired, finality and complete coverage are never taken back, the attribution of a final session
-- is pinned, and a retired session never changes.
pub Run-Accrues :
    (s t : Store) (x : Session)
    → IsKeyed s.sessions
    → Run s t
    → Among x s.sessions
    → (y : Session) × Among y t.sessions × Accrues x y
Run-Accrues s _ x k still m = (x, m, Accrues-refl x)
Run-Accrues s _ x k (and_then {t = t} {u = u} r d) m =
    let (y, n, h) = Run-Accrues s t x k r m in
    let (z, o, g) = Effect-Accrues t u y (Step-Effect t u (Run-IsKeyed s t k r) d) n in
    (z, o, Accrues-trans x y z h g)

-- In every run from keyed tables, a total that was reported for a session stays reported and never
-- falls, until the session is retired.
pub stored_total_grows :
    (s t : Store) (x : Session) (m : Metrics)
    → IsKeyed s.sessions
    → Run s t
    → Among x s.sessions
    → x.metrics ≡ some m
    → m.total_tokens.quality ≡ reported
    → (y : Session) × Among y t.sessions
      × (y.id ≡ x.id)
      × ((is_some y.retired_at ≡ true)
          ⊎ ((n : Metrics) × (y.metrics ≡ some n)
              × (n.total_tokens.quality ≡ reported)
              × (amount m.total_tokens ≤ amount n.total_tokens)))
unfolding is_history
stored_total_grows s t x m k run i e q =
    let (y, j, h) = Run-Accrues s t x k run i in
    (
      y,
      j,
      h.id,
      elim h.metrics [
        | inl n ↦ cc (e, n)
        | inr (inl gone) ↦ inl gone
        | inr (inr (m', n, p, q', v)) ↦
            let same : m ≡ m' = cc in
            let v' : validate_revision m n ≡ true = rw same v in
            let (a, b) = reported_total_grows m (n ∷ []) (rw v') q in inr (n, q', a, b)
      ],
    )

-- A receipt that a clause finds is found for good.
pub Run-fetch :
    (s t : Store) (q : Received → Bool) (r : Received)
    → IsKeyed s.sessions
    → Run s t
    → fetch q s.received ≡ some r
    → fetch q t.received ≡ some r
Run-fetch s _ q r k still e = e
Run-fetch s _ q r k (and_then {t = t} {u = u} run d) e =
    added t u q r (Step-Effect t u (Run-IsKeyed s t k run) d) (Run-fetch s t q r k run e)
  where
    added :
        (t u : Store) (q : Received → Bool) (r : Received)
        → Effect t u
        → fetch q t.received ≡ some r
        → fetch q u.received ≡ some r
    added t u q r (keeps _ e) f = rw e f
    added t u q r (inserts a actor id now late c _ e _ _) f = rw e f
    added t u q r (rewrites p g _ e _) f = rw e f
    added t u q r (reports p g x y actor now _ e _ _ _ _) f =
        rw e (fetch-append q t.received (y ∷ []) r f)
