-- ===== src/Handoff/Queue/Publish.antt =====
-- The end of `push_handoff`: the row is inserted, or an earlier one answers for it.
use isekai_memory.Base.{
  ℕ, ◌≡◌, ◌≢◌, ap, some_eq, Bool, true, false, inl, inr, Option, none, some, arith, Bool-cases,
  if◌then◌else◌, ◌==◌,
}
use isekai_memory.Base.Outcome.{Result, ok, raise, tool_error, handoff}
use isekai_memory.Base.Table.{fetch, fetch-insert_new, fetch-any}
use isekai_memory.Handoff.Rows.{Handoff, Store}
use isekai_memory.Handoff.Steps.{insert_handoff-cases}
use isekai_memory.Handoff.Queue.{
  Submission, insert_handoff, new_handoff, is_attempt, get_handoff_by_attempt,
}

-- The answer to a row that exists already.
unfoldable pub answer_existing : Submission → Option Handoff → Result (Handoff × Bool)
answer_existing a none = raise (tool_error handoff 5)
answer_existing a (some existing) =
    if existing.payload_digest == a.payload_digest
    then ok (existing, true)
    else raise (tool_error handoff 5)

unfoldable pub finish_push :
    Submission → Store → Result (Store × Option Handoff) → Store × Result (Handoff × Bool)
finish_push a s (raise e) = (s, raise e)
finish_push a s (ok (t, some row)) = (t, ok (row, false))
finish_push a s (ok (t, none)) =
    (t, answer_existing a (get_handoff_by_attempt a.project_id a.phase_attempt_id t))

-- From `queries.insert_handoff` on; the flag of the result is `already_exists`. The arguments have
-- been validated and the payload digest computed.
unfoldable pub push_handoff : (ℕ → ℕ → Bool) → Submission → Store → Store × Result (Handoff × Bool)
unfolding insert_handoff
push_handoff is_eligible a s = finish_push a s (insert_handoff is_eligible a s)

not_existing :
    (a : Submission) (o : Option Handoff) (x : Handoff) → answer_existing a o ≢ ok (x, false)
unfolding answer_existing
not_existing a none x e = cc
not_existing a (some y) x e = elim (Bool-cases (y.payload_digest == a.payload_digest)) [
  | inl h ↦ cc (rw h at e)
  | inr h ↦ cc (rw h at e)
]

finished :
    (a : Submission) (s t : Store) (x : Handoff) (r : Result (Store × Option Handoff))
    → finish_push a s r ≡ (t, ok (x, false))
    → r ≡ ok (t, some x)
unfolding finish_push
finished a s t x (raise e) h = cc (ap (λ (p : Store × Result (Handoff × Bool)). p.1) h)
finished a s t x (ok (u, some y)) h =
    let p : u ≡ t = ap (λ (p : Store × Result (Handoff × Bool)). p.0) h in
    let q : ◌≡◌ {A = Result (Handoff × Bool)} (ok (y, false)) (ok (x, false)) =
      ap (λ (p : Store × Result (Handoff × Bool)). p.1) h in
    cc
finished a s t x (ok (u, none)) h =
    absurd (not_existing a _ x (ap (λ (p : Store × Result (Handoff × Bool)). p.1) h))

-- A push that inserted a row left exactly that one for its attempt.
pushed_row :
    (is_eligible : ℕ → ℕ → Bool) (a : Submission) (s t : Store) (x : Handoff)
    → push_handoff is_eligible a s ≡ (t, ok (x, false))
    → (x ≡ new_handoff a) × (fetch (is_attempt a.project_id a.phase_attempt_id) t.handoffs ≡ some x)
unfolding push_handoff
pushed_row el a s t x e =
    let r = finished a s t x (insert_handoff el a s) e in
    elim (insert_handoff-cases el a s t (some x) r) [
      | inl (_, _, h) ↦ cc
      | inr (n, new, h) ↦
          let same : x ≡ new_handoff a = some_eq x (new_handoff a) h in
          (
            same,
            rw (new, same)
                (fetch-insert_new (is_attempt a.project_id a.phase_attempt_id) s.handoffs
                  (new_handoff a) n (ground arith)),
          )
    ]

-- A push that is repeated with the same project, attempt and payload digest answers with the row of
-- the first one, whoever sends it, and inserts nothing; with another payload digest it is refused
-- as MEM-HANDOFF-0005, and changes nothing.
pub push_handoff_repeats :
    (is_eligible : ℕ → ℕ → Bool) (a b : Submission) (s t : Store) (x : Handoff)
    → push_handoff is_eligible a s ≡ (t, ok (x, false))
    → b.project_id ≡ a.project_id
    → b.phase_attempt_id ≡ a.phase_attempt_id
    → push_handoff is_eligible b t ≡ (
      t,
      if a.payload_digest == b.payload_digest then ok (x, true) else raise (tool_error handoff 5),
    )
unfolding push_handoff answer_existing
push_handoff_repeats el a b s t x e i j =
    let (same, f) = pushed_row el a s t x e in
    let p = is_attempt b.project_id b.phase_attempt_id in
    let f' : fetch p t.handoffs ≡ some x = rw (i, j) f in
    let dup : insert_handoff el b t ≡ ok (t, none) =
      unfold insert_handoff in rw (fetch-any p t.handoffs x f') in
    let digest : x.payload_digest ≡ a.payload_digest =
      ap (λ (h : Handoff). h.payload_digest) same in
    rw dup (unfold finish_push get_handoff_by_attempt in rw (f', digest))
