-- ===== src/Handoff/Queue/Listing.antt =====
-- What `list_pending_handoffs` offers.
use isekai_memory.Base.{
  ℕ, zero, suc, ◌≤◌, ◌≡◌, Bool, true, false, inl, inr, Option, List, [], ◌∷◌, arith, Bool-cases,
  select, length, All,
}
use isekai_memory.Handoff.Rows.{Handoff, Store, is_after}
use isekai_memory.Handoff.Lease.{is_recoverable}
use isekai_memory.Handoff.Queue.{
  insert_sorted, sort, take, is_listed, is_newer, list_pending_handoffs, expire_overdue,
}

-- A row that a recoverable claim of version 1 may take, as far as the row decides it.
pub record IsOffered (project now : ℕ) (h : Handoff) : Type 0 where
  pub in_project : h.project_id ≡ project
  pub unexpired : is_after h.expires_at now ≡ true
  pub unmanaged : h.continuity_managed ≡ false
  pub version_one : h.handoff_version ≡ 1
  pub recoverable : is_recoverable now h ≡ true

listed-IsOffered :
    (t : List Handoff) (project : ℕ) (unit after_id exclude_actor : Option ℕ) (now : ℕ)
    (h : Handoff)
    → is_listed t project unit after_id exclude_actor now h ≡ true
    → IsOffered project now h
listed-IsOffered t project unit after_id exclude_actor now h e = ground arith

All-select :
    (P : Handoff → Type 0) (p : Handoff → Bool) (t : List Handoff)
    → ((h : Handoff) → p h ≡ true → P h)
    → All P (select p t)
All-select P p [] k = tt
All-select P p (h ∷ t) k = elim (Bool-cases (p h)) [
  | inl e ↦ rw e (k h e, All-select P p t k)
  | inr e ↦ rw e (All-select P p t k)
]

All-insert_sorted :
    (P : Handoff → Type 0) (h : Handoff) (t : List Handoff)
    → P h
    → All P t
    → All P (insert_sorted h t)
unfolding insert_sorted
All-insert_sorted P h [] p a = (p, tt)
All-insert_sorted P h (g ∷ t) p a = elim (Bool-cases (is_newer h g)) [
  | inl e ↦ rw e (p, a)
  | inr e ↦ rw e (a.0, All-insert_sorted P h t p a.1)
]

All-sort : (P : Handoff → Type 0) (t : List Handoff) → All P t → All P (sort t)
unfolding sort
All-sort P [] a = tt
All-sort P (h ∷ t) a = All-insert_sorted P h (sort t) a.0 (All-sort P t a.1)

All-take : (P : Handoff → Type 0) (n : ℕ) (t : List Handoff) → All P t → All P (take n t)
unfolding take
All-take P zero t a = tt
All-take P (suc n) [] a = tt
All-take P (suc n) (h ∷ t) a = (a.0, All-take P n t a.1)

length-take : (n : ℕ) (t : List Handoff) → length (take n t) ≤ n
unfolding take
length-take zero t = omega arith
length-take (suc n) [] = omega arith
length-take (suc n) (h ∷ t) = omega (arith, length-take n t)

-- No row stands before a newer one, by `(created_at, id)`.
abbrev pub IsNewestFirst : List Handoff → Type 0
IsNewestFirst [] = Unit
IsNewestFirst (h ∷ t) = All (λ g. is_newer g h ≡ false) t × IsNewestFirst t

newer_trans : (a b c : Handoff) → is_newer a b ≡ true → is_newer c b ≡ false → is_newer c a ≡ false
newer_trans a b c h k = ground arith

newer_flip : (a b : Handoff) → is_newer a b ≡ true → is_newer b a ≡ false
newer_flip a b h = ground arith

All-newer :
    (a b : Handoff) (t : List Handoff)
    → is_newer a b ≡ true
    → All (λ g. is_newer g b ≡ false) t
    → All (λ g. is_newer g a ≡ false) t
All-newer a b [] e h = tt
All-newer a b (g ∷ t) e h = (newer_trans a b g e h.0, All-newer a b t e h.1)

insert_sorted-IsNewestFirst :
    (h : Handoff) (t : List Handoff) → IsNewestFirst t → IsNewestFirst (insert_sorted h t)
unfolding insert_sorted
insert_sorted-IsNewestFirst h [] s = (tt, tt)
insert_sorted-IsNewestFirst h (g ∷ t) s = elim (Bool-cases (is_newer h g)) [
  | inl e ↦ rw e ((newer_flip h g e, All-newer h g t e s.0), s)
  | inr e ↦
      rw e (
        All-insert_sorted (λ x. is_newer x g ≡ false) h t e s.0,
        insert_sorted-IsNewestFirst h t s.1,
      )
]

sort-IsNewestFirst : (t : List Handoff) → IsNewestFirst (sort t)
unfolding sort
sort-IsNewestFirst [] = tt
sort-IsNewestFirst (h ∷ t) = insert_sorted-IsNewestFirst h (sort t) (sort-IsNewestFirst t)

take-IsNewestFirst : (n : ℕ) (t : List Handoff) → IsNewestFirst t → IsNewestFirst (take n t)
unfolding take
take-IsNewestFirst zero t s = tt
take-IsNewestFirst (suc n) [] s = tt
take-IsNewestFirst (suc n) (h ∷ t) s = (All-take _ n t s.0, take-IsNewestFirst n t s.1)

-- A page holds at most `limit` rows, newest first, and each of them is one that a recoverable
-- claim may take: of the project, unexpired, of version 1, and pending or past its lease.
pub list_pending_handoffs_lem :
    (project : ℕ) (unit : Option ℕ) (limit : ℕ) (after_id exclude_actor : Option ℕ) (now : ℕ)
    (s : Store)
    → let page = (list_pending_handoffs project unit limit after_id exclude_actor now s).1 in
      All (IsOffered project now) page × IsNewestFirst page × (length page ≤ limit)
unfolding list_pending_handoffs
list_pending_handoffs_lem project unit limit after_id exclude_actor now s =
    let t = (expire_overdue project now s).handoffs in
    let listed = select (is_listed t project unit after_id exclude_actor now) t in
    (
      All-take (IsOffered project now) limit (sort listed) (
          All-sort (IsOffered project now) listed (
            All-select (IsOffered project now) (is_listed t project unit after_id exclude_actor now)
              t (listed-IsOffered t project unit after_id exclude_actor now))),
      take-IsNewestFirst limit (sort listed) (sort-IsNewestFirst listed),
      length-take limit (sort listed),
    )
