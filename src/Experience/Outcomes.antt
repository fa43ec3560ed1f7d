-- ===== src/Experience/Outcomes.antt =====
-- The ways in which a review can end, and what its steps do to the suppressions.
use isekai_memory.Base.{
  ℕ, ◌≡◌, ◌⊎◌, inl, inr, refl, Bool, true, false, ◌&&◌, not, Option, none, some, List, [], ◌∷◌,
  ◌==◌, any, arith, Bool-cases, Option-cases,
}
use isekai_memory.Base.Table.{fetch, update, any-append, any-last}
use isekai_memory.Base.Outcome.{Result, ok, raise}
use isekai_memory.Experience.Rows.{
  rejected, superseded, forgotten, Status, Action, approve, reject, archive, forget, Experience,
  Event, Suppression, Store, has_id, is_claim, is_suppressing, is_suppressed, suppress,
  renew_suppression, new_suppression,
}
use isekai_memory.Experience.Lifecycle.{
  Review, Receipt, is_receipt, is_applicable, is_repeated, find_parent, refusal, same_claim, retire,
  carry_out, finish, apply_review, review_parent, review_row, review_found, review, log,
}

any-update_kept :
    (q p : Suppression → Bool) (f : Suppression → Suppression) (t : List Suppression)
    → ((x : Suppression) → q x ≡ true → q (f x) ≡ true)
    → any q t ≡ true
    → any q (update p f t) ≡ true
any-update_kept q p f [] k h = cc
any-update_kept q p f (x ∷ t) k h = ground (arith, k x, any-update_kept q p f t k)

any-update_made :
    (q p : Suppression → Bool) (f : Suppression → Suppression) (t : List Suppression)
    → ((x : Suppression) → p x ≡ true → q (f x) ≡ true)
    → any p t ≡ true
    → any q (update p f t) ≡ true
any-update_made q p f [] k h = cc
any-update_made q p f (x ∷ t) k h = ground (arith, k x, any-update_made q p f t k)

-- A suppression leaves others in place.
suppress-keeps :
    (p d f : ℕ) (row : Experience) (actor : ℕ) (reason : Status) (s : Store)
    → is_suppressed p d f s ≡ true
    → is_suppressed p d f (suppress row actor reason s) ≡ true
unfolding suppress
suppress-keeps p d f row actor reason s h =
    let q = is_claim row.project_id row.source_payload_digest row.content_fingerprint in
    elim (Bool-cases (any q s.suppressions)) [
      | inl k ↦ rw k (
          any-update_kept (is_suppressing p d f) q (renew_suppression row actor reason)
            s.suppressions (λ x e. ground arith) h)
      | inr k ↦ rw k (any-append (is_suppressing p d f) s.suppressions _ h)
    ]

pub suppress-suppresses :
    (row : Experience) (actor : ℕ) (reason : Status) (s : Store)
    → is_suppressed row.project_id row.source_payload_digest row.content_fingerprint
        (suppress row actor reason s)
      ≡ true
unfolding suppress
suppress-suppresses row actor reason s =
    let q = is_claim row.project_id row.source_payload_digest row.content_fingerprint in
    let on = is_suppressing row.project_id row.source_payload_digest row.content_fingerprint in
    elim (Bool-cases (any q s.suppressions)) [
      | inl k ↦ rw k (
          any-update_made on q (renew_suppression row actor reason) s.suppressions
            (λ x e. ground arith) k)
      | inr k ↦ rw k (any-last on s.suppressions (new_suppression row actor reason) (ground arith))
    ]

retire-keeps :
    (p d f : ℕ) (row : Experience) (actor : ℕ) (parent : Option Experience) (s : Store)
    → is_suppressed p d f s ≡ true
    → is_suppressed p d f (retire row actor parent s) ≡ true
unfolding retire log
retire-keeps p d f row actor none s h = h
retire-keeps p d f row actor (some parent) s h = elim (Bool-cases (same_claim parent row)) [
  | inl k ↦ rw k h
  | inr k ↦ rw k (suppress-keeps p d f parent actor superseded s h)
]

pub carry_out-keeps :
    (p d f : ℕ) (a : Action) (row : Experience) (actor : ℕ) (parent : Option Experience) (s : Store)
    → is_suppressed p d f s ≡ true
    → is_suppressed p d f (carry_out a row actor parent s) ≡ true
unfolding carry_out
carry_out-keeps p d f approve row actor parent s h = retire-keeps p d f row actor parent s h
carry_out-keeps p d f reject row actor parent s h = suppress-keeps p d f row actor rejected s h
carry_out-keeps p d f archive row actor parent s h = h
carry_out-keeps p d f forget row actor parent s h = suppress-keeps p d f row actor forgotten s h

-- A review that is made now, not found in the events.
abbrev pub is_made : {A : Type 0} → Result (A × Bool) → Bool
is_made (raise e) = false
is_made (ok (a, repeated)) = not repeated

abbrev pub find_row : Review → Store → Option Experience
find_row a s =
    fetch (λ (x : Experience). has_id a.memory_id x && x.project_id == a.project_id) s.experiences

module _ (a : Review) (now : ℕ) (s : Store) where
  -- The review was made of this row.
  abbrev pub Made : Store × Result (Receipt × Bool) → Experience → Type 0
  Made result row =
      (parent : Option Experience) × (is_applicable a row ≡ true)
      × ((a.action ≡ approve) → refusal row now s ≡ none)
      × (result ≡ finish a row parent s)

  applied-cases :
      (row : Experience) (parent : Option Experience) (b : Action)
      → a.action ≡ b
      → is_applicable a row ≡ true
      → ((apply_review a row parent now s b).0 ≡ s)
          × (is_made (apply_review a row parent now s b).1 ≡ false)
        ⊎ Made (apply_review a row parent now s b) row
  unfolding apply_review
  applied-cases row parent approve e h = elim (Option-cases (refusal row now s)) [
    | inl n ↦ inr (parent, h, λ x. n, rw (n, apply_review))
    | inr (n, k) ↦ inl (rw (k, apply_review) (refl, refl))
  ]
  applied-cases row parent reject e h = inr (parent, h, λ x. cc, refl)
  applied-cases row parent archive e h = inr (parent, h, λ x. cc, refl)
  applied-cases row parent forget e h = inr (parent, h, λ x. cc, refl)

  parent-cases :
      (row : Experience) (r : Result (Option Experience))
      → is_applicable a row ≡ true
      → ((review_parent a row now s r).0 ≡ s) × (is_made (review_parent a row now s r).1 ≡ false)
        ⊎ Made (review_parent a row now s r) row
  unfolding review_parent
  parent-cases row (raise e) h = inl (refl, refl)
  parent-cases row (ok parent) h = applied-cases row parent a.action refl h

  row-cases :
      (row : Experience) (o : Option Event)
      → ((review_row a now s row o).0 ≡ s) × (is_made (review_row a now s row o).1 ≡ false)
        ⊎ Made (review_row a now s row o) row
  unfolding review_row
  row-cases row none = elim (Bool-cases (is_applicable a row)) [
    | inr k ↦ inl (rw k (refl, refl))
    | inl k ↦ elim (parent-cases row (find_parent a.action row s row.supersedes_id) k) [
      | inl q ↦ inl (rw k q)
      | inr (parent, y, z, q) ↦ inr (parent, k, z, rw k q)
    ]
  ]
  row-cases row (some e) = elim (Bool-cases (is_repeated a (some e))) [
    | inl h ↦ inl (rw h (refl, refl))
    | inr h ↦ elim (Bool-cases (is_applicable a row)) [
      | inr k ↦ inl (rw (h, k) (refl, refl))
      | inl k ↦ elim (parent-cases row (find_parent a.action row s row.supersedes_id) k) [
        | inl q ↦ inl (rw (h, k) q)
        | inr (parent, y, z, q) ↦ inr (parent, k, z, rw (h, k) q)
      ]
    ]
  ]

  -- A review makes and changes nothing, or is made of the row that it found.
  pub review-cases :
      ((review a now s).0 ≡ s) × (is_made (review a now s).1 ≡ false)
      ⊎ (row : Experience) × (find_row a s ≡ some row) × Made (review a now s) row
  unfolding review review_found
  review-cases = elim (Option-cases (find_row a s)) [
    | inl h ↦ inl (rw h (refl, refl))
    | inr (row, h) ↦ elim (row-cases row (fetch (is_receipt a) s.events)) [
      | inl q ↦ inl (rw h q)
      | inr (parent, y, z, q) ↦ inr (row, h, (parent, y, z, rw h q))
    ]
  ]
