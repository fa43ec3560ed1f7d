-- ===== src/Base/Table.antt =====
-- A database table as the list of its rows. `fetchrow` is the first row that a WHERE clause accepts,
-- `UPDATE … WHERE` rewrites every row that it accepts, `INSERT` appends one.
use isekai_memory.Base.Tests.{if◌then◌else◌, Bool-cases}
use isekai_memory.Base.Lists.{All, any}
use mathlib.Core.Path.{◌≡◌, refl}
use mathlib.Core.Logic.{inl, inr}
use mathlib.Core.Bool.{Bool, true, false}
use mathlib.Core.List.{List, [], ◌∷◌, ◌++◌}
use mathlib.Core.Option.{Option, none, some}
use native.Mathlib.Omega.{arith}

module _ {ℓ} {A : Type ℓ} where
  abbrev pub fetch : (A → Bool) → List A → Option A
  fetch p [] = none
  fetch p (r ∷ t) = if p r then some r else fetch p t

  abbrev pub update : (A → Bool) → (A → A) → List A → List A
  update p f [] = []
  update p f (r ∷ t) = (if p r then f r else r) ∷ update p f t

  -- What is fetched satisfies the clause.
  pub fetch-holds : (p : A → Bool) (t : List A) (r : A) → fetch p t ≡ some r → p r ≡ true
  fetch-holds p [] r e = cc
  fetch-holds p (x ∷ t) r e = ground (arith, fetch-holds p t r)

  -- An update that keeps its own WHERE clause true is seen by the next fetch.
  pub fetch-update :
      (p : A → Bool) (f : A → A) (t : List A) (r : A)
      → fetch p t ≡ some r
      → p (f r) ≡ true
      → fetch p (update p f t) ≡ some (f r)
  fetch-update p f [] r e h = cc
  fetch-update p f (x ∷ t) r e h = ground (arith, fetch-update p f t r)

  -- An update leaves alone what another clause selects, where it moves no row in or out of it.
  pub fetch-update_other :
      (q p : A → Bool) (f : A → A) (t : List A)
      → ((r : A) → p r ≡ true → q r ≡ false)
      → ((r : A) → p r ≡ true → q (f r) ≡ false)
      → fetch q (update p f t) ≡ fetch q t
  fetch-update_other q p f [] h k = refl
  fetch-update_other q p f (x ∷ t) h k = ground (arith, h x, k x, fetch-update_other q p f t h k)

  -- An inserted row is found unless an older one is.
  pub fetch-insert :
      (p : A → Bool) (t : List A) (r : A)
      → fetch p (t ++ (r ∷ []))
        ≡ (elim (fetch p t) [ some x ↦ some x | none ↦ if p r then some r else none ])
  fetch-insert p [] r = refl
  fetch-insert p (x ∷ t) r = ground (arith, fetch-insert p t r)

  -- Invariants of the rows.
  pub All-update {κ} :
      (P : A → Type κ) (p : A → Bool) (f : A → A) (t : List A)
      → ((r : A) → P r → p r ≡ true → P (f r))
      → All P t
      → All P (update p f t)
  All-update P p f [] h a = tt
  All-update P p f (x ∷ t) h a = elim (Bool-cases (p x)) [
    | inl e ↦ (rw e (h x a.0 e), All-update P p f t h a.1)
    | inr e ↦ (rw e a.0, All-update P p f t h a.1)
  ]

  pub All-insert {κ} : (P : A → Type κ) (t : List A) (r : A) → All P t → P r → All P (t ++ (r ∷ []))
  All-insert P [] r a h = (h, tt)
  All-insert P (x ∷ t) r a h = (a.0, All-insert P t r a.1 h)

  pub All-fetch {κ} :
      (P : A → Type κ) (p : A → Bool) (t : List A) {r : A} → All P t → fetch p t ≡ some r → P r
  All-fetch P p [] a e = cc
  All-fetch P p (x ∷ t) {r} a e = elim (Bool-cases (p x)) [
    | inl h ↦ let e' : some x ≡ some r = rw h at e in rw (← some-eq x r e') a.0
    | inr h ↦ All-fetch P p t a.1 (rw h at e)
  ]
    where
      some-eq : (x y : A) → some x ≡ some y → x ≡ y
      some-eq x y q = cc

module _ {ℓ} {A : Type ℓ} where
  -- An update that moves no row in or out of a clause is seen through it row by row.
  pub fetch-update_where :
      (q p : A → Bool) (f : A → A) (t : List A)
      → ((r : A) → q (f r) ≡ q r)
      → (r : A) → fetch q t ≡ some r
      → fetch q (update p f t) ≡ some (if p r then f r else r)
  fetch-update_where q p f [] keep r e = cc
  fetch-update_where q p f (x ∷ t) keep r e =
      ground (arith, keep x, fetch-update_where q p f t keep r)

  pub fetch-update_absent :
      (q p : A → Bool) (f : A → A) (t : List A)
      → ((r : A) → q (f r) ≡ q r)
      → fetch q t ≡ none
      → fetch q (update p f t) ≡ none
  fetch-update_absent q p f [] keep e = refl
  fetch-update_absent q p f (x ∷ t) keep e =
      ground (arith, keep x, fetch-update_absent q p f t keep)

  pub fetch-append :
      (q : A → Bool) (t u : List A) (r : A) → fetch q t ≡ some r → fetch q (t ++ u) ≡ some r
  fetch-append q [] u r e = cc
  fetch-append q (x ∷ t) u r e = ground (arith, fetch-append q t u r)

module _ {ℓ} {A : Type ℓ} where
  -- `EXISTS` and `fetchrow` agree.
  pub any-fetch : (p : A → Bool) (t : List A) → any p t ≡ true → (r : A) × (fetch p t ≡ some r)
  any-fetch p [] h = cc
  any-fetch p (x ∷ t) h = elim (Bool-cases (p x)) [
    | inl e ↦ (x, rw e)
    | inr e ↦ rw e (any-fetch p t (rw e at h))
  ]

  pub fetch-any : (p : A → Bool) (t : List A) (r : A) → fetch p t ≡ some r → any p t ≡ true
  fetch-any p [] r h = cc
  fetch-any p (x ∷ t) r h = ground (arith, fetch-any p t r)

  pub any_mono :
      (p q : A → Bool) (t : List A)
      → ((x : A) → p x ≡ true → q x ≡ true)
      → any p t ≡ true
      → any q t ≡ true
  any_mono p q [] k h = cc
  any_mono p q (x ∷ t) k h = ground (arith, k x, any_mono p q t k)

  pub any-last : (p : A → Bool) (t : List A) (x : A) → p x ≡ true → any p (t ++ (x ∷ [])) ≡ true
  any-last p [] x h = ground arith
  any-last p (y ∷ t) x h = ground (arith, any-last p t x h)

  -- What is inserted where nothing fitted is what is found.
  pub fetch-insert_new :
      (p : A → Bool) (t : List A) (r : A)
      → any p t ≡ false
      → p r ≡ true
      → fetch p (t ++ (r ∷ [])) ≡ some r
  fetch-insert_new p [] r n h = rw h
  fetch-insert_new p (x ∷ t) r n h = ground (arith, fetch-insert_new p t r)

module _ {ℓ} {A : Type ℓ} where
  -- An update that moves no row in or out of a clause does not show in its `EXISTS`.
  pub any-update :
      (q p : A → Bool) (f : A → A) (t : List A)
      → ((r : A) → q (f r) ≡ q r)
      → any q (update p f t) ≡ any q t
  any-update q p f [] keep = refl
  any-update q p f (x ∷ t) keep = ground (arith, keep x, any-update q p f t keep)

  pub any-append :
      (p : A → Bool) (t : List A) (r : A) → any p t ≡ true → any p (t ++ (r ∷ [])) ≡ true
  any-append p [] r h = cc
  any-append p (x ∷ t) r h = ground (arith, any-append p t r)
