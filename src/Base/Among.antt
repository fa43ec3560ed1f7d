-- ===== src/Base/Among.antt =====
-- Membership in a list, and the rows of a rewritten table.
use Prim.Native.Nat.{◌+◌, ◌≤◌}
use mathlib.Core.Path.{◌≡◌, refl}
use mathlib.Core.Logic.{◌⊎◌, inl, inr}
use mathlib.Core.Bool.{Bool, true, false}
use mathlib.Core.List.{List, [], ◌∷◌, ◌++◌}
use mathlib.Core.Option.{none, some}
use native.Mathlib.Omega.{arith}
use isekai_memory.Base.Tests.{if◌then◌else◌, Bool-cases}
use isekai_memory.Base.Lists.{All, any, count, select, is_some}
use isekai_memory.Base.Table.{fetch, update}
use isekai_memory.Base.Sorted.{first, order_by, insert_by, All-select, All-order_by, All-first}

module _ {A : Type 0} where
  -- `x in t`
  abbrev pub Among : A → List A → Type 0
  Among x [] = ⊥
  Among x (y ∷ t) = (x ≡ y) ⊎ Among x t

  pub All-intro {κ} : (P : A → Type κ) (t : List A) → ((x : A) → Among x t → P x) → All P t
  All-intro P [] h = tt
  All-intro P (x ∷ t) h = (h x (inl refl), All-intro P t (λ y m. h y (inr m)))

  -- A row of an updated table was there before, as it is or not yet rewritten.
  pub update-Among :
      (p : A → Bool) (f : A → A) (t : List A) (y : A)
      → Among y (update p f t)
      → (x : A) × Among x t × (y ≡ (if p x then f x else x))
  update-Among p f [] y m = elim m [ ]
  update-Among p f (x ∷ t) y (inl e) = (x, inl refl, e)
  update-Among p f (x ∷ t) y (inr m) = let (z, n, e) = update-Among p f t y m in (z, inr n, e)

  -- A row that the clause accepts is there, rewritten.
  pub rewritten-Among :
      (p : A → Bool) (f : A → A) (t : List A) (x : A)
      → Among x t
      → p x ≡ true
      → Among (f x) (update p f t)
  rewritten-Among p f [] x m h = elim m [ ]
  rewritten-Among p f (y ∷ t) x (inl e) h = let k : p y ≡ true = rw e at h in inl (rw (k, e))
  rewritten-Among p f (y ∷ t) x (inr m) h = inr (rewritten-Among p f t x m h)

  -- Any other row is there as it was.
  pub kept-Among :
      (p : A → Bool) (f : A → A) (t : List A) (x : A)
      → Among x t
      → p x ≡ false
      → Among x (update p f t)
  kept-Among p f [] x m h = elim m [ ]
  kept-Among p f (y ∷ t) x (inl e) h = let k : p y ≡ false = rw e at h in inl (rw k e)
  kept-Among p f (y ∷ t) x (inr m) h = inr (kept-Among p f t x m h)

  pub inserted-Among : (t : List A) (r : A) → Among r (t ++ (r ∷ []))
  inserted-Among [] r = inl refl
  inserted-Among (x ∷ t) r = inr (inserted-Among t r)

  pub append-Among : (t : List A) (r x : A) → Among x t → Among x (t ++ (r ∷ []))
  append-Among [] r x m = elim m [ ]
  append-Among (y ∷ t) r x (inl e) = inl e
  append-Among (y ∷ t) r x (inr m) = inr (append-Among t r x m)

  pub insert-Among : (t : List A) (r y : A) → Among y (t ++ (r ∷ [])) → Among y t ⊎ (y ≡ r)
  insert-Among [] r y (inl e) = inr e
  insert-Among [] r y (inr m) = elim m [ ]
  insert-Among (x ∷ t) r y (inl e) = inl (inl e)
  insert-Among (x ∷ t) r y (inr m) = elim (insert-Among t r y m) [
    | inl n ↦ inl (inr n)
    | inr e ↦ inr e
  ]

  -- The first row of an ordered selection is a row that the clause accepts.
  pub first-Among :
      (before : A → A → Bool) (p : A → Bool) (t : List A) (x : A)
      → first (order_by before (select p t)) ≡ some x
      → Among x t × (p x ≡ true)
  first-Among before p t x e =
      All-first (λ y. Among y t × (p y ≡ true)) (order_by before (select p t)) x
        (All-order_by (λ y. Among y t × (p y ≡ true)) before (select p t)
          (All-select (λ y. Among y t) p t (All-intro (λ y. Among y t) t (λ y m. m))))
        e

  pub fetch-Among : (p : A → Bool) (t : List A) (x : A) → fetch p t ≡ some x → Among x t
  fetch-Among p [] x e = cc
  fetch-Among p (y ∷ t) x e = elim (Bool-cases (p y)) [
    | inl h ↦ inl (same y x (rw h at e))
    | inr h ↦ inr (fetch-Among p t x (rw h at e))
  ]
    where
      same : (y x : A) → some y ≡ some x → x ≡ y
      same y x e = cc

  pub any_none : (p : A → Bool) (t : List A) (x : A) → any p t ≡ false → Among x t → p x ≡ false
  any_none p [] x h m = elim m [ ]
  any_none p (y ∷ t) x h (inl e) = rw e (ground arith)
  any_none p (y ∷ t) x h (inr m) = any_none p t x (ground arith) m

  pub none_any : (p : A → Bool) (t : List A) → ((x : A) → Among x t → p x ≡ false) → any p t ≡ false
  none_any p [] h = refl
  none_any p (y ∷ t) h = rw (h y (inl refl)) (none_any p t (λ x m. h x (inr m)))

  pub some_any : (p : A → Bool) (t : List A) (x : A) → Among x t → p x ≡ true → any p t ≡ true
  some_any p [] x m h = elim m [ ]
  some_any p (y ∷ t) x (inl e) h = let k : p y ≡ true = rw e at h in rw k
  some_any p (y ∷ t) x (inr m) h = let k = some_any p t x m h in ground arith

  inserted :
      (before : A → A → Bool) (x : A) (t : List A) → is_some (first (insert_by before x t)) ≡ true
  inserted before x [] = refl
  inserted before x (y ∷ t) = elim (Bool-cases (before x y)) [ inl h ↦ rw h | inr h ↦ rw h ]

  -- An ordered selection has a first row if the clause accepts any.
  pub first-none :
      (before : A → A → Bool) (p : A → Bool) (t : List A) (x : A)
      → first (order_by before (select p t)) ≡ none
      → Among x t
      → p x ≡ false
  first-none before p [] x e m = elim m [ ]
  first-none before p (y ∷ t) x e m = elim (Bool-cases (p y)) [
    | inl h ↦ let full = inserted before y (order_by before (select p t)) in cc (rw h at e, full)
    | inr h ↦ elim m [ inl q ↦ rw q h | inr n ↦ first-none before p t x (rw h at e) n ]
  ]

  insert_by-Among :
      (before : A → A → Bool) (x y : A) (t : List A)
      → (y ≡ x) ⊎ Among y t
      → Among y (insert_by before x t)
  insert_by-Among before x y [] (inl e) = inl e
  insert_by-Among before x y [] (inr m) = elim m [ ]
  insert_by-Among before x y (z ∷ t) m = elim (Bool-cases (before x z)) [
    | inl h ↦ rw h m
    | inr h ↦ rw h (elim m [
      | inl e ↦ inr (insert_by-Among before x y t (inl e))
      | inr (inl e) ↦ inl e
      | inr (inr n) ↦ inr (insert_by-Among before x y t (inr n))
    ])
  ]

  -- Ordering loses no row.
  pub order_by-Among :
      (before : A → A → Bool) (y : A) (t : List A) → Among y t → Among y (order_by before t)
  order_by-Among before y [] m = elim m [ ]
  order_by-Among before y (x ∷ t) (inl e) = insert_by-Among before x y (order_by before t) (inl e)
  order_by-Among before y (x ∷ t) (inr m) =
      insert_by-Among before x y (order_by before t) (inr (order_by-Among before y t m))

  pub All-Among {κ} : (P : A → Type κ) (t : List A) (x : A) → All P t → Among x t → P x
  All-Among P [] x a m = elim m [ ]
  All-Among P (y ∷ t) x a (inl e) = rw e a.0
  All-Among P (y ∷ t) x a (inr m) = All-Among P t x a.1 m

  -- What `EXISTS` finds.
  pub any-Among : (p : A → Bool) (t : List A) → any p t ≡ true → (x : A) × Among x t × (p x ≡ true)
  any-Among p [] h = cc
  any-Among p (y ∷ t) h = elim (Bool-cases (p y)) [
    | inl e ↦ (y, inl refl, e)
    | inr e ↦ let (x, m, k) = any-Among p t (rw e at h) in (x, inr m, k)
  ]

  -- A rewrite that moves no row into a clause does not raise its count.
  pub count-update-le :
      (q p : A → Bool) (f : A → A) (t : List A)
      → ((x : A) → Among x t → p x ≡ true → q (f x) ≡ true → q x ≡ true)
      → count q (update p f t) ≤ count q t
  count-update-le q p f [] h = omega arith
  count-update-le q p f (x ∷ t) h =
      let rest = count-update-le q p f t (λ y m. h y (inr m)) in
      let here = h x (inl refl) in ground arith

  pub count-insert-le :
      (q : A → Bool) (t : List A) (r : A) → count q (t ++ (r ∷ [])) ≤ count q t + 1
  count-insert-le q [] r = ground arith
  count-insert-le q (x ∷ t) r = ground (arith, count-insert-le q t r)

  pub count-insert_other :
      (q : A → Bool) (t : List A) (r : A) → q r ≡ false → count q (t ++ (r ∷ [])) ≡ count q t
  count-insert_other q [] r h = rw h
  count-insert_other q (x ∷ t) r h = ground (arith, count-insert_other q t r h)

  pub count-cong :
      (p q : A → Bool) (t : List A) → ((x : A) → Among x t → p x ≡ q x) → count p t ≡ count q t
  count-cong p q [] h = refl
  count-cong p q (x ∷ t) h =
      let here = h x (inl refl) in let rest = count-cong p q t (λ y m. h y (inr m)) in ground arith
