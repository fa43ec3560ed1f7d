-- ===== src/Base/Earliest.antt =====
-- The first row of `ORDER BY`: none that the clause accepts comes before it.
use mathlib.Core.Path.{◌≡◌, refl}
use mathlib.Core.Logic.{◌⊎◌, inl, inr}
use mathlib.Core.Bool.{Bool, true, false}
use mathlib.Core.List.{List, [], ◌∷◌}
use mathlib.Core.Option.{some}
use isekai_memory.Base.Tests.{Bool-cases, some_eq}
use isekai_memory.Base.Lists.{select}
use isekai_memory.Base.Sorted.{first, order_by, insert_by}
use isekai_memory.Base.Among.{Among, order_by-Among}

-- The first of an ordered list has nothing before it.
module _ {A : Type 0} (before : A → A → Bool) (irrefl : (x : A) → before x x ≡ false)
    (trans : (x y z : A) → before x y ≡ true → before y z ≡ true → before x z ≡ true) where
  select-Among : (p : A → Bool) (t : List A) (x : A) → Among x t → p x ≡ true → Among x (select p t)
  select-Among p [] x m h = elim m [ ]
  select-Among p (y ∷ t) x (inl e) h = rw (rw e at h) (inl e)
  select-Among p (y ∷ t) x (inr m) h = elim (Bool-cases (p y)) [
    | inl k ↦ rw k (inr (select-Among p t x m h))
    | inr k ↦ rw k (select-Among p t x m h)
  ]

  first_inserted :
      (z x y : A) (t : List A)
      → first (insert_by before z t) ≡ some x
      → (y ≡ z) ⊎ Among y t × ((w : A) → first t ≡ some w → before y w ≡ false)
      → before y x ≡ false
  first_inserted z x y [] e (inl q) = rw (q, ← some_eq z x e) (irrefl z)
  first_inserted z x y [] e (inr (m, k)) = elim m [ ]
  first_inserted z x y (w ∷ t) e m = elim (Bool-cases (before z w)) [
    | inr h ↦
        let same : w ≡ x = some_eq w x (rw h at e) in
        elim m [ inl q ↦ rw (q, ← same) h | inr (n, k) ↦ rw (← same) (k w refl) ]
    | inl h ↦
        let same : z ≡ x = some_eq z x (rw h at e) in
        elim m [
          | inl q ↦ rw (q, ← same) (irrefl z)
          | inr (n, k) ↦ elim (Bool-cases (before y z)) [
            | inr b ↦ rw (← same) b
            | inl b ↦ cc (trans y z w b h, k w refl)
          ]
        ]
  ]

  first_ordered :
      (t : List A) (x y : A) → first (order_by before t) ≡ some x → Among y t → before y x ≡ false
  first_ordered [] x y e m = elim m [ ]
  first_ordered (z ∷ t) x y e (inl q) = first_inserted z x y (order_by before t) e (inl q)
  first_ordered (z ∷ t) x y e (inr m) =
      first_inserted z x y (order_by before t) e
        (inr (order_by-Among before y t m, λ w h. first_ordered t w y h m))

  pub first-before :
      (p : A → Bool) (t : List A) (x y : A)
      → first (order_by before (select p t)) ≡ some x
      → Among y t
      → p y ≡ true
      → before y x ≡ false
  first-before p t x y e m h = first_ordered (select p t) x y e (select-Among p t y m h)
