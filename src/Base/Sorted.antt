-- ===== src/Base/Sorted.antt =====
-- `ORDER BY … LIMIT n` over the rows that a WHERE clause accepts.
use Prim.Native.Nat.{ℕ, zero, suc}
use mathlib.Core.Path.{◌≡◌}
use mathlib.Core.Logic.{inl, inr}
use mathlib.Core.Bool.{Bool, true}
use mathlib.Core.List.{List, [], ◌∷◌}
use mathlib.Core.Option.{Option, none, some}
use isekai_memory.Base.Tests.{if◌then◌else◌, Bool-cases}
use isekai_memory.Base.Lists.{All, select}

module _ {ℓ} {A : Type ℓ} where
  abbrev pub first : List A → Option A
  first [] = none
  first (x ∷ t) = some x

  abbrev pub limit_to : ℕ → List A → List A
  limit_to zero t = []
  limit_to (suc n) [] = []
  limit_to (suc n) (x ∷ t) = x ∷ limit_to n t

  -- `before a b` puts `a` in front of `b`.
  module _ (before : A → A → Bool) where
    abbrev pub insert_by : A → List A → List A
    insert_by x [] = x ∷ []
    insert_by x (y ∷ t) = if before x y then x ∷ y ∷ t else y ∷ insert_by x t

    abbrev pub order_by : List A → List A
    order_by [] = []
    order_by (x ∷ t) = insert_by x (order_by t)

  module _ {κ} (P : A → Type κ) where
    -- What is selected was there, and satisfies the clause.
    pub All-select :
        (p : A → Bool) (t : List A) → All P t → All (λ x. P x × (p x ≡ true)) (select p t)
    All-select p [] a = tt
    All-select p (x ∷ t) a = elim (Bool-cases (p x)) [
      | inl e ↦ rw e ((a.0, e), All-select p t a.1)
      | inr e ↦ rw e (All-select p t a.1)
    ]

    pub All-insert_by :
        (before : A → A → Bool) (x : A) (t : List A) → P x → All P t → All P (insert_by before x t)
    All-insert_by before x [] p a = (p, tt)
    All-insert_by before x (y ∷ t) p a = elim (Bool-cases (before x y)) [
      | inl e ↦ rw e (p, a)
      | inr e ↦ rw e (a.0, All-insert_by before x t p a.1)
    ]

    pub All-order_by : (before : A → A → Bool) (t : List A) → All P t → All P (order_by before t)
    All-order_by before [] a = tt
    All-order_by before (x ∷ t) a =
        All-insert_by before x (order_by before t) a.0 (All-order_by before t a.1)

    pub All-limit_to : (n : ℕ) (t : List A) → All P t → All P (limit_to n t)
    All-limit_to zero t a = tt
    All-limit_to (suc n) [] a = tt
    All-limit_to (suc n) (x ∷ t) a = (a.0, All-limit_to n t a.1)

    pub All-first : (t : List A) (x : A) → All P t → first t ≡ some x → P x
    All-first [] x a e = cc
    All-first (y ∷ t) x a e = rw (same y x e) at a.0
      where
        same : (y x : A) → some y ≡ some x → y ≡ x
        same y x e = cc
