-- ===== src/Base/Keyed.antt =====
-- Tables with a key, and relations between the versions of a row.
use isekai_memory.Base.{
  ℕ, ◌≡◌, ◌⊎◌, inl, inr, sym, ap, ◌∙◌, Bool, true, false, Option, none, List, [], ◌∷◌, ◌++◌, ◌==◌,
  if◌then◌else◌, arith, any, Bool-cases,
}
use isekai_memory.Base.Table.{update}
use isekai_memory.Base.Among.{
  Among, update-Among, rewritten-Among, kept-Among, insert-Among, append-Among, any_none,
}

module _ {A : Type 0} (id : A → ℕ) where
  -- `id` is a key of the table.
  abbrev pub IsKeyed : List A → Type 0
  IsKeyed t = (x y : A) → Among x t → Among y t → id x ≡ id y → x ≡ y

  pub IsKeyed-insert :
      (t : List A) (r : A) → IsKeyed t → any (λ x. id x == id r) t ≡ false → IsKeyed (t ++ (r ∷ []))
  IsKeyed-insert t r k unused x y m n same =
      let fresh = λ (z : A) (i : Among z t). any_none (λ w. id w == id r) t z unused i in
      elim (insert-Among t r x m) [
        | inl old ↦ elim (insert-Among t r y n) [
          | inl also ↦ k x y old also same
          | inr q ↦
              let other = fresh x old in
              let it : id x ≡ id r = same ∙ ap id q in absurd (ground arith)
        ]
        | inr p ↦ elim (insert-Among t r y n) [
          | inl also ↦
              let other = fresh y also in
              let it : id y ≡ id r = sym same ∙ ap id p in absurd (ground arith)
          | inr q ↦ p ∙ sym q
        ]
      ]

  rewritten_key :
      (p : A → Bool) (f : A → A) (x : A)
      → (p x ≡ true → id (f x) ≡ id x)
      → id (if p x then f x else x) ≡ id x
  rewritten_key p f x h = elim (Bool-cases (p x)) [ inl e ↦ rw e (h e) | inr e ↦ rw e ]

  pub IsKeyed-update :
      (p : A → Bool) (f : A → A) (t : List A)
      → ((x : A) → Among x t → p x ≡ true → id (f x) ≡ id x)
      → IsKeyed t
      → IsKeyed (update p f t)
  IsKeyed-update p f t keep k x y m n same =
      let (x', i, px) = update-Among p f t x m in
      let (y', j, py) = update-Among p f t y n in
      let ids : id x' ≡ id y' =
        sym (rewritten_key p f x' (keep x' i))
        ∙ sym (ap id px)
        ∙ same
        ∙ ap id py
        ∙ rewritten_key p f y' (keep y' j) in
      px ∙ ap (λ (z : A). if p z then f z else z) (k x' y' i j ids) ∙ sym py

module _ {A : Type 0} (R : A → A → Type 0) (R_refl : (x : A) → R x x) where
  -- Every row is still there, in a version that it may have come to.
  pub update-Kept :
      (p : A → Bool) (f : A → A) (t : List A)
      → ((x : A) → Among x t → p x ≡ true → R x (f x))
      → (x : A) → Among x t
      → (y : A) × Among y (update p f t) × R x y
  update-Kept p f t allowed x m = elim (Bool-cases (p x)) [
    | inl h ↦ (f x, rewritten-Among p f t x m h, allowed x m h)
    | inr h ↦ (x, kept-Among p f t x m h, R_refl x)
  ]

  pub append-Kept : (t : List A) (r x : A) → Among x t → (y : A) × Among y (t ++ (r ∷ [])) × R x y
  append-Kept t r x m = (x, append-Among t r x m, R_refl x)

module _ {A B : Type 0} where
  -- A column that is fixed once it is set is fixed over two changes.
  pub fixed :
      (col : A → Option B) (x y z : A)
      → (col x ≡ none) ⊎ (col y ≡ col x)
      → (col y ≡ none) ⊎ (col z ≡ col y)
      → (col x ≡ none) ⊎ (col z ≡ col x)
  fixed col x y z (inl n) k = inl n
  fixed col x y z (inr e) (inl n) = inl (sym e ∙ n)
  fixed col x y z (inr e) (inr d) = inr (d ∙ e)

  -- A row that is frozen once a column is set is frozen over two changes.
  pub frozen :
      (col : A → Option B) (x y z : A)
      → (col x ≡ none) ⊎ (y ≡ x)
      → (col y ≡ none) ⊎ (z ≡ y)
      → (col x ≡ none) ⊎ (z ≡ x)
  frozen col x y z (inl n) k = inl n
  frozen col x y z (inr e) (inl n) = inl (ap col (sym e) ∙ n)
  frozen col x y z (inr e) (inr d) = inr (d ∙ e)
