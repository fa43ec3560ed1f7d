-- ===== src/Retrieval/Packing.antt =====
-- The loop of isekai_memory/retrieval/service.py that packs the rows into the budget.
use isekai_memory.Base.{
  ℕ, zero, suc, ◌+◌, ◌≤◌, ◌≡◌, ◌⊎◌, inl, inr, refl, ◌∙◌, sym, ap, Bool, true, false, none, some,
  List, [], ◌∷◌, ◌++◌, map, arith, All, length, length-append, Bool-cases, Option-cases,
}
use mathlib.Core.List.{append_assoc, append-nil}
use isekai_memory.Base.Table.{All-insert}
use isekai_memory.Base.Sorted.{limit_to}
use isekai_memory.Retrieval.Rows.{Hit}
use isekai_memory.Retrieval.Citations.{Printer, Item, attach, size}
use isekai_memory.Retrieval.Service.{Packed, comma, fits_with, add_item, fitted, place, pack}
use isekai_memory.Retrieval.Fit.{longest, fitted-longest}

-- What the JSON array of the items prints: brackets, the items, and commas between them.
unfoldable pub separated : Printer → List Item → ℕ
separated p [] = 0
separated p (i ∷ []) = size p i
separated p (i ∷ j ∷ t) = size p i + 1 + separated p (j ∷ t)

unfoldable pub list_size : Printer → List Item → ℕ
unfolding separated
list_size p t = 2 + separated p t

list_size-append :
    (p : Printer) (t : List Item) (i : Item)
    → list_size p (t ++ (i ∷ [])) ≡ list_size p t + (size p i + comma t)
unfolding list_size
list_size-append p [] i = omega arith
list_size-append p (j ∷ []) i = omega arith
list_size-append p (j ∷ k ∷ t) i = omega (arith, list_size-append p (k ∷ t) i)

-- An item as `attach` makes it, with an excerpt of at most 512 characters.
pub record IsCited (p : Printer) (i : Item) : Type 0 where
  pub chars : ℕ
  pub short : chars ≤ 512
  pub attached : i ≡ attach p chars i.hit

-- What a round of the loop adds.
abbrev pub Adds : Printer → ℕ → Packed → Hit → Packed → Type 0
Adds p budget s h t =
    (chars : ℕ) × (cut : Bool) × (t ≡ add_item p s h chars cut)
    × (fits_with p budget s h chars ≡ true)
    × (chars ≤ 512)
    × (cut ≡ false → chars ≡ 512)

longest-holds : (fits : ℕ → Bool) (n k : ℕ) → longest fits n ≡ some k → (fits k ≡ true) × (k ≤ n)
unfolding longest
longest-holds fits zero k e = cc
longest-holds fits (suc n) k e = elim (Bool-cases (fits (suc n))) [
  | inl y ↦ let same : suc n ≡ k = top (suc n) k (rw y at e) in (rw (← same) y, omega arith)
  | inr m ↦ let (y, le) = longest-holds fits n k (rw m at e) in (y, omega arith)
]
  where
    top : (a b : ℕ) → some a ≡ some b → a ≡ b
    top a b q = cc

limit_to-le : (n : ℕ) (t : List ℕ) → length (limit_to n t) ≤ n
limit_to-le zero t = omega arith
limit_to-le (suc n) [] = omega arith
limit_to-le (suc n) (x ∷ t) = omega (arith, limit_to-le n t)

module _ (p : Printer) (budget : ℕ) where
  place-Adds :
      (s : Packed) (h : Hit) (t : Packed) → place p budget s h ≡ some t → Adds p budget s h t
  unfolding place
  place-Adds s h t e = elim (Bool-cases (fits_with p budget s h 512)) [
    | inl y ↦ (512, false, sym (whole _ t (rw y at e)), y, omega arith, λ _. refl)
    | inr n ↦ elim (Option-cases (fitted p budget s h)) [
      | inl none_ ↦ cc (rw (n, none_) at e)
      | inr (k, f) ↦
          let (y, le) =
            longest-holds (fits_with p budget s h) _ k (sym (fitted-longest p budget s h) ∙ f) in
          let short = limit_to-le 512 h.memory.content in
          (k, true, sym (whole _ t (rw (n, f) at e)), y, omega arith, λ q. cc)
    ]
  ]
    where
      whole : (a b : Packed) → some a ≡ some b → a ≡ b
      whole a b q = cc

  pack-none :
      (h : Hit) (hs : List Hit) (s : Packed)
      → place p budget s h ≡ none
      → pack p budget (h ∷ hs) s ≡ s
  unfolding pack
  pack-none h hs s e = rw (e, pack)

  pack-some :
      (h : Hit) (hs : List Hit) (s t : Packed)
      → place p budget s h ≡ some t
      → pack p budget (h ∷ hs) s ≡ pack p budget hs t
  unfolding pack
  pack-some h hs s t e = rw (e, pack)

  -- What every round keeps, the loop keeps.
  pub pack_rule {κ} :
      (Q : Packed → Type κ)
      → ((s t : Packed) (h : Hit) → Q s → Adds p budget s h t → Q t)
      → (hs : List Hit) (s : Packed) → Q s
      → Q (pack p budget hs s)
  pack_rule Q keep [] s q = unfold pack in q
  pack_rule Q keep (h ∷ hs) s q = elim (Option-cases (place p budget s h)) [
    | inl n ↦ rw (pack-none h hs s n) q
    | inr (t, e) ↦
        rw (pack-some h hs s t e) (pack_rule Q keep hs t (keep s t h q (place-Adds s h t e)))
  ]

  abbrev pub IsPacked : Packed → Type 0
  IsPacked s = (s.used ≤ budget) × (s.used ≡ list_size p s.items) × All (IsCited p) s.items

  pub Adds-IsPacked : (s t : Packed) (h : Hit) → IsPacked s → Adds p budget s h t → IsPacked t
  unfolding attach
  Adds-IsPacked s t h (room, chars, cited) (k, cut, e, y, short, _) = rw e (
    ground arith,
    ap (λ (n : ℕ). n + (size p (attach p k h) + comma s.items)) chars
        ∙ sym (list_size-append p s.items (attach p k h)),
    All-insert (IsCited p) s.items (attach p k h) cited
        (record { chars = k; short = short; attached = refl }),
  )

  -- The items come from the rows.
  pub pack-All {κ} :
      (P : Hit → Type κ) (hs : List Hit) (s : Packed)
      → All P hs
      → All (λ (i : Item). P i.hit) s.items
      → All (λ (i : Item). P i.hit) (pack p budget hs s).items
  pack-All P [] s a b = unfold pack in b
  pack-All P (h ∷ hs) s a b = elim (Option-cases (place p budget s h)) [
    | inl n ↦ rw (pack-none h hs s n) b
    | inr (t, e) ↦
        let (k, _, same, _, _, _) = place-Adds s h t e in
        let more : All (λ (i : Item). P i.hit) t.items =
          rw same
            (All-insert (λ (i : Item). P i.hit) s.items (attach p k h) b (unfold attach in a.0)) in
        rw (pack-some h hs s t e) (pack-All P hs t a.1 more)
  ]

  Adds-clipped :
      (s t : Packed) (h : Hit) → s.clipped ≡ true → Adds p budget s h t → t.clipped ≡ true
  Adds-clipped s t h q (k, cut, e, _, _, _) = rw e (ground arith)

  Adds-items :
      (s t : Packed) (h : Hit)
      → Adds p budget s h t
      → (t.clipped ≡ true) ⊎ (t.items ≡ s.items ++ (attach p 512 h ∷ []))
  Adds-items s t h (k, true, e, _, _, _) = inl (rw e (ground arith))
  Adds-items s t h (k, false, e, _, _, full) = inr (rw (e, full refl))

  Adds-length : (s t : Packed) (h : Hit) → Adds p budget s h t → length t.items ≡ length s.items + 1
  Adds-length s t h (k, cut, e, _, _, _) = rw e (length-append s.items (attach p k h ∷ []))

  pub pack-length :
      (hs : List Hit) (s : Packed) → length (pack p budget hs s).items ≤ length s.items + length hs
  pack-length [] s = unfold pack in omega arith
  pack-length (h ∷ hs) s = elim (Option-cases (place p budget s h)) [
    | inl n ↦ rw (pack-none h hs s n) (omega arith)
    | inr (t, e) ↦
        let one = Adds-length s t h (place-Adds s h t e) in
        let rest = pack-length hs t in rw (pack-some h hs s t e) (omega arith)
  ]

  -- Where nothing was clipped and no row is missing, each row is there with its whole excerpt.
  pub pack_whole :
      (hs : List Hit) (s : Packed)
      → (pack p budget hs s).clipped ≡ false
      → length s.items + length hs ≤ length (pack p budget hs s).items
      → (pack p budget hs s).items ≡ s.items ++ map (attach p 512) hs
  pack_whole [] s c l = unfold pack in sym (append-nil s.items)
  pack_whole (h ∷ hs) s c l = elim (Option-cases (place p budget s h)) [
    | inl n ↦
        let short = ap (λ (x : Packed). length x.items) (pack-none h hs s n) in absurd (omega arith)
    | inr (t, e) ↦
        let same = pack-some h hs s t e in
        let added = place-Adds s h t e in
        let one = Adds-length s t h added in
        let l' = ap (λ (x : Packed). length x.items) same in
        elim (Adds-items s t h added) [
          | inl cut ↦
              let c' = pack_rule (λ x. x.clipped ≡ true) Adds-clipped hs t cut in cc (c, same, c')
          | inr items ↦
              ap (λ (x : Packed). x.items) same
              ∙ pack_whole hs t (sym (ap (λ (x : Packed). x.clipped) same) ∙ c) (omega arith)
              ∙ ap (λ x. x ++ map (attach p 512) hs) items
              ∙ append_assoc s.items (attach p 512 h ∷ []) (map (attach p 512) hs)
        ]
  ]
