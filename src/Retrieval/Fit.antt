-- ===== src/Retrieval/Fit.antt =====
-- The binary search of isekai_memory/retrieval/service.py finds the longest excerpt that fits.
use isekai_memory.Base.{
  ℕ, zero, suc, ◌+◌, ◌-◌, ◌/◌, ◌≤◌, ◌<◌, ◌≡◌, inl, inr, refl, sym, Bool, true, false, Option, none,
  some, List, [], ◌∷◌, leb, if◌then◌else◌, arith, length, Bool-cases,
}
use isekai_memory.Base.Sorted.{limit_to}
use isekai_memory.Retrieval.Rows.{Hit}
use isekai_memory.Retrieval.Citations.{Printer, attach, size, printed}
use isekai_memory.Retrieval.Service.{fit, Packed, fits_with, fitted}

-- The greatest number from `n` down to 1 that fits.
unfoldable pub longest : (ℕ → Bool) → ℕ → Option ℕ
longest fits zero = none
longest fits (suc n) = if fits (suc n) then some (suc n) else longest fits n

-- What fits still fits when it is shorter.
abbrev pub IsDownward : (ℕ → Bool) → Type 0
IsDownward fits = (j k : ℕ) → j ≤ k → fits k ≡ true → fits j ≡ true

longest-above :
    (fits : ℕ → Bool) (k n : ℕ)
    → k ≤ n
    → ((j : ℕ) → k < j → j ≤ n → fits j ≡ false)
    → longest fits n ≡ longest fits k
unfolding longest
longest-above fits zero zero h above = refl
longest-above fits (suc k) zero h above = absurd (omega arith)
longest-above fits k (suc n) h above = elim (Bool-cases (leb k n)) [
  | inl y ↦
      let le : k ≤ n = ground arith in
      let top = above (suc n) (omega arith) (omega arith) in
      rw top (longest-above fits k n le (λ j a b. above j a (omega arith)))
  | inr y ↦ let e : k ≡ suc n = ground arith in rw e
]

longest-fits : (fits : ℕ → Bool) (m : ℕ) → 0 < m → fits m ≡ true → longest fits m ≡ some m
unfolding longest
longest-fits fits zero h e = absurd (omega arith)
longest-fits fits (suc m) h e = rw e

misses : (fits : ℕ → Bool) (m j : ℕ) → IsDownward fits → fits m ≡ false → m ≤ j → fits j ≡ false
misses fits m j down e h = elim (Bool-cases (fits j)) [
  | inr y ↦ y
  | inl y ↦ let also = down m j h y in cc
]

-- The loop has looked at `1 .. k` and above `high`.
fit_from :
    (fuel : ℕ) (fits : ℕ → Bool) (low high k n : ℕ)
    → IsDownward fits
    → low ≡ k + 1
    → k ≤ high
    → high ≤ n
    → high < k + fuel
    → ((j : ℕ) → high < j → j ≤ n → fits j ≡ false)
    → fit fuel fits low high (longest fits k) ≡ longest fits n
unfolding fit
fit_from zero fits low high k n down e a b c above = absurd (omega arith)
fit_from (suc fuel) fits low high k n down e a b c above = elim (Bool-cases (leb low high)) [
  | inr out ↦
      let same : k ≡ high = ground arith in
      rw out (sym (longest-above fits k n (omega arith) (λ j x y. above j (omega arith) y)))
  | inl more ↦
      let le : low ≤ high = ground arith in
      let m : ℕ = (low + high) / 2 in
      let up : low ≤ (low + high) / 2 = omega arith in
      let down_ : (low + high) / 2 ≤ high = omega arith in
      elim (Bool-cases (fits ((low + high) / 2))) [
        | inl y ↦
            rw (more, y)
              (rw (← longest-fits fits ((low + high) / 2) (omega arith) y) (
                fit_from fuel fits ((low + high) / 2 + 1) high ((low + high) / 2) n down refl
                  (omega arith) b (omega arith) above))
        | inr y ↦
            rw (more, y)
              (fit_from fuel fits low ((low + high) / 2 - 1) k n down e (omega arith) (omega arith)
                (omega arith) λ j p q. misses fits ((low + high) / 2) j down y (omega arith))
      ]
]

-- Where a shorter excerpt always fits if a longer one does, the search finds what a scan from the
-- longest to the shortest finds, within its fuel.
pub fit-longest :
    (fits : ℕ → Bool) (n : ℕ) → IsDownward fits → fit (suc n) fits 1 n none ≡ longest fits n
unfolding longest
fit-longest fits n down =
    fit_from (suc n) fits 1 n 0 n down refl (omega arith) (omega arith) (omega arith)
      λ j a b. absurd (omega arith)

printed_mono : (j k : ℕ) (t : List ℕ) → j ≤ k → printed (limit_to j t) ≤ printed (limit_to k t)
unfolding printed
printed_mono zero k t h = omega arith
printed_mono (suc j) zero t h = absurd (omega arith)
printed_mono (suc j) (suc k) [] h = omega arith
printed_mono (suc j) (suc k) (c ∷ t) h = let rest = printed_mono j k t (omega arith) in omega arith

pub fits_with-IsDownward :
    (p : Printer) (budget : ℕ) (s : Packed) (h : Hit) → IsDownward (fits_with p budget s h)
unfolding attach size
fits_with-IsDownward p budget s h j k le e =
    let shorter = printed_mono j k h.memory.content le in ground arith

-- Where an item has to be shortened, the search ends with the longest excerpt that still fits the
-- budget, or with none if not even one character does.
pub fitted-longest :
    (p : Printer) (budget : ℕ) (s : Packed) (h : Hit)
    → fitted p budget s h
      ≡ longest (fits_with p budget s h) (length (limit_to 512 h.memory.content))
fitted-longest p budget s h =
    fit-longest (fits_with p budget s h) (length (limit_to 512 h.memory.content))
      (fits_with-IsDownward p budget s h)
