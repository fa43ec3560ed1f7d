-- ===== src/Usage/Aggregate/Sums.antt =====
-- The sums of an aggregate: every unit is counted once, and nothing is made up.
use isekai_memory.Base.{
  ℕ, ◌+◌, ◌*◌, ◌≤◌, ◌≡◌, refl, none, some, List, [], ◌∷◌, ◌++◌, arith, length, All, length-append,
  Bool-cases, inl, inr, ltb, if◌then◌else◌,
}
use mathlib.Core.Path.{subst}
use isekai_memory.Usage.Counters.{
  Counter, Quality, reported, estimated, is_quality, IsCounter, max_tokens,
}
use isekai_memory.Usage.Metrics.{Metrics}
use isekai_memory.Usage.Aggregate.{
  Field, counter_of, Totals, known, sum, totals, Aggregate, aggregate, total_value,
  max_aggregate_units, summary,
}

-- Both parts of a supplied set, one after the other.
known-append :
    (q : Quality) (i : Field) (xs ys : List Metrics)
    → known q i (xs ++ ys) ≡ known q i xs ++ known q i ys
known-append q i [] ys = refl
known-append q i (x ∷ xs) ys = elim (Bool-cases (is_quality q (counter_of i x))) [
  | inl e ↦ rw (e, known-append q i xs ys)
  | inr e ↦ rw (e, known-append q i xs ys)
]

sum-append : (xs ys : List Counter) → sum (xs ++ ys) ≡ sum xs + sum ys
unfolding sum
sum-append [] ys = omega arith
sum-append (x ∷ xs) ys = omega (arith, sum-append xs ys)

length-known : (q : Quality) (i : Field) (xs : List Metrics) → length (known q i xs) ≤ length xs
length-known q i [] = omega arith
length-known q i (x ∷ xs) = ground (arith, length-known q i xs)

-- The value of a total, 0 where it has none.
abbrev pub value_of : Totals → ℕ
value_of t = elim t.value [ some n ↦ n | none ↦ 0 ]

abbrev IsBounded : Field → Aggregate → Type 0
IsBounded i a =
    (value_of (a.reported_totals i) ≤ 10_000_000_000_000_000)
    × (value_of (a.estimated_totals i) ≤ 10_000_000_000_000_000)
    × ((a.reported_totals i).known_units + (a.reported_totals i).missing_units ≡ a.observed_units)
    × ((a.estimated_totals i).known_units + (a.estimated_totals i).missing_units ≡ a.observed_units)

value_of-totals :
    (q : Quality) (i : Field) (xs : List Metrics) → value_of (totals q i xs) ≡ sum (known q i xs)
unfolding totals sum
value_of-totals q i xs = nonempty (known q i xs)
  where
    nonempty : (cs : List Counter) → (elim (total_value cs) [ some n ↦ n | none ↦ 0 ]) ≡ sum cs
    nonempty [] = refl
    nonempty (c ∷ cs) = refl

-- The totals of two lists of units, taken together, are the sums of their totals: for each field
-- and quality, the value, the known units and the missing units add up.
pub totals-append :
    (q : Quality) (i : Field) (xs ys : List Metrics)
    → let t = totals q i (xs ++ ys) in
      (value_of t ≡ value_of (totals q i xs) + value_of (totals q i ys))
      × (t.known_units ≡ (totals q i xs).known_units + (totals q i ys).known_units)
      × (t.missing_units ≡ (totals q i xs).missing_units + (totals q i ys).missing_units)
totals-append q i xs ys =
    let a = length-known q i xs in
    let b = length-known q i ys in
    (
      rw (value_of-totals, known-append, sum-append)
          (rw (value_of-totals q i xs, value_of-totals q i ys)),
      (unfold totals in rw known-append (length-append (known q i xs) (known q i ys))),
      (unfold totals in
          rw known-append
            (omega (arith, length-append xs ys, length-append (known q i xs) (known q i ys)))),
    )

sum_bound :
    (q : Quality) (i : Field) (xs : List Metrics)
    → All (λ m. IsCounter (counter_of i m)) xs
    → sum (known q i xs) ≤ length (known q i xs) * max_tokens
unfolding sum
sum_bound q i [] h = omega arith
sum_bound q i (x ∷ xs) h = ground (arith, sum_bound q i xs h.1)

totals_bound :
    (q : Quality) (i : Field) (xs : List Metrics)
    → All (λ m. IsCounter (counter_of i m)) xs
    → length xs ≤ max_aggregate_units
    → (value_of (totals q i xs) ≤ 10_000_000_000_000_000)
      × ((totals q i xs).known_units + (totals q i xs).missing_units ≡ length xs)
totals_bound q i xs h l = (
  rw value_of-totals (omega (arith, sum_bound q i xs h, length-known q i xs)),
  (unfold totals in omega (arith, length-known q i xs)),
)

aggregate_parts :
    (xs : List Metrics) (a : Aggregate)
    → aggregate xs ≡ some a
    → (summary xs ≡ a) × (length xs ≤ max_aggregate_units)
unfolding aggregate
aggregate_parts xs a e = parts (summary xs) e
  where
    parts :
        (b : Aggregate)
        → (if ltb max_aggregate_units (length xs) then none else some b) ≡ some a
        → (b ≡ a) × (length xs ≤ max_aggregate_units)
    parts b p = ground arith

-- Where the counters of a field are valid, an aggregate that is returned adds them up to at most
-- 10^16 in each quality, which a signed 64-bit integer holds, and counts each unit as known or as
-- missing.
pub aggregate_bound :
    (i : Field) (xs : List Metrics) (a : Aggregate)
    → All (λ m. IsCounter (counter_of i m)) xs
    → aggregate xs ≡ some a
    → (value_of (a.reported_totals i) ≤ 10_000_000_000_000_000)
      × (value_of (a.estimated_totals i) ≤ 10_000_000_000_000_000)
      × ((a.reported_totals i).known_units + (a.reported_totals i).missing_units ≡ a.observed_units)
      × ((a.estimated_totals i).known_units + (a.estimated_totals i).missing_units
          ≡ a.observed_units)
aggregate_bound i xs a h e =
    let (same, small) = aggregate_parts xs a e in
    let (r, rk) = totals_bound reported i xs h small in
    let (s, sk) = totals_bound estimated i xs h small in
    subst (λ x. IsBounded i x) same (unfold summary in (r, s, rk, sk))
