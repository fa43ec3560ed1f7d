-- ===== src/Registry/Canonical.antt =====
-- What `SemVer.parse` of isekai_memory/registry/policy.py constructs from any text, and its canonical text.
use mathlib.Core.Path.{subst}
use isekai_memory.Base.{
  ℕ, ◌≡◌, refl, ap, Bool, true, false, not, ◌&&◌, inl, inr, Option, none, some, List, [], ◌∷◌, ◌==◌,
  all, any, All, arith, Bool-cases, Option-cases, some_eq,
}
use isekai_memory.Registry.Text.{Text, is_word, is_digit, is_empty, span, split_on, prepend}
use isekai_memory.Registry.Version.{SemVer, Identifier, numeric, textual}
use isekai_memory.Registry.Parse.{
  number, drop_v, component, tag, is_tag, has_leading_zero, identifier, identifiers, prerelease_of,
  construct, parse, parse_after, digits,
}
use isekai_memory.Registry.Print.{printed, IsItem, IsPrerelease}
use isekai_memory.Registry.RoundTrip.{parse-printed}

span-all_hold : (p : ℕ → Bool) (s : Text) → all p (span p s).0 ≡ true
unfolding span
span-all_hold p [] = refl
span-all_hold p (c ∷ s) = ground (arith, span-all_hold p s)

-- The items of a dotted text.
abbrev Words : List Text → Type 0
Words = All (λ t. all is_word t ≡ true)

prepend-Words : (c : ℕ) (ss : List Text) → is_word c ≡ true → Words ss → Words (prepend c ss)
prepend-Words c [] h a = (rw h refl, tt)
prepend-Words c (t ∷ ss) h (k, a) = (rw (h, k) refl, a)

split_on-Words : (s : Text) → all is_tag s ≡ true → Words (split_on b'.' s)
unfolding split_on
split_on-Words [] h = (refl, tt)
split_on-Words (c ∷ s) h =
    let rest = split_on-Words s (ground arith) in
    elim (Bool-cases (c == b'.')) [
      | inl e ↦ rw e (refl, rest)
      | inr e ↦ rw e (prepend-Words c (split_on b'.' s) (ground arith) rest)
    ]

split_on-cons : (d : ℕ) (s : Text) → (t : Text) × (ss : List Text) × (split_on d s ≡ t ∷ ss)
unfolding split_on
split_on-cons d [] = ([], [], refl)
split_on-cons d (c ∷ s) =
    let (t, ss, e) = split_on-cons d s in
    elim (Bool-cases (c == d)) [
      | inl h ↦ ([], split_on d s, rw h refl)
      | inr h ↦ (c ∷ t, ss, rw (h, e) refl)
    ]

identifier-IsItem :
    (s : Text) (x : Identifier)
    → is_empty s ≡ false
    → all is_word s ≡ true
    → identifier s ≡ some x
    → IsItem x
unfolding identifier
identifier-IsItem s x h w e = elim (Bool-cases (all is_digit s)) [
  | inr d ↦ subst IsItem (some_eq (textual s) x (rw d at e)) (h, w, d)
  | inl d ↦ elim (Bool-cases (has_leading_zero s)) [
    | inl z ↦ cc (rw (d, z) at e)
    | inr z ↦ subst IsItem (some_eq (numeric (digits s 0).0) x (rw (d, z) at e)) tt
  ]
]

identifiers-invert :
    (s : Text) (ss : List Text) (xs : List Identifier)
    → identifiers (s ∷ ss) ≡ some xs
    → (y : Identifier) × (ys : List Identifier) × (identifier s ≡ some y)
      × (identifiers ss ≡ some ys)
      × (xs ≡ y ∷ ys)
unfolding identifiers
identifiers-invert s ss xs e = inner (identifier s) (identifiers ss) refl refl e
  where
    inner :
        (o : Option Identifier) (os : Option (List Identifier))
        → identifier s ≡ o
        → identifiers ss ≡ os
        → elim o [ none ↦ none | some x ↦ elim os [ none ↦ none | some xs ↦ some (x ∷ xs) ] ]
          ≡ some xs
        → (y : Identifier) × (ys : List Identifier) × (identifier s ≡ some y)
          × (identifiers ss ≡ some ys)
          × (xs ≡ y ∷ ys)
    inner none os p q k = cc
    inner (some y) none p q k = cc
    inner (some y) (some ys) p q k = (y, ys, p, q, cc)

identifiers-All :
    (ss : List Text) (xs : List Identifier)
    → any is_empty ss ≡ false
    → Words ss
    → identifiers ss ≡ some xs
    → All IsItem xs
unfolding identifiers
identifiers-All [] xs h a e = subst (All IsItem) (some_eq [] xs e) tt
identifiers-All (s ∷ ss) xs h (w, a) e =
    let (y, ys, p, q, same) = identifiers-invert s ss xs e in
    rw same (identifier-IsItem s y (ground arith) w p, identifiers-All ss ys (ground arith) a q)

-- What the group of a tag can hold.
abbrev IsTag : Option (List Text) → Type 0
IsTag none = Unit
IsTag (some ss) =
    (any is_empty ss ≡ false) × Words ss × (t : Text) × (ts : List Text) × (ss ≡ t ∷ ts)

tag-IsTag : (mark : ℕ) (s : Text) → IsTag (tag mark s).0
unfolding tag
tag-IsTag mark [] = tt
tag-IsTag mark (c ∷ s) =
    let items = split_on b'.' (span is_tag s).0 in
    let (t, ts, same) = split_on-cons b'.' (span is_tag s).0 in
    elim (Bool-cases (c == mark && not (any is_empty items))) [
      | inr e ↦ rw e tt
      | inl e ↦
          rw e
            (ground arith, split_on-Words (span is_tag s).0 (span-all_hold is_tag s), t, ts, same)
    ]

prerelease_of-IsPrerelease :
    (items : Option (List Text)) (p : Option (List Identifier))
    → IsTag items
    → prerelease_of items ≡ some p
    → IsPrerelease p
unfolding prerelease_of
prerelease_of-IsPrerelease none p h e = subst IsPrerelease (some_eq none p e) tt
prerelease_of-IsPrerelease (some ss) p (full, w, t, ts, same) e =
    elim (Option-cases (identifiers ss)) [
      | inl k ↦ cc (rw (k, prerelease_of) at e)
      | inr (xs, k) ↦
          let a = identifiers-All ss xs full w k in
          let (y, ys, p1, q, same_xs) = identifiers-invert t ts xs (rw same at k) in
          subst IsPrerelease (some_eq (some xs) p (rw (k, prerelease_of) at e))
            (rw same_xs (rw same_xs at a))
    ]

construct-IsPrerelease :
    (major minor patch : ℕ) (items : Option (List Text)) (s : Text) (v : SemVer)
    → IsTag items
    → construct major minor patch items s ≡ some v
    → IsPrerelease v.prerelease
unfolding construct
construct-IsPrerelease major minor patch items (c ∷ s) v h e = cc
construct-IsPrerelease major minor patch items [] v h e =
    elim (Option-cases (prerelease_of items)) [
      | inl k ↦ cc (rw (k, construct) at e)
      | inr (p, k) ↦
          let made : SemVer = record {
            major = major;
            minor = minor;
            patch = patch;
            prerelease = p;
          } in
          rw (← ap (λ (w : SemVer). w.prerelease) (some_eq made v (rw (k, construct) at e)))
            (prerelease_of-IsPrerelease items p h k)
    ]

parse_after-IsPrerelease :
    (o : Option (ℕ × Text)) (v : SemVer) → parse_after o ≡ some v → IsPrerelease v.prerelease
unfolding parse_after
parse_after-IsPrerelease none v e = cc
parse_after-IsPrerelease (some (major, s)) v e =
    let (minor, s1) = component s in
    let (patch, s2) = component s1 in
    let (items, s3) = tag b'-' s2 in
    let (build, s4) = tag b'+' s3 in
    construct-IsPrerelease major minor patch items s4 v (tag-IsTag b'-' s2) e

-- A text that parses has a canonical text, which parses to the same version: a prerelease that
-- `parse` constructs has one or more identifiers, each a number or made of letters, digits and
-- hyphens and not of digits alone.
pub parse-IsPrerelease :
    (s : Text) (v : SemVer)
    → parse s ≡ some v
    → IsPrerelease v.prerelease × (parse (printed v) ≡ some v)
unfolding parse
parse-IsPrerelease s v e =
    let h = parse_after-IsPrerelease (number (drop_v s)) v e in (h, parse-printed v h)
