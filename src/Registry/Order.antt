-- ===== src/Registry/Order.antt =====
-- The precedence of versions is a strict total order.
use isekai_memory.Base.{
  ℕ, ◌≡◌, inl, inr, refl, ap, true, false, ◌||◌, Option, none, some, List, [], ◌∷◌, arith,
  Bool-cases,
}
use isekai_memory.Registry.Version.{
  Identifier, numeric, textual, SemVer, same_text, lt_text, same_identifier, lt_identifier,
  lt_prerelease, lt_tag, same_prerelease, same_tag, lt, same,
}

same_text_eq : (a b : List ℕ) → same_text a b ≡ true → a ≡ b
unfolding same_text
same_text_eq [] [] h = refl
same_text_eq [] (d ∷ b) h = cc
same_text_eq (c ∷ a) [] h = cc
same_text_eq (c ∷ a) (d ∷ b) h =
    let e = same_text_eq a b (ground arith) in let f : c ≡ d = ground arith in rw (e, f)

same_text_refl : (a : List ℕ) → same_text a a ≡ true
unfolding same_text
same_text_refl [] = refl
same_text_refl (c ∷ a) = let e = same_text_refl a in ground arith

lt_text_total : (a b : List ℕ) → (same_text a b || (lt_text a b || lt_text b a)) ≡ true
unfolding same_text lt_text
lt_text_total [] [] = refl
lt_text_total [] (d ∷ b) = refl
lt_text_total (c ∷ a) [] = refl
lt_text_total (c ∷ a) (d ∷ b) = let e = lt_text_total a b in ground arith

lt_text_irrefl : (a : List ℕ) → lt_text a a ≡ false
unfolding lt_text
lt_text_irrefl [] = refl
lt_text_irrefl (c ∷ a) = let e = lt_text_irrefl a in ground arith

lt_text_trans : (a b c : List ℕ) → lt_text a b ≡ true → lt_text b c ≡ true → lt_text a c ≡ true
unfolding lt_text
lt_text_trans [] [] c h k = cc
lt_text_trans [] (y ∷ b) [] h k = cc
lt_text_trans [] (y ∷ b) (z ∷ c) h k = refl
lt_text_trans (x ∷ a) [] c h k = cc
lt_text_trans (x ∷ a) (y ∷ b) [] h k = cc
lt_text_trans (x ∷ a) (y ∷ b) (z ∷ c) h k = ground (arith, lt_text_trans a b c)

same_identifier_eq : (x y : Identifier) → same_identifier x y ≡ true → x ≡ y
unfolding same_identifier
same_identifier_eq (numeric m) (numeric n) h = let e : m ≡ n = ground arith in rw e
same_identifier_eq (numeric m) (textual b) h = cc
same_identifier_eq (textual a) (numeric n) h = cc
same_identifier_eq (textual a) (textual b) h = ap textual (same_text_eq a b h)

same_identifier_refl : (x : Identifier) → same_identifier x x ≡ true
unfolding same_identifier
same_identifier_refl (numeric m) = ground arith
same_identifier_refl (textual a) = same_text_refl a

lt_identifier_total :
    (x y : Identifier) → (same_identifier x y || (lt_identifier x y || lt_identifier y x)) ≡ true
unfolding same_identifier lt_identifier
lt_identifier_total (numeric m) (numeric n) = ground arith
lt_identifier_total (numeric m) (textual b) = refl
lt_identifier_total (textual a) (numeric n) = refl
lt_identifier_total (textual a) (textual b) = lt_text_total a b

lt_identifier_irrefl : (x : Identifier) → lt_identifier x x ≡ false
unfolding lt_identifier
lt_identifier_irrefl (numeric m) = ground arith
lt_identifier_irrefl (textual a) = lt_text_irrefl a

lt_identifier_trans :
    (x y z : Identifier)
    → lt_identifier x y ≡ true
    → lt_identifier y z ≡ true
    → lt_identifier x z ≡ true
unfolding lt_identifier
lt_identifier_trans (numeric a) (numeric b) (numeric c) h k = ground arith
lt_identifier_trans (numeric a) (numeric b) (textual c) h k = refl
lt_identifier_trans (numeric a) (textual b) (numeric c) h k = cc
lt_identifier_trans (numeric a) (textual b) (textual c) h k = refl
lt_identifier_trans (textual a) (numeric b) z h k = cc
lt_identifier_trans (textual a) (textual b) (numeric c) h k = cc
lt_identifier_trans (textual a) (textual b) (textual c) h k = lt_text_trans a b c h k

-- Identifiers in order differ.
lt_identifier_differs : (x z : Identifier) → lt_identifier x z ≡ true → same_identifier x z ≡ false
lt_identifier_differs x z h = elim (Bool-cases (same_identifier x z)) [
  | inr n ↦ n
  | inl e ↦ let f = lt_identifier_irrefl z in cc (rw (same_identifier_eq x z e) at h, f)
]

differs_sym : (x y : Identifier) → same_identifier x y ≡ false → same_identifier y x ≡ false
differs_sym x y h = elim (Bool-cases (same_identifier y x)) [
  | inr n ↦ n
  | inl e ↦ let f = same_identifier_refl x in cc (rw (same_identifier_eq y x e) at h, f)
]

lt_prerelease_irrefl : (p : List Identifier) → lt_prerelease p p ≡ false
unfolding lt_prerelease
lt_prerelease_irrefl [] = refl
lt_prerelease_irrefl (x ∷ p) = rw (same_identifier_refl x) (lt_prerelease_irrefl p)

lt_prerelease_trans :
    (p q r : List Identifier)
    → lt_prerelease p q ≡ true
    → lt_prerelease q r ≡ true
    → lt_prerelease p r ≡ true
unfolding lt_prerelease
lt_prerelease_trans [] [] r h k = cc
lt_prerelease_trans [] (y ∷ q) [] h k = cc
lt_prerelease_trans [] (y ∷ q) (z ∷ r) h k = refl
lt_prerelease_trans (x ∷ p) [] r h k = cc
lt_prerelease_trans (x ∷ p) (y ∷ q) [] h k = cc
lt_prerelease_trans (x ∷ p) (y ∷ q) (z ∷ r) h k = elim (Bool-cases (same_identifier x y)) [
  | inl e ↦
      let i = same_identifier_eq x y e in
      elim (Bool-cases (same_identifier y z)) [
        | inl f ↦ rw (i, f) (lt_prerelease_trans p q r (rw e at h) (rw f at k))
        | inr f ↦ rw (i, f) (rw f at k)
      ]
  | inr e ↦ elim (Bool-cases (same_identifier y z)) [
    | inl f ↦ let j = same_identifier_eq y z f in rw (← j, e) (rw e at h)
    | inr f ↦
        let l = lt_identifier_trans x y z (rw e at h) (rw f at k) in
        rw (lt_identifier_differs x z l) l
  ]
]

lt_prerelease_total :
    (p q : List Identifier)
    → (same_prerelease p q || (lt_prerelease p q || lt_prerelease q p)) ≡ true
unfolding lt_prerelease same_prerelease
lt_prerelease_total [] [] = refl
lt_prerelease_total [] (y ∷ q) = refl
lt_prerelease_total (x ∷ p) [] = refl
lt_prerelease_total (x ∷ p) (y ∷ q) = elim (Bool-cases (same_identifier x y)) [
  | inl e ↦
      let i = same_identifier_eq x y e in rw (i, same_identifier_refl y) (lt_prerelease_total p q)
  | inr e ↦ let t = lt_identifier_total x y in rw (e, differs_sym x y e) (rw e at t)
]

lt_tag_irrefl : (p : Option (List Identifier)) → lt_tag p p ≡ false
unfolding lt_tag
lt_tag_irrefl none = refl
lt_tag_irrefl (some p) = lt_prerelease_irrefl p

lt_tag_trans :
    (p q r : Option (List Identifier)) → lt_tag p q ≡ true → lt_tag q r ≡ true → lt_tag p r ≡ true
unfolding lt_tag
lt_tag_trans none q r h k = cc
lt_tag_trans (some p) none r h k = cc
lt_tag_trans (some p) (some q) none h k = refl
lt_tag_trans (some p) (some q) (some r) h k = lt_prerelease_trans p q r h k

lt_tag_total :
    (p q : Option (List Identifier)) → (same_tag p q || (lt_tag p q || lt_tag q p)) ≡ true
unfolding lt_tag same_tag
lt_tag_total none none = refl
lt_tag_total none (some q) = refl
lt_tag_total (some p) none = refl
lt_tag_total (some p) (some q) = lt_prerelease_total p q

-- No version precedes itself.
pub lt_irrefl : (a : SemVer) → lt a a ≡ false
unfolding lt
lt_irrefl a = let t = lt_tag_irrefl a.prerelease in ground arith

-- Precedence is transitive.
pub lt_trans : (a b c : SemVer) → lt a b ≡ true → lt b c ≡ true → lt a c ≡ true
unfolding lt
lt_trans a b c h k = ground (arith, lt_tag_trans a.prerelease b.prerelease c.prerelease)

-- Of two versions one precedes the other, or they are equal up to the build metadata.
pub lt_total : (a b : SemVer) → (same a b || (lt a b || lt b a)) ≡ true
unfolding lt same
lt_total a b = let t = lt_tag_total a.prerelease b.prerelease in ground arith

same_prerelease_eq : (p q : List Identifier) → same_prerelease p q ≡ true → p ≡ q
unfolding same_prerelease
same_prerelease_eq [] [] h = refl
same_prerelease_eq [] (y ∷ q) h = cc
same_prerelease_eq (x ∷ p) [] h = cc
same_prerelease_eq (x ∷ p) (y ∷ q) h =
    let e = same_identifier_eq x y (ground arith) in
    let f = same_prerelease_eq p q (ground arith) in rw (e, f)

same_tag_eq : (p q : Option (List Identifier)) → same_tag p q ≡ true → p ≡ q
unfolding same_tag
same_tag_eq none none h = refl
same_tag_eq none (some q) h = cc
same_tag_eq (some p) none h = cc
same_tag_eq (some p) (some q) h = ap some (same_prerelease_eq p q h)

-- Versions that compare equal are equal up to the build metadata.
pub same_eq : (a b : SemVer) → same a b ≡ true → a ≡ b
unfolding same
same_eq a b h =
    let e : a.major ≡ b.major = ground arith in
    let f : a.minor ≡ b.minor = ground arith in
    let g : a.patch ≡ b.patch = ground arith in
    let t = same_tag_eq a.prerelease b.prerelease (ground arith) in
    λ i. record { major = e i; minor = f i; patch = g i; prerelease = t i }

-- `>=` is transitive.
pub not_lt_trans : (a b c : SemVer) → lt a b ≡ false → lt b c ≡ false → lt a c ≡ false
not_lt_trans a b c h k = elim (Bool-cases (lt a c)) [
  | inr n ↦ n
  | inl e ↦
      let t = lt_total a b in
      elim (Bool-cases (same a b)) [
        | inl s ↦ cc (rw (same_eq a b s) at e, k)
        | inr s ↦ let back : lt b a ≡ true = rw (s, h) at t in cc (lt_trans b a c back e, k)
      ]
]
