-- ===== src/Registry/RoundTrip.antt =====
-- What is printed of a version of isekai_memory/registry/policy.py parses back.
use isekai_memory.Base.{
  ℕ, ◌+◌, ◌*◌, ◌/◌, ◌%◌, ◌<◌, ◌≡◌, refl, ap, ◌∙◌, Bool, true, false, Option, none, some, List, [],
  ◌∷◌, ◌++◌, suc, zero, all, any, All, map, arith,
}
use isekai_memory.Registry.Text.{
  Text, decimal, digit_from, is_word, is_digit, is_empty, span, split_on,
}
use isekai_memory.Registry.Version.{SemVer, Identifier, numeric, textual}
use isekai_memory.Registry.Parse.{
  digits, number, drop_v, component, tag, is_tag, has_leading_zero, identifier, identifiers,
  prerelease_of, construct, parse, parse_after,
}
use isekai_memory.Registry.Print.{
  shown_from, shown, text_of, joined, tag_text, printed, IsItem, IsPrerelease,
}

decimal_digit : (d : ℕ) → d < 10 → decimal (b'0' + d) ≡ some d
unfolding decimal digit_from
decimal_digit d h = ground arith

digits_digit :
    (d : ℕ) (s : Text) (n : ℕ) → d < 10 → digits ((b'0' + d) ∷ s) n ≡ digits s (n * 10 + d)
unfolding digits
digits_digit d s n h = rw (decimal_digit d h, digits)

-- Reading the digits of a number is reading it.
digits-shown_from : (f n : ℕ) (out : Text) → n < f → digits (shown_from f n out) 0 ≡ digits out n
unfolding shown_from
digits-shown_from zero n out h = absurd (omega arith)
digits-shown_from (suc f) n out h = grind (
  arith,
  digits_digit n out 0,
  digits_digit (n % 10) out (n / 10),
  digits-shown_from f (n / 10) ((b'0' + n % 10) ∷ out),
)

number_digit : (d : ℕ) (s : Text) → 0 < d → d < 10 → number ((b'0' + d) ∷ s) ≡ some (digits s d)
unfolding number
number_digit d s p h = ground arith

number-shown_from :
    (f n : ℕ) (out : Text) → 0 < n → n < f → number (shown_from f n out) ≡ some (digits out n)
unfolding shown_from
number-shown_from zero n out p h = absurd (omega arith)
number-shown_from (suc f) n out p h = grind (
  arith,
  number_digit n out,
  digits_digit (n % 10) out (n / 10),
  number-shown_from f (n / 10) ((b'0' + n % 10) ∷ out),
)

all-shown_from : (f n : ℕ) (out : Text) → all is_digit (shown_from f n out) ≡ all is_digit out
unfolding shown_from
all-shown_from zero n out = refl
all-shown_from (suc f) n out = ground (arith, all-shown_from f (n / 10) ((b'0' + n % 10) ∷ out))

leading-shown_from :
    (f n x : ℕ) (out : Text) → 0 < n → n < f → has_leading_zero (shown_from f n (x ∷ out)) ≡ false
unfolding shown_from
leading-shown_from zero n x out p h = absurd (omega arith)
leading-shown_from (suc f) n x out p h =
    ground (arith, leading-shown_from f (n / 10) (b'0' + n % 10) (x ∷ out))

drop_v-shown_from :
    (f n : ℕ) (out : Text) → n < f → drop_v (shown_from f n out) ≡ shown_from f n out
unfolding shown_from
drop_v-shown_from zero n out h = absurd (omega arith)
drop_v-shown_from (suc f) n out h =
    ground (arith, drop_v-shown_from f (n / 10) ((b'0' + n % 10) ∷ out))

-- The digits in front of the text end there.
abbrev Ends : Text → Type 0
Ends s = (n : ℕ) → digits s n ≡ (n, s)

Ends-nil : Ends []
unfolding digits
Ends-nil n = refl

Ends-dot : (s : Text) → Ends (b'.' ∷ s)
unfolding digits decimal digit_from
Ends-dot s n = refl

Ends-tag_text : (p : Option (List Identifier)) → Ends (tag_text p)
unfolding digits decimal digit_from
Ends-tag_text none n = refl
Ends-tag_text (some xs) n = refl

number-shown : (n : ℕ) (out : Text) → Ends out → number (shown n out) ≡ some (n, out)
unfolding shown_from number
number-shown zero out ends = refl
number-shown (suc n) out ends =
    number-shown_from (suc n + 1) (suc n) out (omega arith) (omega arith) ∙ ap some (ends (suc n))

component-shown : (n : ℕ) (out : Text) → Ends out → component (b'.' ∷ shown n out) ≡ (n, out)
unfolding component
component-shown n out ends = rw (number-shown n out ends)

leading-shown : (n : ℕ) → has_leading_zero (shown n []) ≡ false
unfolding shown_from
leading-shown n = ground (arith, leading-shown_from n (n / 10) (b'0' + n % 10) [])

identifier-text_of : (x : Identifier) → IsItem x → identifier (text_of x) ≡ some x
unfolding identifier
identifier-text_of (textual t) (e, w, d) = rw d
identifier-text_of (numeric n) h =
    rw (all-shown_from (n + 1) n [], leading-shown n, digits-shown_from (n + 1) n [] (omega arith))
      (ap (λ (m : ℕ × Text). some (numeric m.0)) (Ends-nil n))

all_words : (s : Text) → all is_digit s ≡ true → all is_word s ≡ true
all_words [] h = refl
all_words (c ∷ s) h = ground (arith, all_words s)

text_of-words : (x : Identifier) → IsItem x → all is_word (text_of x) ≡ true
text_of-words (textual t) (e, w, d) = w
text_of-words (numeric n) h = all_words (shown n []) (all-shown_from (n + 1) n [])

nonempty-shown_from : (f n x : ℕ) (out : Text) → is_empty (shown_from f n (x ∷ out)) ≡ false
unfolding shown_from
nonempty-shown_from zero n x out = refl
nonempty-shown_from (suc f) n x out =
    ground (arith, nonempty-shown_from f (n / 10) (b'0' + n % 10) (x ∷ out))

text_of-nonempty : (x : Identifier) → IsItem x → is_empty (text_of x) ≡ false
unfolding shown_from
text_of-nonempty (textual t) (e, w, d) = e
text_of-nonempty (numeric n) h = ground (arith, nonempty-shown_from n (n / 10) (b'0' + n % 10) [])

split_on-word : (t : Text) → all is_word t ≡ true → split_on b'.' t ≡ t ∷ []
unfolding split_on
split_on-word [] h = refl
split_on-word (c ∷ t) h = ground (arith, split_on-word t)

split_on-append :
    (t s : Text) → all is_word t ≡ true → split_on b'.' (t ++ (b'.' ∷ s)) ≡ t ∷ split_on b'.' s
unfolding split_on
split_on-append [] s h = refl
split_on-append (c ∷ t) s h = ground (arith, split_on-append t s)

split_on-joined :
    (x : Identifier) (xs : List Identifier)
    → IsItem x
    → All IsItem xs
    → split_on b'.' (joined (x ∷ xs)) ≡ map text_of (x ∷ xs)
unfolding joined
split_on-joined x [] h a = split_on-word (text_of x) (text_of-words x h)
split_on-joined x (y ∷ xs) h (k, a) =
    split_on-append (text_of x) (joined (y ∷ xs)) (text_of-words x h)
    ∙ ap (λ (ss : List Text). text_of x ∷ ss) (split_on-joined y xs k a)

all_append : (p : ℕ → Bool) (s t : Text) → all p s ≡ true → all p t ≡ true → all p (s ++ t) ≡ true
all_append p [] t h k = k
all_append p (c ∷ s) t h k = ground (arith, all_append p s t)

all_tags : (s : Text) → all is_word s ≡ true → all is_tag s ≡ true
all_tags [] h = refl
all_tags (c ∷ s) h = ground (arith, all_tags s)

joined-tags :
    (x : Identifier) (xs : List Identifier)
    → IsItem x
    → All IsItem xs
    → all is_tag (joined (x ∷ xs)) ≡ true
unfolding joined
joined-tags x [] h a = all_tags (text_of x) (text_of-words x h)
joined-tags x (y ∷ xs) h (k, a) =
    all_append is_tag (text_of x) (b'.' ∷ joined (y ∷ xs))
      (all_tags (text_of x) (text_of-words x h)) (joined-tags y xs k a)

span-all : (p : ℕ → Bool) (s : Text) → all p s ≡ true → span p s ≡ (s, [])
unfolding span
span-all p [] h = refl
span-all p (c ∷ s) h = ground (arith, span-all p s)

none_empty : (xs : List Identifier) → All IsItem xs → any is_empty (map text_of xs) ≡ false
none_empty [] a = refl
none_empty (x ∷ xs) (h, a) = rw (text_of-nonempty x h, none_empty xs a)

identifiers-cons :
    (s : Text) (ss : List Text) (x : Identifier) (xs : List Identifier)
    → identifier s ≡ some x
    → identifiers ss ≡ some xs
    → identifiers (s ∷ ss) ≡ some (x ∷ xs)
unfolding identifiers
identifiers-cons s ss x xs e k = rw (e, k, identifiers)

identifiers-map : (xs : List Identifier) → All IsItem xs → identifiers (map text_of xs) ≡ some xs
unfolding identifiers
identifiers-map [] a = refl
identifiers-map (x ∷ xs) (h, a) =
    identifiers-cons (text_of x) (map text_of xs) x xs (identifier-text_of x h)
      (identifiers-map xs a)

abbrev items_of : Option (List Identifier) → Option (List Text)
items_of none = none
items_of (some xs) = some (map text_of xs)

tag-tag_text :
    (p : Option (List Identifier)) → IsPrerelease p → tag b'-' (tag_text p) ≡ (items_of p, [])
unfolding tag
tag-tag_text none h = refl
tag-tag_text (some []) h = absurd h
tag-tag_text (some (x ∷ xs)) (h, a) = rw (
  span-all is_tag (joined (x ∷ xs)) (joined-tags x xs h a),
  split_on-joined x xs h a,
  text_of-nonempty x h,
  none_empty xs a,
)

prerelease_of-items :
    (p : Option (List Identifier)) → IsPrerelease p → prerelease_of (items_of p) ≡ some p
unfolding prerelease_of
prerelease_of-items none h = refl
prerelease_of-items (some []) h = absurd h
prerelease_of-items (some (x ∷ xs)) (h, a) = rw (identifiers-map (x ∷ xs) (h, a), prerelease_of)

construct-some :
    (v : SemVer) (items : Option (List Text))
    → prerelease_of items ≡ some v.prerelease
    → construct v.major v.minor v.patch items [] ≡ some v
unfolding construct
construct-some v items e = rw (e, construct)

-- The canonical text of a version parses to that version, where its prerelease is absent or a list
-- of one or more identifiers, each a number or made of letters, digits and hyphens and not of
-- digits alone.
pub parse-printed : (v : SemVer) → IsPrerelease v.prerelease → parse (printed v) ≡ some v
unfolding parse parse_after printed tag
parse-printed v h =
    let after_patch = tag_text v.prerelease in
    let after_minor = b'.' ∷ shown v.patch after_patch in
    let after_major = b'.' ∷ shown v.minor after_minor in
    rw
      (
        drop_v-shown_from (v.major + 1) v.major after_major (omega arith),
        number-shown v.major after_major (Ends-dot (shown v.minor after_minor)),
        component-shown v.minor after_minor (Ends-dot (shown v.patch after_patch)),
        component-shown v.patch after_patch (Ends-tag_text v.prerelease),
        tag-tag_text v.prerelease h,
      )
      (construct-some v (items_of v.prerelease) (prerelease_of-items v.prerelease h))
