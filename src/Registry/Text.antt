-- ===== src/Registry/Text.antt =====
-- Texts as the version parser of isekai_memory/registry/policy.py reads them: lists of code points,
-- the classes of its regular expressions, and `str.split`.
use isekai_memory.Base.{
  ℕ, ◌+◌, ◌-◌, Bool, true, false, ◌&&◌, ◌||◌, Option, none, some, List, [], ◌∷◌, ltb, leb, ◌==◌,
  if◌then◌else◌, any, not, select,
}

abbrev pub Text : Type 0
Text = List ℕ

-- The zeros of the 66 scripts with decimal digits in Unicode 14, the version of Python 3.11; each is
-- followed by its nine other digits. ASCII has the first.
abbrev pub decimal_zeros : List ℕ
decimal_zeros =
    48 ∷ 1632 ∷ 1776 ∷ 1984 ∷ 2406 ∷ 2534 ∷ 2662 ∷ 2790 ∷ 2918 ∷ 3046 ∷ 3174 ∷ 3302 ∷ 3430 ∷ 3558
    ∷ 3664 ∷ 3792 ∷ 3872 ∷ 4160 ∷ 4240 ∷ 6112 ∷ 6160 ∷ 6470 ∷ 6608 ∷ 6784 ∷ 6800 ∷ 6992 ∷ 7088
    ∷ 7232 ∷ 7248 ∷ 42528 ∷ 43216 ∷ 43264 ∷ 43472 ∷ 43504 ∷ 43600 ∷ 44016 ∷ 65296 ∷ 66720 ∷ 68912
    ∷ 69734 ∷ 69872 ∷ 69942 ∷ 70096 ∷ 70384 ∷ 70736 ∷ 70864 ∷ 71248 ∷ 71360 ∷ 71472 ∷ 71904 ∷ 72016
    ∷ 72784 ∷ 73040 ∷ 73120 ∷ 92768 ∷ 92864 ∷ 93008 ∷ 120782 ∷ 120792 ∷ 120802 ∷ 120812 ∷ 120822
    ∷ 123200 ∷ 123632 ∷ 125264 ∷ 130032 ∷ []

unfoldable pub digit_from : List ℕ → ℕ → Option ℕ
digit_from [] c = none
digit_from (z ∷ zs) c =
    let other = digit_from zs c in if leb z c && ltb c (z + 10) then some (c - z) else other

-- `\d`, with the value that `int` gives it
unfoldable pub decimal : ℕ → Option ℕ
decimal c = digit_from decimal_zeros c

-- `[0-9]`
abbrev pub is_digit : ℕ → Bool
is_digit c = leb b'0' c && leb c b'9'

-- `[0-9A-Za-z-]`
abbrev pub is_word : ℕ → Bool
is_word c = is_digit c || leb b'A' c && leb c b'Z' || leb b'a' c && leb c b'z' || c == b'-'

-- `str.isspace`
abbrev pub is_space : ℕ → Bool
is_space c =
    leb 9 c && leb c 13
    || leb 28 c && leb c 32
    || leb 0x2000 c && leb c 0x200a
    || any (λ w. w == c) (0x85 ∷ 0xa0 ∷ 0x1680 ∷ 0x2028 ∷ 0x2029 ∷ 0x202f ∷ 0x205f ∷ 0x3000 ∷ [])

-- The longest beginning in a class, and the rest.
unfoldable pub span : (ℕ → Bool) → Text → Text × Text
span p [] = ([], [])
span p (c ∷ s) = let rest = span p s in if p c then (c ∷ rest.0, rest.1) else ([], c ∷ s)

abbrev pub prepend : ℕ → List Text → List Text
prepend c [] = (c ∷ []) ∷ []
prepend c (x ∷ xs) = (c ∷ x) ∷ xs

-- `s.split(d)`
unfoldable pub split_on : ℕ → Text → List Text
split_on d [] = [] ∷ []
split_on d (c ∷ s) = let rest = split_on d s in if c == d then [] ∷ rest else prepend c rest

abbrev pub is_empty : Text → Bool
is_empty [] = true
is_empty (c ∷ s) = false

unfoldable pub pieces : Text → List Text
pieces [] = [] ∷ []
pieces (c ∷ s) = let rest = pieces s in if is_space c then [] ∷ rest else prepend c rest

-- `s.split()`
unfoldable pub words : Text → List Text
words s = select (λ w. not (is_empty w)) (pieces s)
