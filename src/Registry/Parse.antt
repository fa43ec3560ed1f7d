-- ===== src/Registry/Parse.antt =====
-- `SemVer.parse` and `_conditions` of isekai_memory/registry/policy.py, from text. A regular expression
-- is read from left to right: none of its classes has the character that may follow it, so it can
-- match in one way only. `none` stands for the `ValueError`.
use isekai_memory.Base.{
  ℕ, ◌+◌, ◌-◌, ◌*◌, Bool, false, ◌&&◌, ◌||◌, not, Option, none, some, List, [], ◌∷◌, leb, ◌==◌,
  if◌then◌else◌, any, all,
}
use isekai_memory.Registry.Text.{
  Text, decimal, is_digit, is_word, is_space, span, split_on, is_empty, words,
}
use isekai_memory.Registry.Version.{SemVer, Identifier, numeric, textual}
use isekai_memory.Registry.Range.{
  Operator, at_least, at_most, above, below, exactly, caret, tilde, Condition, version_satisfies,
}

-- `\d*` behind the number `n`, and the rest
unfoldable pub digits : Text → ℕ → ℕ × Text
digits [] n = (n, [])
digits (c ∷ s) n = elim (decimal c) [ none ↦ (n, c ∷ s) | some d ↦ digits s (n * 10 + d) ]

-- `(0|[1-9]\d*)`
unfoldable pub number : Text → Option (ℕ × Text)
number [] = none
number (c ∷ s) =
    if c == b'0'
    then some (0, s)
    else if leb b'1' c && leb c b'9'
    then some (digits s (c - b'0'))
    else none

-- `v?`
abbrev pub drop_v : Text → Text
drop_v [] = []
drop_v (c ∷ s) = if c == b'v' then s else c ∷ s

abbrev or_skip : Text → Option (ℕ × Text) → ℕ × Text
or_skip s none = (0, s)
or_skip s (some found) = found

-- `(?:\.(0|[1-9]\d*))?`, where a group that does not match counts as 0
unfoldable pub component : Text → ℕ × Text
component [] = (0, [])
component (c ∷ s) = if c == b'.' then or_skip (c ∷ s) (number s) else (0, c ∷ s)

abbrev pub is_tag : ℕ → Bool
is_tag c = is_word c || c == b'.'

-- `(?:-([0-9A-Za-z-]+(?:\.[0-9A-Za-z-]+)*))?` with its mark, as the dotted items. Where an item would
-- be empty the rest starts with the mark or a dot, and the whole expression cannot match.
unfoldable pub tag : ℕ → Text → Option (List Text) × Text
tag mark [] = (none, [])
tag mark (c ∷ s) =
    if c == mark && not (any is_empty (split_on b'.' (span is_tag s).0))
    then (some (split_on b'.' (span is_tag s).0), (span is_tag s).1)
    else (none, c ∷ s)

abbrev pub has_leading_zero : Text → Bool
has_leading_zero [] = false
has_leading_zero (c ∷ []) = false
has_leading_zero (c ∷ d ∷ s) = c == b'0'

-- A number with a leading zero is refused.
unfoldable pub identifier : Text → Option Identifier
identifier s =
    if not (all is_digit s)
    then some (textual s)
    else if has_leading_zero s
    then none
    else some (numeric (digits s 0).0)

unfoldable pub identifiers : List Text → Option (List Identifier)
identifiers [] = some []
identifiers (s ∷ ss) = elim (identifier s) [
  | none ↦ none
  | some x ↦ elim (identifiers ss) [ none ↦ none | some xs ↦ some (x ∷ xs) ]
]

unfoldable pub prerelease_of : Option (List Text) → Option (Option (List Identifier))
prerelease_of none = some none
prerelease_of (some items) = elim (identifiers items) [ none ↦ none | some xs ↦ some (some xs) ]

-- `fullmatch`: nothing is left.
unfoldable pub construct : ℕ → ℕ → ℕ → Option (List Text) → Text → Option SemVer
construct major minor patch items (c ∷ s) = none
construct major minor patch items [] = elim (prerelease_of items) [
  | none ↦ none
  | some p ↦ some (record { major = major; minor = minor; patch = patch; prerelease = p })
]

-- What follows the major version.
unfoldable pub parse_after : Option (ℕ × Text) → Option SemVer
parse_after none = none
parse_after (some (major, s)) =
    let (minor, s1) = component s in
    let (patch, s2) = component s1 in
    let (items, s3) = tag b'-' s2 in
    let (build, s4) = tag b'+' s3 in construct major minor patch items s4

unfoldable pub parse : Text → Option SemVer
parse s = parse_after (number (drop_v s))

-- `(>=|<=|>|<|=|\^|~)(.+)`, for a text without white space
unfoldable pub operator_of : Text → Option (Operator × Text)
operator_of [] = none
operator_of (c ∷ []) = none
operator_of (c ∷ d ∷ s) =
    if c == b'>' && d == b'=' && not (is_empty s)
    then some (at_least, s)
    else if c == b'<' && d == b'=' && not (is_empty s)
    then some (at_most, s)
    else if c == b'>'
    then some (above, d ∷ s)
    else if c == b'<'
    then some (below, d ∷ s)
    else if c == b'='
    then some (exactly, d ∷ s)
    else if c == b'^'
    then some (caret, d ∷ s)
    else if c == b'~'
    then some (tilde, d ∷ s)
    else none

-- `raw.split("-", 1)[0].split("+", 1)[0]` has a dot.
abbrev pub has_minor : Text → Bool
has_minor raw = any (λ c. c == b'.') (span (λ c. not (c == b'-' || c == b'+')) raw).0

abbrev condition_of : Option (Operator × Text) → Option Condition
condition_of none = none
condition_of (some (operator, raw)) = elim (parse raw) [
  | none ↦ none
  | some v ↦ some (record { operator = operator; expected = v; has_minor = has_minor raw })
]

unfoldable pub conditions_of : List Text → Option (List Condition)
conditions_of [] = some []
conditions_of (s ∷ ss) = elim (condition_of (operator_of s)) [
  | none ↦ none
  | some c ↦ elim (conditions_of ss) [ none ↦ none | some cs ↦ some (c ∷ cs) ]
]

-- `_conditions`
unfoldable pub conditions : Text → Option (List Condition)
conditions expression = if all is_space expression then none else conditions_of (words expression)

-- `version_satisfies`, from text
unfoldable pub satisfies : Text → Text → Option Bool
satisfies version expression = elim (parse version) [
  | none ↦ none
  | some v ↦ elim (conditions expression) [
    | none ↦ none
    | some range ↦ some (version_satisfies v range)
  ]
]
