-- ===== src/Registry/Version.antt =====
-- `SemVer` of isekai_memory/registry/policy.py, as `parse` constructs it: a prerelease is the list of
-- its dotted identifiers, a text is the list of its code points. The build metadata, which the
-- comparisons leave out, is not kept.
use isekai_memory.Base.{
  ℕ, Bool, true, false, ◌&&◌, ◌||◌, not, Option, none, some, List, [], ◌∷◌, ltb, ◌==◌,
  if◌then◌else◌,
}

-- An identifier is numeric where `isdigit()` holds.
pub data Identifier : Type 0 where
  numeric : ℕ → Identifier
  textual : List ℕ → Identifier

pub record SemVer : Type 0 where
  pub major : ℕ
  pub minor : ℕ
  pub patch : ℕ
  pub prerelease : Option (List Identifier)

unfoldable pub same_text : List ℕ → List ℕ → Bool
same_text [] [] = true
same_text [] (d ∷ b) = false
same_text (c ∷ a) [] = false
same_text (c ∷ a) (d ∷ b) = c == d && same_text a b

-- `<` of strings
unfoldable pub lt_text : List ℕ → List ℕ → Bool
lt_text [] [] = false
lt_text [] (d ∷ b) = true
lt_text (c ∷ a) [] = false
lt_text (c ∷ a) (d ∷ b) = ltb c d || c == d && lt_text a b

unfoldable pub same_identifier : Identifier → Identifier → Bool
same_identifier (numeric m) (numeric n) = m == n
same_identifier (numeric m) (textual b) = false
same_identifier (textual a) (numeric n) = false
same_identifier (textual a) (textual b) = same_text a b

-- Two identifiers that differ.
unfoldable pub lt_identifier : Identifier → Identifier → Bool
lt_identifier (numeric m) (numeric n) = ltb m n
lt_identifier (numeric m) (textual b) = true
lt_identifier (textual a) (numeric n) = false
lt_identifier (textual a) (textual b) = lt_text a b

-- The loop over `zip(left, right)`, and the lengths after it.
unfoldable pub lt_prerelease : List Identifier → List Identifier → Bool
lt_prerelease [] [] = false
lt_prerelease [] (y ∷ b) = true
lt_prerelease (x ∷ a) [] = false
lt_prerelease (x ∷ a) (y ∷ b) =
    let rest = lt_prerelease a b in if same_identifier x y then rest else lt_identifier x y

unfoldable pub lt_tag : Option (List Identifier) → Option (List Identifier) → Bool
lt_tag none q = false
lt_tag (some p) none = true
lt_tag (some p) (some q) = lt_prerelease p q

unfoldable pub same_prerelease : List Identifier → List Identifier → Bool
same_prerelease [] [] = true
same_prerelease [] (y ∷ b) = false
same_prerelease (x ∷ a) [] = false
same_prerelease (x ∷ a) (y ∷ b) = same_identifier x y && same_prerelease a b

unfoldable pub same_tag : Option (List Identifier) → Option (List Identifier) → Bool
same_tag none none = true
same_tag none (some q) = false
same_tag (some p) none = false
same_tag (some p) (some q) = same_prerelease p q

-- `own == theirs`
abbrev pub same_core : SemVer → SemVer → Bool
same_core a b = a.major == b.major && a.minor == b.minor && a.patch == b.patch

-- `own < theirs`
abbrev pub lt_core : SemVer → SemVer → Bool
lt_core a b =
    ltb a.major b.major
    || a.major == b.major && (ltb a.minor b.minor || a.minor == b.minor && ltb a.patch b.patch)

-- `__lt__`
unfoldable pub lt : SemVer → SemVer → Bool
lt a b = if not (same_core a b) then lt_core a b else lt_tag a.prerelease b.prerelease

-- `__eq__` of the dataclass
unfoldable pub same : SemVer → SemVer → Bool
same a b = same_core a b && same_tag a.prerelease b.prerelease

-- The other comparisons, as `total_ordering` derives them.
unfoldable pub ge : SemVer → SemVer → Bool
ge a b = not (lt a b)

unfoldable pub le : SemVer → SemVer → Bool
le a b = lt a b || same a b

unfoldable pub gt : SemVer → SemVer → Bool
gt a b = not (lt a b) && not (same a b)
