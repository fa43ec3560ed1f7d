-- ===== src/Registry/Print.antt =====
-- The canonical text of a version, as the versions of isekai_memory/registry/policy.py are written.
use isekai_memory.Base.{
  ℕ, ◌+◌, ◌/◌, ◌%◌, ◌≡◌, true, false, Option, none, some, List, [], ◌∷◌, ◌++◌, ltb, if◌then◌else◌,
  suc, zero, all, All,
}
use isekai_memory.Registry.Text.{Text, is_word, is_digit, is_empty}
use isekai_memory.Registry.Version.{SemVer, Identifier, numeric, textual}

-- The decimal digits of a number, in front of a text; each round takes one of them.
unfoldable pub shown_from : ℕ → ℕ → Text → Text
shown_from zero n out = out
shown_from (suc rounds) n out =
    let more = shown_from rounds (n / 10) ((b'0' + n % 10) ∷ out) in
    if ltb n 10 then (b'0' + n) ∷ out else more

abbrev pub shown : ℕ → Text → Text
shown n = shown_from (n + 1) n

abbrev pub text_of : Identifier → Text
text_of (numeric n) = shown n []
text_of (textual t) = t

unfoldable pub joined : List Identifier → Text
joined [] = []
joined (x ∷ []) = text_of x
joined (x ∷ y ∷ xs) = text_of x ++ (b'.' ∷ joined (y ∷ xs))

abbrev pub tag_text : Option (List Identifier) → Text
tag_text none = []
tag_text (some xs) = b'-' ∷ joined xs

unfoldable pub printed : SemVer → Text
printed v = shown v.major (b'.' ∷ shown v.minor (b'.' ∷ shown v.patch (tag_text v.prerelease)))

-- An identifier that is not a number has a character that is no digit.
abbrev pub IsItem : Identifier → Type 0
IsItem (numeric n) = Unit
IsItem (textual t) = (is_empty t ≡ false) × (all is_word t ≡ true) × (all is_digit t ≡ false)

abbrev pub IsPrerelease : Option (List Identifier) → Type 0
IsPrerelease none = Unit
IsPrerelease (some []) = ⊥
IsPrerelease (some (x ∷ xs)) = IsItem x × All IsItem xs
