-- ===== src/Registry/Tests.antt =====
-- Versions and ranges of isekai_memory/registry/policy.py and a resolution, and the theorems at them.
use isekai_memory.Base.{ℕ, ◌≡◌, ◌≤◌, ◌⊎◌, refl, Bool, true, none, some, List, [], ◌∷◌, All}
use isekai_memory.Base.Outcome.{ok}
use isekai_memory.Registry.Version.{
  numeric, textual, SemVer, lt, lt_tag, lt_prerelease, same_identifier, lt_identifier, same_text,
  lt_text, ge,
}
use isekai_memory.Registry.Order.{lt_trans}
use isekai_memory.Registry.Text.{Text, decimal, digit_from, span, split_on, words, pieces}
use isekai_memory.Registry.Parse.{
  parse, parse_after, construct, prerelease_of, identifiers, identifier, tag, component, number,
  digits, operator_of, conditions, conditions_of, satisfies,
}
use isekai_memory.Registry.Print.{printed, IsPrerelease}
use isekai_memory.Registry.RoundTrip.{parse-printed}
use isekai_memory.Registry.Canonical.{parse-IsPrerelease}
use isekai_memory.Registry.Range.{
  Condition, caret, release, compare_by, version_satisfies, Candidate, Policy, Key, Resolved,
  resolve_policies, resolve_from, resolve_one, parse_all, select_version,
}
use isekai_memory.Registry.Best.{IsResolved, resolve_policies_sound, caret_compatible}

-- 1.2.0-alpha.2, with the letters as their code points
abbrev alpha : SemVer
alpha = record {
  major = 1;
  minor = 2;
  patch = 0;
  prerelease = some (textual (97 ∷ 108 ∷ []) ∷ numeric 2 ∷ []);
}

abbrev later_alpha : SemVer
later_alpha = record {
  major = 1;
  minor = 2;
  patch = 0;
  prerelease = some (textual (97 ∷ 108 ∷ []) ∷ numeric 10 ∷ []);
}

alpha-later_alpha : lt alpha later_alpha ≡ true
unfolding lt lt_tag lt_prerelease same_identifier lt_identifier same_text lt_text
alpha-later_alpha = refl

later_alpha-release : lt later_alpha (release 1 2 0) ≡ true
unfolding lt lt_tag
later_alpha-release = refl

lower_precedence : lt alpha (release 1 2 0) ≡ true
lower_precedence = lt_trans alpha later_alpha (release 1 2 0) alpha-later_alpha later_alpha-release

-- v1.2-al.10+x
abbrev written : Text
written = b'v' ∷ b'1' ∷ b'.' ∷ b'2' ∷ b'-' ∷ b'a' ∷ b'l' ∷ b'.' ∷ b'1' ∷ b'0' ∷ b'+' ∷ b'x' ∷ []

-- >=1 ~1.2-a
abbrev expression : Text
expression = b'>' ∷ b'=' ∷ b'1' ∷ b' ' ∷ b'~' ∷ b'1' ∷ b'.' ∷ b'2' ∷ b'-' ∷ b'a' ∷ []

written_parsed : parse written ≡ some later_alpha
unfolding parse parse_after construct prerelease_of identifiers identifier tag split_on span
    component number digits decimal digit_from
written_parsed = refl

-- 1.02 and 1-02
zeros_refused :
    (parse (b'1' ∷ b'.' ∷ b'0' ∷ b'2' ∷ []) ≡ none)
    × (parse (b'1' ∷ b'-' ∷ b'0' ∷ b'2' ∷ []) ≡ none)
unfolding parse parse_after construct prerelease_of identifiers identifier tag split_on span
    component number digits decimal digit_from
zeros_refused = (refl, refl)

written_in_range : satisfies written expression ≡ some true
unfolding satisfies conditions conditions_of words pieces operator_of version_satisfies compare_by
    ge lt lt_tag lt_prerelease same_identifier lt_identifier same_text lt_text parse parse_after
    construct prerelease_of identifiers identifier tag split_on span component number digits decimal
    digit_from
written_in_range = refl

parse-printed_example : parse (printed alpha) ≡ some alpha
parse-printed_example = parse-printed alpha ((refl, refl, refl), (tt, tt))

parse-IsPrerelease_example :
    IsPrerelease later_alpha.prerelease × (parse (printed later_alpha) ≡ some later_alpha)
parse-IsPrerelease_example = parse-IsPrerelease written later_alpha written_parsed

abbrev compatible : Condition
compatible = record { operator = caret; expected = release 0 3 1; has_minor = true }

accepted : compare_by caret (release 0 3 7) compatible ≡ true
unfolding compare_by ge lt lt_tag
accepted = refl

caret_compatible_example :
    ((release 0 3 7).major ≡ 0)
    × ((1 ≤ 0) ⊎ ((release 0 3 7).minor ≡ 3))
    × ((1 ≤ 0) ⊎ ((1 ≤ 3) ⊎ ((release 0 3 7).patch ≡ 1)))
caret_compatible_example = caret_compatible (release 0 3 7) compatible accepted refl

abbrev required_policy : Policy
required_policy = record {
  id = 1;
  project_pattern = 9;
  kind = 2;
  artifact_id = 3;
  version_range = some (compatible ∷ []);
  required = true;
}

abbrev available : Key → List Candidate
available k =
    record { document = 11; version = some (release 0 3 2) }
    ∷ record { document = 12; version = some (release 0 4 0) }
    ∷ record { document = 13; version = some (release 0 3 9) }
    ∷ []

abbrev every_project : ℕ → Bool
every_project pattern = true

abbrev resolved : List Resolved
resolved = record { artifact_id = 3; kind = 2; selected = (13, release 0 3 9) } ∷ []

resolved_once : resolve_policies every_project available (required_policy ∷ []) ≡ ok resolved
unfolding resolve_policies resolve_from resolve_one parse_all select_version version_satisfies
    compare_by ge lt lt_tag
resolved_once = refl

resolve_policies_sound_example :
    All (IsResolved every_project available (required_policy ∷ [])) resolved
resolve_policies_sound_example =
    resolve_policies_sound every_project available (required_policy ∷ []) resolved resolved_once
