-- ===== src/Registry/Range.antt =====
-- Version ranges and policy resolution of isekai_memory/registry/policy.py, over parsed text: a
-- version or a range that does not parse is `none`.
use isekai_memory.Base.{
  ℕ, ◌+◌, Bool, ◌&&◌, not, Option, none, some, List, [], ◌∷◌, ◌++◌, ltb, ◌==◌, if◌then◌else◌, any,
  all, select,
}
use isekai_memory.Base.Sorted.{first, order_by}
use isekai_memory.Base.Outcome.{Result, ok, raise, tool_error, policy, ◌>>=◌}
use isekai_memory.Registry.Version.{SemVer, lt, same, ge, le, gt}

-- `>=`, `<=`, `>`, `<`, `=`, `^` and `~`
pub data Operator : Type 0 where
  at_least at_most above below exactly caret tilde : Operator

-- `has_minor`: the text of the core has a dot.
pub record Condition : Type 0 where
  pub operator : Operator
  pub expected : SemVer
  pub has_minor : Bool

-- `SemVer(major, minor, patch)`
abbrev pub release : ℕ → ℕ → ℕ → SemVer
release major minor patch = record {
  major = major;
  minor = minor;
  patch = patch;
  prerelease = none;
}

abbrev pub caret_upper : SemVer → SemVer
caret_upper v =
    if ltb 0 v.major
    then release (v.major + 1) 0 0
    else if ltb 0 v.minor
    then release 0 (v.minor + 1) 0
    else release 0 0 (v.patch + 1)

abbrev pub tilde_upper : Bool → SemVer → SemVer
tilde_upper has_minor v =
    if not has_minor then release (v.major + 1) 0 0 else release v.major (v.minor + 1) 0

unfoldable pub compare_by : Operator → SemVer → Condition → Bool
compare_by caret v c = ge v c.expected && lt v (caret_upper c.expected)
compare_by tilde v c = ge v c.expected && lt v (tilde_upper c.has_minor c.expected)
compare_by at_least v c = ge v c.expected
compare_by at_most v c = le v c.expected
compare_by above v c = gt v c.expected
compare_by below v c = lt v c.expected
compare_by exactly v c = same v c.expected

-- Every condition is met.
unfoldable pub version_satisfies : SemVer → List Condition → Bool
version_satisfies v range = all (λ c. compare_by c.operator v c) range

pub record Candidate : Type 0 where
  pub document : ℕ
  pub version : Option SemVer

pub record Policy : Type 0 where
  pub id : ℕ
  pub project_pattern : ℕ
  pub kind : ℕ
  pub artifact_id : ℕ
  pub version_range : Option (List Condition)
  pub required : Bool

abbrev pub Parsed : Type 0
Parsed = ℕ × SemVer

-- `SemVer.parse` of every candidate; `none` if one raises.
unfoldable pub parse_all : List Candidate → Option (List Parsed)
parse_all [] = some []
parse_all (c ∷ cs) = elim c.version [
  | none ↦ none
  | some v ↦ elim (parse_all cs) [ none ↦ none | some ps ↦ some ((c.document, v) ∷ ps) ]
]

-- `sorted(…, reverse=True)` is stable: of equal versions the first stays in front.
abbrev pub is_before : Parsed → Parsed → Bool
is_before a b = ge a.1 b.1

-- `next(… if version_satisfies(…))`
unfoldable pub select_version : List Condition → List Parsed → Option Parsed
select_version range cs = first (select (λ c. version_satisfies c.1 range) (order_by is_before cs))

-- An artifact and its kind.
abbrev pub Key : Type 0
Key = ℕ × ℕ

abbrev pub is_key : Key → Key → Bool
is_key k l = k.0 == l.0 && k.1 == l.1

abbrev pub key_of : Policy → Key
key_of p = (p.artifact_id, p.kind)

-- A resolved artifact.
pub record Resolved : Type 0 where
  pub artifact_id : ℕ
  pub kind : ℕ
  pub selected : Parsed

-- The candidates that are offered for a key have its artifact and kind.
abbrev pub append_selected : List Resolved → Policy → Option Parsed → List Resolved
append_selected resolved p none = resolved
append_selected resolved p (some c) =
    resolved ++ (record { artifact_id = p.artifact_id; kind = p.kind; selected = c } ∷ [])

-- The `try` block and what follows it: `none` stands for the `ValueError`.
unfoldable pub resolve_one :
    List Resolved → Policy → Option (List Condition) → Option (List Parsed) → Result (List Resolved)
resolve_one resolved p none cs = raise (tool_error policy 2)
resolve_one resolved p (some range) none = raise (tool_error policy 2)
resolve_one resolved p (some range) (some cs) =
    ok (append_selected resolved p (select_version range cs))

-- `matches` is `fnmatch.fnmatchcase(project_id, pattern)` for the project that is resolved.
module _ (matches : ℕ → Bool) (available_versions : Key → List Candidate) where
  unfoldable pub resolve_from : List Key → List Resolved → List Policy → Result (List Resolved)
  resolve_from seen resolved [] = ok resolved
  resolve_from seen resolved (p ∷ ps) =
      let skipped = resolve_from seen resolved ps in
      let passed = resolve_from (key_of p ∷ seen) resolved ps in
      let tried =
        resolve_one resolved p p.version_range (parse_all (available_versions (key_of p))) >>= λ r.
        resolve_from (key_of p ∷ seen) r ps in
      if not (matches p.project_pattern)
      then skipped
      else if any (is_key (key_of p)) seen
      then skipped
      else if not p.required
      then passed
      else tried

  unfoldable pub resolve_policies : List Policy → Result (List Resolved)
  resolve_policies ps = resolve_from [] [] ps
