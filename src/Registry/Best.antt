-- ===== src/Registry/Best.antt =====
-- What a resolved policy selects.
use mathlib.Core.Path.{subst}
use isekai_memory.Base.{
  ℕ, ◌≡◌, ◌≤◌, ◌⊎◌, inl, inr, refl, Bool, true, false, Option, none, some, List, [], ◌∷◌, ◌++◌,
  arith, Bool-cases, Option-cases, any, All, select, some_eq,
}
use isekai_memory.Base.Table.{All-insert}
use isekai_memory.Base.Sorted.{
  first, order_by, insert_by, All-select, All-first, All-order_by, All-insert_by,
}
use isekai_memory.Base.Among.{Among, All-intro, order_by-Among, All-Among}
use isekai_memory.Base.Outcome.{Result, ok, raise, ◌>>=◌}
use isekai_memory.Registry.Version.{SemVer, lt, ge, lt_core, same_core, lt_tag}
use isekai_memory.Registry.Order.{lt_irrefl, lt_trans, not_lt_trans}
use isekai_memory.Registry.Range.{
  Condition, caret, caret_upper, compare_by, version_satisfies, Candidate, Policy, Parsed,
  parse_all, is_before, select_version, Key, is_key, key_of, Resolved, resolve_one, resolve_from,
  resolve_policies,
}

-- No version stands before a higher one.
abbrev pub IsDescending : List Parsed → Type 0
IsDescending [] = Unit
IsDescending (x ∷ t) = All (λ y. lt x.1 y.1 ≡ false) t × IsDescending t

All-not_lt :
    (x y : Parsed) (t : List Parsed)
    → lt x.1 y.1 ≡ false
    → All (λ z. lt y.1 z.1 ≡ false) t
    → All (λ z. lt x.1 z.1 ≡ false) t
All-not_lt x y [] h a = tt
All-not_lt x y (z ∷ t) h a = (not_lt_trans x.1 y.1 z.1 h a.0, All-not_lt x y t h a.1)

not_lt_both : (a b : SemVer) → lt a b ≡ true → lt b a ≡ false
not_lt_both a b h = elim (Bool-cases (lt b a)) [
  | inr n ↦ n
  | inl e ↦ let i = lt_irrefl a in cc (lt_trans a b a h e, i)
]

insert_by-IsDescending :
    (x : Parsed) (t : List Parsed) → IsDescending t → IsDescending (insert_by is_before x t)
unfolding ge
insert_by-IsDescending x [] d = (tt, tt)
insert_by-IsDescending x (y ∷ t) d = elim (Bool-cases (lt x.1 y.1)) [
  | inr h ↦ rw h ((h, All-not_lt x y t h d.0), d)
  | inl h ↦ rw h (
    All-insert_by (λ z. lt y.1 z.1 ≡ false) is_before x t (not_lt_both x.1 y.1 h) d.0,
    insert_by-IsDescending x t d.1,
  )
]

order_by-IsDescending : (t : List Parsed) → IsDescending (order_by is_before t)
order_by-IsDescending [] = tt
order_by-IsDescending (x ∷ t) =
    insert_by-IsDescending x (order_by is_before t) (order_by-IsDescending t)

-- The first that satisfies a clause is as high as all that do.
first_best :
    (p : Parsed → Bool) (t : List Parsed) (c : Parsed)
    → IsDescending t
    → first (select p t) ≡ some c
    → All (λ x. p x ≡ true → lt c.1 x.1 ≡ false) t
first_best p [] c d e = tt
first_best p (x ∷ t) c d e = elim (Bool-cases (p x)) [
  | inl h ↦
      let same = some_eq x c (rw h at e) in
      subst (λ z. All (λ y. p y ≡ true → lt z.1 y.1 ≡ false) (x ∷ t)) same
        (λ k. lt_irrefl x.1, weaken t d.0)
  | inr h ↦ (λ k. cc (h, k), first_best p t c d.1 (rw h at e))
]
  where
    weaken :
        (u : List Parsed)
        → All (λ y. lt x.1 y.1 ≡ false) u
        → All (λ y. p y ≡ true → lt x.1 y.1 ≡ false) u
    weaken [] a = tt
    weaken (y ∷ u) a = (λ k. a.0, weaken u a.1)

-- The selected version is offered, satisfies the range, and no other that does is higher.
pub record IsBest (range : List Condition) (cs : List Parsed) (c : Parsed) : Type 0 where
  pub offered : Among c cs
  pub satisfied : version_satisfies c.1 range ≡ true
  pub highest : (x : Parsed) → Among x cs → version_satisfies x.1 range ≡ true → lt c.1 x.1 ≡ false

select_version-IsBest :
    (range : List Condition) (cs : List Parsed) (c : Parsed)
    → select_version range cs ≡ some c
    → IsBest range cs c
unfolding select_version
select_version-IsBest range cs c e =
    let p = λ (x : Parsed). version_satisfies x.1 range in
    let sorted = order_by is_before cs in
    let from =
      All-first (λ y. Among y cs × (p y ≡ true)) (select p sorted) c
        (All-select (λ y. Among y cs) p sorted
          (All-order_by (λ y. Among y cs) is_before cs (All-intro (λ y. Among y cs) cs (λ y m. m))))
        e in
    let best = first_best p sorted c (order_by-IsDescending cs) e in
    record {
      offered = from.0;
      satisfied = from.1;
      highest = λ x m h.
          All-Among (λ y. p y ≡ true → lt c.1 y.1 ≡ false) sorted x best
            (order_by-Among is_before x cs m) h;
    }

ok_eq : (x y : List Resolved) → ◌≡◌ {A = Result (List Resolved)} (ok x) (ok y) → x ≡ y
ok_eq x y e = cc

module _ (matches : ℕ → Bool) (available_versions : Key → List Candidate) where
  -- The policy that a resolved artifact answers, and what was selected for it.
  pub record IsResolved (ps : List Policy) (r : Resolved) : Type 0 where
    pub answered : Policy
    pub listed : Among answered ps
    pub applies : matches answered.project_pattern ≡ true
    pub required : answered.required ≡ true
    pub artifact : (r.artifact_id ≡ answered.artifact_id) × (r.kind ≡ answered.kind)
    pub range : List Condition
    pub candidates : List Parsed
    pub ranged : answered.version_range ≡ some range
    pub parsed : parse_all (available_versions (key_of answered)) ≡ some candidates
    pub best : IsBest range candidates r.selected

  resolve_one_sound :
      (p : Policy) (ps : List Policy) (resolved rs : List Resolved) (o : Option (List Condition))
      (q : Option (List Parsed))
      → Among p ps
      → matches p.project_pattern ≡ true
      → p.required ≡ true
      → p.version_range ≡ o
      → parse_all (available_versions (key_of p)) ≡ q
      → All (IsResolved ps) resolved
      → resolve_one resolved p o q ≡ ok rs
      → All (IsResolved ps) rs
  unfolding resolve_one
  resolve_one_sound p ps resolved rs none q m h k e f a r = cc
  resolve_one_sound p ps resolved rs (some range) none m h k e f a r = cc
  resolve_one_sound p ps resolved rs (some range) (some cs) m h k e f a r =
      elim (Option-cases (select_version range cs)) [
        | inl n ↦ subst (λ z. All (IsResolved ps) z) (ok_eq resolved rs (rw n at r)) a
        | inr (c, n) ↦
            let x : Resolved = record {
              artifact_id = p.artifact_id;
              kind = p.kind;
              selected = c;
            } in
            subst (λ z. All (IsResolved ps) z) (ok_eq (resolved ++ (x ∷ [])) rs (rw n at r))
              (All-insert (IsResolved ps) resolved x a (record {
                answered = p;
                listed = m;
                applies = h;
                required = k;
                artifact = (refl, refl);
                range = range;
                candidates = cs;
                ranged = e;
                parsed = f;
                best = select_version-IsBest range cs c n;
              }))
      ]

  resolve_from_sound :
      (every : List Policy) (ps : List Policy) (seen : List Key) (resolved rs : List Resolved)
      → ((p : Policy) → Among p ps → Among p every)
      → All (IsResolved every) resolved
      → resolve_from matches available_versions seen resolved ps ≡ ok rs
      → All (IsResolved every) rs
  unfolding resolve_from resolve_one
  resolve_from_sound every [] seen resolved rs sub a e =
      subst (λ z. All (IsResolved every) z) (ok_eq resolved rs e) a
  resolve_from_sound every (p ∷ ps) seen resolved rs sub a e =
      let later = λ (q : Policy) (m : Among q ps). sub q (inr m) in
      elim (Bool-cases (matches p.project_pattern)) [
        | inr h ↦ resolve_from_sound every ps seen resolved rs later a (rw h at e)
        | inl h ↦ elim (Bool-cases (any (is_key (key_of p)) seen)) [
          | inl i ↦ resolve_from_sound every ps seen resolved rs later a (rw (h, i) at e)
          | inr i ↦ elim (Bool-cases p.required) [
            | inr k ↦
                resolve_from_sound every ps (key_of p ∷ seen) resolved rs later a
                  (rw (h, i, k) at e)
            | inl k ↦
                tried
                  (resolve_one resolved p p.version_range
                    (parse_all (available_versions (key_of p))))
                  refl h k (rw (h, i, k) at e)
                  (λ x b g. resolve_from_sound every ps (key_of p ∷ seen) x rs later b g)
          ]
        ]
      ]
    where
      tried :
          (r : Result (List Resolved))
          → resolve_one resolved p p.version_range (parse_all (available_versions (key_of p))) ≡ r
          → matches p.project_pattern ≡ true
          → p.required ≡ true
          → (r >>= λ x. resolve_from matches available_versions (key_of p ∷ seen) x ps) ≡ ok rs
          → ((x : List Resolved)
              → All (IsResolved every) x
              → resolve_from matches available_versions (key_of p ∷ seen) x ps ≡ ok rs
              → All (IsResolved every) rs)
          → All (IsResolved every) rs
      tried (raise x) f h k g again = cc
      tried (ok x) f h k g again =
          again x (resolve_one_sound p every resolved x _ _ (sub p (inl refl)) h k refl refl a f) g

  -- Every artifact that the policies of a project resolve to answers a required policy whose pattern
  -- matches the project; its version is one of the available ones, satisfies the range of the policy,
  -- and no available version that satisfies it has a higher precedence.
  pub resolve_policies_sound :
      (ps : List Policy) (rs : List Resolved)
      → resolve_policies matches available_versions ps ≡ ok rs
      → All (IsResolved ps) rs
  unfolding resolve_policies
  resolve_policies_sound ps rs e = resolve_from_sound ps ps [] [] rs (λ p m. m) tt e

not_lt_core : (v e : SemVer) → lt v e ≡ false → lt_core v e ≡ false
unfolding lt
not_lt_core v e h = ground arith

lt_release : (v u : SemVer) → v.prerelease ≡ none → lt v u ≡ true → lt_core v u ≡ true
unfolding lt lt_tag
lt_release v u n h = elim (Bool-cases (same_core v u)) [
  | inr d ↦ rw d at h
  | inl d ↦ cc (rw (d, n) at h)
]

-- A release that a caret range accepts has the major version of the range; below 1.0.0 it has its
-- minor version too, and below 0.1.0 also its patch version.
pub caret_compatible :
    (v : SemVer) (c : Condition)
    → compare_by caret v c ≡ true
    → v.prerelease ≡ none
    → (v.major ≡ c.expected.major)
      × ((1 ≤ c.expected.major) ⊎ (v.minor ≡ c.expected.minor))
      × ((1 ≤ c.expected.major) ⊎ ((1 ≤ c.expected.minor) ⊎ (v.patch ≡ c.expected.patch)))
unfolding compare_by ge
caret_compatible v c h n =
    let low = not_lt_core v c.expected (ground arith) in
    let high = lt_release v (caret_upper c.expected) n (ground arith) in ground arith
