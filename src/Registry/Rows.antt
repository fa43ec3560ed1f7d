-- ===== src/Registry/Rows.antt =====
-- The table `artifact_policies`: its queries in isekai_memory/store/queries.py, and the tools on it in
-- isekai_memory/registry/policy.py.
use isekai_memory.Base.{
  ℕ, ◌≡◌, refl, Bool, true, false, ◌&&◌, ◌||◌, not, Option, none, some, List, [], ◌∷◌, ◌++◌, ltb,
  ◌==◌, if◌then◌else◌, any, select, arith, inl, inr, Bool-cases,
}
use isekai_memory.Base.Table.{fetch, update, any-fetch, fetch-update, fetch-insert_new, fetch-holds}
use isekai_memory.Base.Sorted.{order_by}
use isekai_memory.Base.Outcome.{Result, ok, raise, tool_error, policy}
use isekai_memory.Registry.Range.{Condition, Policy}

pub record PolicyRow : Type 0 where
  pub organization_id : ℕ
  pub rule : Policy
  pub priority : ℕ
  pub created_at : ℕ
  pub updated_at : ℕ

abbrev pub in_organization : ℕ → PolicyRow → Bool
in_organization o r = r.organization_id == o

-- The columns of the unique key.
abbrev pub has_rule : ℕ → Policy → PolicyRow → Bool
has_rule o p r =
    r.organization_id == o
    && r.rule.project_pattern == p.project_pattern
    && r.rule.kind == p.kind
    && r.rule.artifact_id == p.artifact_id

-- `ORDER BY priority DESC, updated_at DESC, id ASC`
abbrev pub is_preferred : PolicyRow → PolicyRow → Bool
is_preferred a b =
    ltb b.priority a.priority
    || a.priority == b.priority
      && (ltb b.updated_at a.updated_at || a.updated_at == b.updated_at && ltb a.rule.id b.rule.id)

unfoldable pub get_policies_for_org : ℕ → List PolicyRow → List PolicyRow
get_policies_for_org o t = order_by is_preferred (select (in_organization o) t)

-- `DO UPDATE SET`
abbrev pub replace_rule : Policy → ℕ → ℕ → PolicyRow → PolicyRow
replace_rule p priority now r = record r {
  rule = record p { id = r.rule.id };
  priority = priority;
  updated_at = now;
}

-- The id of `p` is the one that a new row draws.
unfoldable pub upsert_policy : ℕ → Policy → ℕ → ℕ → List PolicyRow → List PolicyRow
upsert_policy o p priority now t =
    if any (has_rule o p) t
    then update (has_rule o p) (replace_rule p priority now) t
    else t
      ++ (record {
        organization_id = o;
        rule = p;
        priority = priority;
        created_at = now;
        updated_at = now;
      }
          ∷ [])

abbrev pub is_policy : ℕ → ℕ → PolicyRow → Bool
is_policy id o r = r.rule.id == id && r.organization_id == o

unfoldable pub delete_policy : ℕ → ℕ → List PolicyRow → List PolicyRow × Bool
delete_policy id o t = (select (λ r. not (is_policy id o r)) t, any (is_policy id o) t)

-- The range is parsed before the row is written.
unfoldable pub upsert_with :
    ℕ
    → Policy
    → ℕ
    → ℕ
    → List PolicyRow
    → Option (List Condition)
    → List PolicyRow × Result (Unit {0})
upsert_with o p priority now t none = (t, raise (tool_error policy 2))
upsert_with o p priority now t (some range) = (upsert_policy o p priority now t, ok tt)

unfoldable pub upsert_artifact_policy :
    ℕ → Policy → ℕ → ℕ → List PolicyRow → List PolicyRow × Result (Unit {0})
upsert_artifact_policy o p priority now t = upsert_with o p priority now t p.version_range

unfoldable pub delete_artifact_policy : ℕ → ℕ → List PolicyRow → List PolicyRow × Result (Unit {0})
delete_artifact_policy id o t =
    let (u, deleted) = delete_policy id o t in
    (u, if deleted then ok tt else raise (tool_error policy 1))

-- A policy that was written is the one that its key finds, with its range, whether it replaced an
-- older one or not.
pub upsert_policy_found :
    (o : ℕ) (p : Policy) (priority now : ℕ) (t : List PolicyRow)
    → (r : PolicyRow) × (fetch (has_rule o p) (upsert_policy o p priority now t) ≡ some r)
      × (r.rule.version_range ≡ p.version_range)
      × (r.rule.required ≡ p.required)
      × (r.priority ≡ priority)
unfolding upsert_policy
upsert_policy_found o p priority now t = elim (Bool-cases (any (has_rule o p) t)) [
  | inl h ↦
      let (r, f) = any-fetch (has_rule o p) t h in
      let k = fetch-holds (has_rule o p) t r f in
      (replace_rule p priority now r, rw h (replaced r f k), refl, refl, refl)
  | inr h ↦
      let new : PolicyRow = record {
        organization_id = o;
        rule = p;
        priority = priority;
        created_at = now;
        updated_at = now;
      } in
      (new, rw h (fetch-insert_new (has_rule o p) t new h (ground arith)), refl, refl, refl)
]
  where
    replaced :
        (r : PolicyRow)
        → fetch (has_rule o p) t ≡ some r
        → has_rule o p r ≡ true
        → fetch (has_rule o p) (update (has_rule o p) (replace_rule p priority now) t)
          ≡ some (replace_rule p priority now r)
    replaced r f k = fetch-update (has_rule o p) (replace_rule p priority now) t r f (ground arith)

-- A policy that was deleted is gone.
pub delete_policy_gone :
    (id o : ℕ) (t : List PolicyRow) → any (is_policy id o) (delete_policy id o t).0 ≡ false
unfolding delete_policy
delete_policy_gone id o [] = refl
delete_policy_gone id o (r ∷ t) = elim (Bool-cases (is_policy id o r)) [
  | inl h ↦ rw h (delete_policy_gone id o t)
  | inr h ↦ rw (h, h) (delete_policy_gone id o t)
]
