-- ===== src/Access/Checked.antt =====
-- What a request that passes authentication and authorization has shown.
use isekai_memory.Base.{
  ℕ, ◌≡◌, ◌⊎◌, inl, inr, refl, ap, Bool, true, false, ◌||◌, Option, none, some, List, arith,
  Bool-cases, Option-cases, is_some,
}
use isekai_memory.Base.Table.{fetch-update_where}
use isekai_memory.Base.Outcome.{Result, ok, raise}
use isekai_memory.Access.Tokens.{
  Scope, admin, grants, Token, Principal, has_hash, get_token_by_hash, is_revocable, revoke,
  revoke_token, unauthenticated, is_over, principal_of, verify_token, Tool, required_scope,
  is_project_scoped, same_project, authorize_scope, authorize_tool,
}

-- The evidence behind an authorized call.
pub record IsEntitled (t : Token) (now : ℕ) (call : Tool) (requested : Option ℕ) : Type 0 where
  pub unrevoked : t.revoked_at ≡ none
  pub unexpired : is_over t.expires_at now ≡ false
  pub scope : Scope
  pub required : required_scope call ≡ some scope
  pub granted : (grants scope t.scopes || grants admin t.scopes) ≡ true
  pub project : (is_project_scoped call ≡ false) ⊎ (requested ≡ some t.project_id)

principal-cases :
    (now : ℕ) (t : Token) (p : Principal)
    → principal_of now (some t) ≡ ok p
    → (t.revoked_at ≡ none)
      × (is_over t.expires_at now ≡ false)
      × (p.scopes ≡ t.scopes)
      × (p.project_id ≡ some t.project_id)
      × (p.is_local ≡ false)
unfolding principal_of
principal-cases now t p e = elim (Option-cases t.revoked_at) [
  | inr (r, h) ↦ cc (rw h at e)
  | inl n ↦ elim (Bool-cases (is_over t.expires_at now)) [
    | inl h ↦ cc (rw (n, h) at e)
    | inr h ↦
        let same = principal_eq _ p (rw (n, h) at e) in
        (
          n,
          h,
          ap (λ (x : Principal). x.scopes) same,
          ap (λ (x : Principal). x.project_id) same,
          ap (λ (x : Principal). x.is_local) same,
        )
  ]
]
  where
    principal_eq : (x y : Principal) → ◌≡◌ {A = Result Principal} (ok x) (ok y) → y ≡ x
    principal_eq x y q = cc

authorized_scope :
    (p : Principal) (scoped : Bool) (requested : Option ℕ) (o : Option Scope)
    → p.is_local ≡ false
    → authorize_scope p scoped requested o ≡ ok tt
    → (scope : Scope) × (o ≡ some scope)
      × ((grants scope p.scopes || grants admin p.scopes) ≡ true)
      × ((scoped ≡ false) ⊎ (same_project requested p.project_id ≡ true))
unfolding authorize_scope
authorized_scope p scoped requested none h e = cc
authorized_scope p scoped requested (some scope) h e =
    let g : (grants scope p.scopes || grants admin p.scopes) ≡ true = ground arith in
    (scope, refl, g, ground arith)

-- A call that passes both checks presents an unrevoked, unexpired token that has the scope of the
-- tool or is an administrator's, and asks for the token's own project where the tool is bound to one.
pub verified_call :
    (hash_token : ℕ → ℕ) (raw now : ℕ) (tokens : List Token) (p : Principal) (call : Tool)
    (requested : Option ℕ)
    → verify_token hash_token (some raw) now tokens ≡ ok p
    → authorize_tool p call requested ≡ ok tt
    → (t : Token) × (get_token_by_hash (hash_token raw) tokens ≡ some t)
      × IsEntitled t now call requested
unfolding verify_token authorize_tool principal_of
verified_call hash_token raw now tokens p call requested v a =
    elim (Option-cases (get_token_by_hash (hash_token raw) tokens)) [
      | inl n ↦ cc (rw n at v)
      | inr (t, f) ↦
          let (unrevoked, unexpired, scopes, project, remote) =
            principal-cases now t p (rw f at v) in
          let (scope, needed, granted, bound) =
            authorized_scope p (is_project_scoped call) requested (required_scope call) remote a in
          (
            t,
            f,
            record {
              unrevoked = unrevoked;
              unexpired = unexpired;
              scope = scope;
              required = needed;
              granted = rw scopes at granted;
              project = elim bound [
                | inl b ↦ inl b
                | inr b ↦ inr (same_requested requested t.project_id (rw project at b))
              ];
            },
          )
    ]
  where
    same_requested : (o : Option ℕ) (q : ℕ) → same_project o (some q) ≡ true → o ≡ some q
    same_requested none q h = cc
    same_requested (some r) q h = let e : r ≡ q = ground arith in ap some e

-- Once the token that a text hashes to has been revoked, the text is rejected, whatever the clock.
pub revoked_token_rejected :
    (hash_token : ℕ → ℕ) (raw now later : ℕ) (tokens : List Token) (t : Token)
    → get_token_by_hash (hash_token raw) tokens ≡ some t
    → verify_token hash_token (some raw) later (revoke_token t.id now tokens).0
      ≡ raise unauthenticated
unfolding verify_token principal_of get_token_by_hash revoke_token
revoked_token_rejected hash_token raw now later tokens t f =
    let found =
      fetch-update_where (has_hash (hash_token raw)) (is_revocable t.id) (revoke now) tokens
        (λ r. refl) t f in
    elim (Bool-cases (is_revocable t.id t)) [
      | inl h ↦ rw (rw h at found)
      | inr h ↦ let gone : is_some t.revoked_at ≡ true = ground arith in rw (rw h at found, gone)
    ]
