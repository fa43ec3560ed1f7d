-- ===== src/Access/Tokens.antt =====
-- Access tokens and the authorization of tools: isekai_memory/server/auth.py, and the table
-- `access_tokens` of isekai_memory/store/queries.py. Users, projects and hashes are only compared, so
-- they are numbers; an absent or empty text is `none`; times are microseconds.
use isekai_memory.Base.{
  ℕ, Bool, true, false, ◌&&◌, not, Option, none, some, List, [], ◌∷◌, ◌++◌, leb, ◌==◌,
  if◌then◌else◌, any, is_some,
}
use isekai_memory.Base.Table.{fetch, update}
use isekai_memory.Base.Outcome.{Result, ToolError, ok, raise, auth, tool}

pub data Scope : Type 0 where
  read write admin : Scope

abbrev scope_index : Scope → ℕ
scope_index read = 0
scope_index write = 1
scope_index admin = 2

-- `scope in scopes`
abbrev pub grants : Scope → List Scope → Bool
grants s t = any (λ x. scope_index x == scope_index s) t

pub record Token : Type 0 where
  pub id : ℕ
  pub token_hash : ℕ
  pub project_id : ℕ
  pub user_id : ℕ
  pub scopes : List Scope
  pub expires_at : Option ℕ
  pub revoked_at : Option ℕ

pub record Principal : Type 0 where
  pub user_id : ℕ
  pub project_id : Option ℕ
  pub scopes : List Scope
  pub is_local : Bool

abbrev pub has_hash : ℕ → Token → Bool
has_hash h t = t.token_hash == h

unfoldable pub get_token_by_hash : ℕ → List Token → Option Token
get_token_by_hash h t = fetch (has_hash h) t

unfoldable pub create_token : Token → List Token → List Token
create_token row t = t ++ (record row { revoked_at = none } ∷ [])

abbrev pub is_revocable : ℕ → Token → Bool
is_revocable id t = t.id == id && not (is_some t.revoked_at)

abbrev pub revoke : ℕ → Token → Token
revoke now t = record t { revoked_at = some now }

-- The answer says whether a row was revoked.
unfoldable pub revoke_token : ℕ → ℕ → List Token → List Token × Bool
revoke_token id now t = (update (is_revocable id) (revoke now) t, any (is_revocable id) t)

abbrev pub unauthenticated : ToolError
unauthenticated = record { series = auth; number = 1; http_status = 401 }

-- `column is not None and column <= now`
abbrev pub is_over : Option ℕ → ℕ → Bool
is_over none now = false
is_over (some t) now = leb t now

-- With the row of the hash.
unfoldable pub principal_of : ℕ → Option Token → Result Principal
principal_of now none = raise unauthenticated
principal_of now (some t) =
    if is_some t.revoked_at
    then raise unauthenticated
    else if is_over t.expires_at now
    then raise unauthenticated
    else ok (record {
      user_id = t.user_id;
      project_id = some t.project_id;
      scopes = t.scopes;
      is_local = false;
    })

-- `hash_token` is SHA-256 in hexadecimal.
unfoldable pub verify_token : (ℕ → ℕ) → Option ℕ → ℕ → List Token → Result Principal
verify_token hash_token none now t = raise unauthenticated
verify_token hash_token (some raw) now t = principal_of now (get_token_by_hash (hash_token raw) t)

-- The tools that auth.py names. `contributed` is a tool of the tables that other modules add, with its
-- scope and whether it is bound to a project; `unknown` is any other name.
pub data Tool : Type 0 where
  repo_list repo_check_updates handoff_push handoff_list handoff_pull handoff_claim : Tool
  handoff_get_claimed handoff_ack handoff_nack experience_propose experience_list : Tool
  experience_review experience_revise experience_history experience_suppression_release : Tool
  search memory_read generation_enqueue generation_list generation_retry summary_read : Tool
  skill_generate skill_propose skill_revise skill_review skill_list skill_inspect : Tool
  skill_read skill_export : Tool
  contributed : Scope → Bool → Tool
  unknown : Tool

-- `_TOOL_SCOPES.get(tool_name)`
abbrev pub required_scope : Tool → Option Scope
required_scope repo_list = some read
required_scope repo_check_updates = some read
required_scope handoff_push = some write
required_scope handoff_list = some read
required_scope handoff_pull = some write
required_scope handoff_claim = some write
required_scope handoff_get_claimed = some write
required_scope handoff_ack = some write
required_scope handoff_nack = some write
required_scope experience_propose = some write
required_scope experience_list = some admin
required_scope experience_review = some admin
required_scope experience_revise = some admin
required_scope experience_history = some admin
required_scope experience_suppression_release = some admin
required_scope search = some read
required_scope memory_read = some read
required_scope generation_enqueue = some admin
required_scope generation_list = some admin
required_scope generation_retry = some admin
required_scope summary_read = some read
required_scope skill_generate = some admin
required_scope skill_propose = some write
required_scope skill_revise = some admin
required_scope skill_review = some admin
required_scope skill_list = some admin
required_scope skill_inspect = some admin
required_scope skill_read = some read
required_scope skill_export = some admin
required_scope (contributed s b) = some s
required_scope unknown = none

-- `tool_name in _PROJECT_SCOPED_TOOLS`: all but the two that read the repository.
abbrev pub is_project_scoped : Tool → Bool
is_project_scoped repo_list = false
is_project_scoped repo_check_updates = false
is_project_scoped (contributed s b) = b
is_project_scoped unknown = false
is_project_scoped _ = true

-- `requested_project` is given and is the principal's.
abbrev pub same_project : Option ℕ → Option ℕ → Bool
same_project none p = false
same_project (some q) none = false
same_project (some q) (some p) = q == p

unfoldable pub authorize_scope : Principal → Bool → Option ℕ → Option Scope → Result (Unit {0})
authorize_scope p scoped requested none =
    raise (record { series = tool; number = 1; http_status = 404 })
authorize_scope p scoped requested (some scope) =
    if not p.is_local && not (grants scope p.scopes) && not (grants admin p.scopes)
    then raise (record { series = auth; number = 2; http_status = 403 })
    else if scoped && not p.is_local && not (same_project requested p.project_id)
    then raise (record { series = auth; number = 3; http_status = 403 })
    else ok tt

unfoldable pub authorize_tool : Principal → Tool → Option ℕ → Result (Unit {0})
authorize_tool p t requested = authorize_scope p (is_project_scoped t) requested (required_scope t)
