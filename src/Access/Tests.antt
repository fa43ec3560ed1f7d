-- ===== src/Access/Tests.antt =====
-- Two tokens, calls with them, and the theorems there.
use isekai_memory.Base.{ℕ, ◌+◌, ◌≡◌, refl, false, none, some, List, [], ◌∷◌}
use isekai_memory.Base.Outcome.{ok, raise, auth}
use isekai_memory.Access.Tokens.{
  read, write, Token, Principal, get_token_by_hash, revoke_token, unauthenticated, verify_token,
  principal_of, handoff_push, experience_review, authorize_tool, authorize_scope,
}
use isekai_memory.Access.Checked.{IsEntitled, verified_call, revoked_token_rejected}

-- A hash that adds 1000.
abbrev hash : ℕ → ℕ
hash raw = raw + 1000

abbrev writer : Token
writer = record {
  id = 1;
  token_hash = 1005;
  project_id = 7;
  user_id = 20;
  scopes = read ∷ write ∷ [];
  expires_at = some 100;
  revoked_at = none;
}

abbrev tokens : List Token
tokens = writer ∷ []

abbrev principal : Principal
principal = record {
  user_id = 20;
  project_id = some 7;
  scopes = read ∷ write ∷ [];
  is_local = false;
}

verified : verify_token hash (some 5) 50 tokens ≡ ok principal
unfolding verify_token principal_of get_token_by_hash
verified = refl

expired : verify_token hash (some 5) 100 tokens ≡ raise unauthenticated
unfolding verify_token principal_of get_token_by_hash
expired = refl

pushes : authorize_tool principal handoff_push (some 7) ≡ ok tt
unfolding authorize_tool authorize_scope
pushes = refl

other_project :
    authorize_tool principal handoff_push (some 8)
    ≡ raise (record { series = auth; number = 3; http_status = 403 })
unfolding authorize_tool authorize_scope
other_project = refl

no_review :
    authorize_tool principal experience_review (some 7)
    ≡ raise (record { series = auth; number = 2; http_status = 403 })
unfolding authorize_tool authorize_scope
no_review = refl

verified_call_example :
    (t : Token) × (get_token_by_hash 1005 tokens ≡ some t) × IsEntitled t 50 handoff_push (some 7)
verified_call_example =
    verified_call hash 5 50 tokens principal handoff_push (some 7) verified pushes

known : get_token_by_hash 1005 tokens ≡ some writer
unfolding get_token_by_hash
known = refl

revoked_token_rejected_example :
    verify_token hash (some 5) 60 (revoke_token 1 55 tokens).0 ≡ raise unauthenticated
revoked_token_rejected_example = revoked_token_rejected hash 5 55 60 tokens writer known
