-- ===== src/Auth/Scopes.antt =====
-- services/shared/auth.py: `AgentContext` and the checks of its scopes.
pub mod Restrict
use public_gbrain_agentos.Base.{
  String, Bool, true, false, Option, none, some, List, [], ◌∷◌, keep, contains, ◌=ₛ◌, Result, ok,
  err, if◌then◌else◌,
}
use public_gbrain_agentos.Auth.Errors.{AuthError, no_read_scopes, scopes_denied}

pub record AgentContext : Type 0 where
  pub agent : String
  pub write_scopes : List String
  pub read_scopes : List String

unfoldable pub check_write_scope : AgentContext → String → Bool
check_write_scope agent_ctx scope =
    if contains agent_ctx.write_scopes "*" then true else contains agent_ctx.write_scopes scope

unfoldable pub check_read_scope : AgentContext → String → Bool
check_read_scope agent_ctx scope =
    if contains agent_ctx.read_scopes "*" then true else contains agent_ctx.read_scopes scope

-- `requested_scopes is None or requested_scopes == ["*"]`
abbrev pub is_default : Option (List String) → Bool
is_default none = true
is_default (some (s ∷ [])) = s =ₛ "*"
is_default (some _) = false

abbrev non_empty : AuthError → List String → Result AuthError (List String)
non_empty e [] = err e
non_empty e (s ∷ ss) = ok (s ∷ ss)

abbrev requested : Option (List String) → List String
requested none = []
requested (some scopes) = scopes

unfoldable pub restrict_read_scopes :
    AgentContext → Option (List String) → Result AuthError (List String)
restrict_read_scopes agent_ctx requested_scopes =
    let has_wildcard = contains agent_ctx.read_scopes "*" in
    if is_default requested_scopes
    then (if has_wildcard then ok ("*" ∷ []) else non_empty no_read_scopes agent_ctx.read_scopes)
    else if has_wildcard
    then ok (requested requested_scopes)
    else non_empty scopes_denied
        (keep (λ s. contains agent_ctx.read_scopes s) (requested requested_scopes))
