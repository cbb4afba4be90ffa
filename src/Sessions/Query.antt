-- ===== src/Sessions/Query.antt =====
-- `is_token_revoked`, `list_grants`, `list_revocations` and `get_grant_by_token` (kernel/sessions.py).
use terminal_agent.Base.{
  ℕ, String, Bool, true, not, ◌&&◌, ◌||◌, Option, none, some, List, [], ◌∷◌, ◌==◌, ltb, any, select,
  sorted, if◌then◌else◌,
}
use terminal_agent.Dict
use terminal_agent.Dict.{Dict}
use terminal_agent.Sessions.Records.{CapabilityGrant, RevocationRecord, SessionManager, is_active}

-- `token in` the revocations
unfoldable pub is_token_revoked : String → SessionManager → Bool
is_token_revoked token s = any (λ e. e.1.token == token) s.revocations

-- `if principal and x.principal != principal: continue`, as a test that passes
unfoldable pub principal_passes : Option String → String → Bool
principal_passes none p = true
principal_passes (some q) p = if q == "" then true else p == q

-- `if since and t < since: continue`, as a test that passes
unfoldable pub since_passes : Option ℕ → ℕ → Bool
since_passes none t = true
since_passes (some since) t = not (ltb t since)

unfoldable pub grant_passes : ℕ → Option String → Bool → Option ℕ → CapabilityGrant → Bool
grant_passes now principal active_only since g =
    principal_passes principal g.principal
    && (not active_only || is_active now g)
    && since_passes since g.granted_at

unfoldable pub list_grants :
    ℕ → Option String → Bool → Option ℕ → SessionManager → List CapabilityGrant
unfolding sorted
list_grants now principal active_only since s =
    sorted (λ g. g.granted_at)
      (select (grant_passes now principal active_only since) (Dict.values s.grants))

unfoldable pub revocation_passes : Option String → Option ℕ → RevocationRecord → Bool
revocation_passes principal since r =
    principal_passes principal r.principal && since_passes since r.revoked_at

unfoldable pub list_revocations : Option String → Option ℕ → SessionManager → List RevocationRecord
unfolding sorted
list_revocations principal since s =
    sorted (λ r. r.revoked_at)
      (select (revocation_passes principal since) (Dict.values s.revocations))

-- the first grant with the token
unfoldable pub first_with_token : String → List CapabilityGrant → Option CapabilityGrant
first_with_token token [] = none
first_with_token token (g ∷ gs) =
    let rest = first_with_token token gs in if g.token == token then some g else rest

unfoldable pub get_grant_by_token : String → SessionManager → Option CapabilityGrant
unfolding first_with_token
get_grant_by_token token s = first_with_token token (Dict.values s.grants)
