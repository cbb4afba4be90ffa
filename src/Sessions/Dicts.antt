-- ===== src/Sessions/Dicts.antt =====
-- `to_dict` and `from_dict` of `Session`, `CapabilityGrant` and `RevocationRecord`
-- (kernel/sessions.py); the names of the functions start with the class.
use terminal_agent.Base.{◌≡◌, refl, String, Option, none, some, List, [], ◌∷◌, ◌==◌, if◌then◌else◌}
use terminal_agent.Value.{Fields, end, field, str, num, obj, get, none_or_text}
use terminal_agent.Value.Reading.{
  ◌>>=◌, to_text, to_number, to_mapping, or_none, required, default, are_arguments, none_or_number,
  or_none-text, or_none-number,
}
use terminal_agent.Sessions.Records.{
  SessionType, process, workspace, timed, persistent, GrantScope, Session, CapabilityGrant,
  RevocationRecord,
}

-- the values of the enumerations
unfoldable session_type_value : SessionType → String
session_type_value process = "process"
session_type_value workspace = "workspace"
session_type_value timed = "timed"
session_type_value persistent = "persistent"

unfoldable scope_value : GrantScope → String
scope_value GrantScope.once = "once"
scope_value GrantScope.session = "session"
scope_value GrantScope.resource = "resource"
scope_value GrantScope.always = "always"

-- `SessionType(value)`
unfoldable session_type_of : String → Option SessionType
session_type_of s =
    if s == "process"
    then some process
    else if s == "workspace"
    then some workspace
    else if s == "timed"
    then some timed
    else if s == "persistent"
    then some persistent
    else none

-- `GrantScope(value)`
unfoldable scope_of : String → Option GrantScope
scope_of s =
    if s == "once"
    then some GrantScope.once
    else if s == "session"
    then some GrantScope.session
    else if s == "resource"
    then some GrantScope.resource
    else if s == "always"
    then some GrantScope.always
    else none

unfoldable session_to_dict : Session → Fields
unfolding session_type_value
session_to_dict x = field "id" (str x.id) (
    field "type" (str (session_type_value x.type)) (
      field "principal" (str x.principal) (
        field "created_at" (num x.created_at) (
          field "expires_at" (none_or_number x.expires_at) (
            field "workspace_id" (none_or_text x.workspace_id)
              (field "metadata" (obj x.metadata) end))))))

abbrev session_names : List String
session_names =
    "id" ∷ "type" ∷ "principal" ∷ "created_at" ∷ "expires_at" ∷ "workspace_id" ∷ "metadata" ∷ []

unfoldable session_from_dict : Fields → Option Session
unfolding get session_type_of
session_from_dict d = do
  type ← required to_text "type" d >>= session_type_of
  id ← required to_text "id" d
  principal ← required to_text "principal" d
  created_at ← required to_number "created_at" d
  expires_at ← default (or_none to_number) none "expires_at" d
  workspace_id ← default (or_none to_text) none "workspace_id" d
  metadata ← default to_mapping end "metadata" d
  if are_arguments session_names d
      then some (record {
        id = id;
        type = type;
        principal = principal;
        created_at = created_at;
        expires_at = expires_at;
        workspace_id = workspace_id;
        metadata = metadata;
      })
      else none

unfoldable grant_to_dict : CapabilityGrant → Fields
unfolding scope_value
grant_to_dict g = field "id" (str g.id) (
    field "token" (str g.token) (
      field "principal" (str g.principal) (
        field "operation" (str g.operation) (
          field "resource" (str g.resource) (
            field "scope" (str (scope_value g.scope)) (
              field "session_id" (none_or_text g.session_id) (
                field "granted_at" (num g.granted_at) (
                  field "granted_by" (str g.granted_by) (
                    field "expires_at" (none_or_number g.expires_at) (
                      field "revoked_at" (none_or_number g.revoked_at) (
                        field "revoked_by" (none_or_text g.revoked_by)
                          (field "metadata" (obj g.metadata) end))))))))))))

-- the arguments of the class
abbrev grant_names : List String
grant_names =
    "id" ∷ "token" ∷ "principal" ∷ "operation" ∷ "resource" ∷ "scope" ∷ "session_id" ∷ "granted_at"
    ∷ "granted_by" ∷ "expires_at" ∷ "revoked_at" ∷ "revoked_by" ∷ "metadata" ∷ []

-- `session_id` is an optional text that has no default
unfoldable grant_from_dict : Fields → Option CapabilityGrant
unfolding get scope_of
grant_from_dict d = do
  scope ← required to_text "scope" d >>= scope_of
  id ← required to_text "id" d
  token ← required to_text "token" d
  principal ← required to_text "principal" d
  operation ← required to_text "operation" d
  resource ← required to_text "resource" d
  session_id ← required (or_none to_text) "session_id" d
  granted_at ← required to_number "granted_at" d
  granted_by ← required to_text "granted_by" d
  expires_at ← default (or_none to_number) none "expires_at" d
  revoked_at ← default (or_none to_number) none "revoked_at" d
  revoked_by ← default (or_none to_text) none "revoked_by" d
  metadata ← default to_mapping end "metadata" d
  if are_arguments grant_names d
      then some (record {
        id = id;
        token = token;
        principal = principal;
        operation = operation;
        resource = resource;
        scope = scope;
        session_id = session_id;
        granted_at = granted_at;
        granted_by = granted_by;
        expires_at = expires_at;
        revoked_at = revoked_at;
        revoked_by = revoked_by;
        metadata = metadata;
      })
      else none

unfoldable revocation_to_dict : RevocationRecord → Fields
revocation_to_dict r = field "id" (str r.id) (
    field "grant_id" (str r.grant_id) (
      field "token" (str r.token) (
        field "principal" (str r.principal) (
          field "operation" (str r.operation) (
            field "resource" (str r.resource) (
              field "revoked_at" (num r.revoked_at)
                (field "revoked_by" (str r.revoked_by) (field "reason" (str r.reason) end))))))))

abbrev revocation_names : List String
revocation_names =
    "id" ∷ "grant_id" ∷ "token" ∷ "principal" ∷ "operation" ∷ "resource" ∷ "revoked_at"
    ∷ "revoked_by" ∷ "reason" ∷ []

unfoldable revocation_from_dict : Fields → Option RevocationRecord
unfolding get
revocation_from_dict d = do
  id ← required to_text "id" d
  grant_id ← required to_text "grant_id" d
  token ← required to_text "token" d
  principal ← required to_text "principal" d
  operation ← required to_text "operation" d
  resource ← required to_text "resource" d
  revoked_at ← required to_number "revoked_at" d
  revoked_by ← required to_text "revoked_by" d
  reason ← default to_text "" "reason" d
  if are_arguments revocation_names d
      then some (record {
        id = id;
        grant_id = grant_id;
        token = token;
        principal = principal;
        operation = operation;
        resource = resource;
        revoked_at = revoked_at;
        revoked_by = revoked_by;
        reason = reason;
      })
      else none

session_type_of-value : (t : SessionType) → session_type_of (session_type_value t) ≡ some t
unfolding session_type_of session_type_value
session_type_of-value process = refl
session_type_of-value workspace = refl
session_type_of-value timed = refl
session_type_of-value persistent = refl

scope_of-value : (s : GrantScope) → scope_of (scope_value s) ≡ some s
unfolding scope_of scope_value
scope_of-value GrantScope.once = refl
scope_of-value GrantScope.session = refl
scope_of-value GrantScope.resource = refl
scope_of-value GrantScope.always = refl

-- A session is read back from its dict.
session_from_dict-to_dict : (x : Session) → session_from_dict (session_to_dict x) ≡ some x
unfolding session_from_dict session_to_dict get
session_from_dict-to_dict x =
    rw (session_type_of-value x.type, or_none-number x.expires_at, or_none-text x.workspace_id) refl

-- A grant is read back from its dict.
grant_from_dict-to_dict : (g : CapabilityGrant) → grant_from_dict (grant_to_dict g) ≡ some g
unfolding grant_from_dict grant_to_dict get
grant_from_dict-to_dict g =
    rw
      (
        scope_of-value g.scope,
        or_none-text g.session_id,
        or_none-number g.expires_at,
        or_none-number g.revoked_at,
        or_none-text g.revoked_by,
      )
      refl

-- A revocation is read back from its dict.
revocation_from_dict-to_dict :
    (r : RevocationRecord) → revocation_from_dict (revocation_to_dict r) ≡ some r
unfolding revocation_from_dict revocation_to_dict get
revocation_from_dict-to_dict r = refl
