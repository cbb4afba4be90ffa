-- ===== src/Sessions/Records.antt =====
-- `Session`, `CapabilityGrant`, `RevocationRecord` and the state of `SessionManager`
-- (kernel/sessions.py). The manager's dicts and the tables of its database are one record; a table is
-- its rows by primary key, in the order in which a select without ORDER BY scans them.
use terminal_agent.Base.{ℕ, String, Bool, true, false, not, ◌&&◌, Option, none, some, ltb}
use terminal_agent.Dict.{Dict}
use terminal_agent.Value.{Fields}

pub data SessionType : Type 0 where
  process workspace timed persistent : SessionType

pub data GrantScope : Type 0 where
  once session resource always : GrantScope

pub record Session : Type 0 where
  pub id : String
  pub type : SessionType
  pub principal : String
  pub created_at : ℕ
  pub expires_at : Option ℕ
  pub workspace_id : Option String
  pub metadata : Fields

pub record CapabilityGrant : Type 0 where
  pub id : String
  pub token : String
  pub principal : String
  pub operation : String
  pub resource : String
  pub scope : GrantScope
  pub session_id : Option String
  pub granted_at : ℕ
  pub granted_by : String
  pub expires_at : Option ℕ
  pub revoked_at : Option ℕ
  pub revoked_by : Option String
  pub metadata : Fields

pub record RevocationRecord : Type 0 where
  pub id : String
  pub grant_id : String
  pub token : String
  pub principal : String
  pub operation : String
  pub resource : String
  pub revoked_at : ℕ
  pub revoked_by : String
  pub reason : String

-- `t is not None and time.time() > t`
unfoldable pub is_past : ℕ → Option ℕ → Bool
is_past now none = false
is_past now (some t) = ltb t now

abbrev pub is_none {ℓ} : {A : Type ℓ} → Option A → Bool
is_none none = true
is_none (some a) = false

unfoldable pub is_expired : ℕ → Session → Bool
is_expired now s = is_past now s.expires_at

unfoldable pub is_active : ℕ → CapabilityGrant → Bool
is_active now g = is_none g.revoked_at && not (is_past now g.expires_at)

abbrev pub is_persistent : SessionType → Bool
is_persistent persistent = true
is_persistent _ = false

abbrev pub is_always : GrantScope → Bool
is_always always = true
is_always _ = false

-- the three tables
pub record Database : Type 0 where
  pub sessions : Dict Session
  pub grants : Dict CapabilityGrant
  pub revocations : Dict RevocationRecord

pub record SessionManager : Type 0 where
  pub sessions : Dict Session
  pub grants : Dict CapabilityGrant
  pub revocations : Dict RevocationRecord
  pub db : Database
  -- how many identities have been drawn, in this process and in those before it
  pub drawn : ℕ
