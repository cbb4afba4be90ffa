-- ===== src/Sessions.antt =====
-- The operations of `SessionManager` on one session or grant, on the state of Sessions/Records
-- (kernel/sessions.py).
pub mod Invariant
pub mod Records
pub mod Calls
pub mod Cleared
pub mod Tables
pub mod Mirrors
pub mod Valid
pub mod Ending
pub mod Sweep
pub mod Swept
pub mod Clearing
pub mod Dicts
pub mod Ends
pub mod Runs
pub mod Restart
pub mod Lists
pub mod Query
use Prim.Native.String as S
use terminal_agent.Base.{
  ℕ, ◌+◌, ◌<◌, String, Bool, true, false, not, ◌&&◌, ◌||◌, Option, none, some, List, [], ◌∷◌, ◌==◌,
  ltb, any, select, sorted, if◌then◌else◌,
}
use terminal_agent.Dict
use terminal_agent.Dict.{Dict}
use terminal_agent.Value.{Fields}
use terminal_agent.Result.{Result, ok, raise, integrity_error}
use terminal_agent.Platform.{Platform}
use terminal_agent.Capability.{expiry}
use terminal_agent.Sessions.Records.{
  SessionType, GrantScope, Session, CapabilityGrant, RevocationRecord, is_past, is_none, is_expired,
  is_active, is_persistent, is_always, Database, SessionManager, process, workspace, timed,
  persistent, once, session, resource, always,
}

-- `INSERT OR REPLACE`: the row with that key goes, and the new one comes last
unfoldable pub replace {ℓ} : {V : Type ℓ} → Dict V → String → V → Dict V
replace table k v = Dict.put (Dict.remove table k) k v

-- `for row in cursor: d[row.id] = row`
unfoldable pub load {ℓ} : {V : Type ℓ} → (V → String) → Dict V → Dict V → Dict V
load id [] d = d
load id ((k, v) ∷ rows) d = load id rows (Dict.put d (id v) v)

-- `SELECT * FROM sessions WHERE type = 'persistent'`
unfoldable pub persistent_rows : Dict Session → Dict Session
persistent_rows = select (λ row. is_persistent row.1.type)

-- `__init__` with `_load_persisted_data`: a manager on a database that is there. A new database is
-- the one with three empty tables.
unfoldable pub init : Database → (drawn : ℕ) → SessionManager
unfolding load persistent_rows
init db drawn = record {
  sessions = load (λ s. s.id) (persistent_rows db.sessions) [];
  grants = load (λ g. g.id) db.grants [];
  revocations = load (λ r. r.id) db.revocations [];
  db = db;
  drawn = drawn;
}

abbrev pub empty_database : Database
empty_database = record { sessions = []; grants = []; revocations = [] }

-- the process ends and another opens the same database
unfoldable pub restart : SessionManager → SessionManager
unfolding init
restart s = init s.db s.drawn

module _ (os : Platform) where
  unfoldable pub session_id : ℕ → String
  session_id n = S.◌++◌ "session:" (os.uuid4_hex8 n)

  unfoldable pub grant_id : ℕ → String
  grant_id n = S.◌++◌ "grant:" (os.uuid4_hex8 n)

  unfoldable pub revocation_id : ℕ → String
  revocation_id n = S.◌++◌ "revoke:" (os.uuid4_hex8 n)

-- the arguments of `create_session`
pub record SessionRequest : Type 0 where
  pub principal : String
  pub session_type : SessionType
  pub workspace_id : Option String
  pub ttl_seconds : Option ℕ
  pub metadata : Fields

-- the arguments of `record_grant`
pub record GrantRequest : Type 0 where
  pub token : String
  pub principal : String
  pub operation : String
  pub resource : String
  pub scope : GrantScope
  pub granted_by : String
  pub session_id : Option String
  pub expires_at : Option ℕ
  pub metadata : Fields

unfoldable pub persist_session : Session → SessionManager → SessionManager
unfolding replace
persist_session x s = record s { db = record s.db { sessions = replace s.db.sessions x.id x } }

unfoldable pub persist_grant : CapabilityGrant → SessionManager → SessionManager
unfolding replace
persist_grant g s = record s { db = record s.db { grants = replace s.db.grants g.id g } }

-- `INSERT INTO revocations`, which refuses a primary key that is present
unfoldable pub persist_revocation :
    RevocationRecord → SessionManager → Result (Unit {0}) × SessionManager
persist_revocation r s =
    if Dict.has s.db.revocations r.id
    then (raise (integrity_error r.id), s)
    else (ok tt, record s { db = record s.db { revocations = Dict.put s.db.revocations r.id r } })

-- the grant as `revoke_grant` leaves it
abbrev pub revoked : ℕ → String → CapabilityGrant → CapabilityGrant
revoked now by g = record g { revoked_at = some now; revoked_by = some by }

-- the end of `revoke_grant`, after the insert has returned or raised
unfoldable pub after_insert :
    CapabilityGrant → Result (Unit {0}) × SessionManager → Result Bool × SessionManager
unfolding persist_grant
after_insert g (raise e, s) = (raise e, s)
after_insert g (ok u, s) = (ok true, (if is_always g.scope then persist_grant g s else s))

module _ (os : Platform) (now : ℕ) where
  unfoldable pub new_session : SessionRequest → SessionManager → Session
  new_session q s = record {
    id = session_id os s.drawn;
    type = q.session_type;
    principal = q.principal;
    created_at = now;
    expires_at = expiry now q.ttl_seconds;
    workspace_id = q.workspace_id;
    metadata = q.metadata;
  }

  unfoldable pub create_session : SessionRequest → SessionManager → Session × SessionManager
  unfolding new_session persist_session
  create_session q s =
      let x = new_session q s in
      let kept = record s { sessions = Dict.put s.sessions x.id x; drawn = s.drawn + 1 } in
      (x, (if is_persistent q.session_type then persist_session x kept else kept))

  unfoldable pub new_grant : GrantRequest → SessionManager → CapabilityGrant
  new_grant q s = record {
    id = grant_id os s.drawn;
    token = q.token;
    principal = q.principal;
    operation = q.operation;
    resource = q.resource;
    scope = q.scope;
    session_id = q.session_id;
    granted_at = now;
    granted_by = q.granted_by;
    expires_at = q.expires_at;
    revoked_at = none;
    revoked_by = none;
    metadata = q.metadata;
  }

  unfoldable pub record_grant : GrantRequest → SessionManager → CapabilityGrant × SessionManager
  unfolding new_grant persist_grant
  record_grant q s =
      let g = new_grant q s in
      let kept = record s { grants = Dict.put s.grants g.id g; drawn = s.drawn + 1 } in
      (g, (if is_always q.scope then persist_grant g kept else kept))

  unfoldable pub new_revocation :
      String → CapabilityGrant → String → String → SessionManager → RevocationRecord
  new_revocation key g by reason s = record {
    id = revocation_id os s.drawn;
    grant_id = key;
    token = g.token;
    principal = g.principal;
    operation = g.operation;
    resource = g.resource;
    revoked_at = now;
    revoked_by = by;
    reason = reason;
  }

  unfoldable pub revoke_grant :
      String → String → String → SessionManager → Result Bool × SessionManager
  unfolding new_revocation persist_revocation after_insert
  revoke_grant key by reason s = elim (Dict.get s.grants key) [
    | none ↦ (ok false, s)
    | some g ↦
        if is_active now g
        then (let r = new_revocation key g by reason s in
            after_insert (revoked now by g) (
              persist_revocation r (record s {
                grants = Dict.put s.grants key (revoked now by g);
                revocations = Dict.put s.revocations r.id r;
                drawn = s.drawn + 1;
              })))
        else (ok false, s)
  ]
