-- ===== src/Audit/Log.antt =====
-- `AuditLog`: the state and the operations that write (kernel/audit.py). The table keeps its rows in
-- the order of the inserts.
use Prim.Native.String as S
use terminal_agent.Base.{ℕ, ◌+◌, String, Bool, true, Option, none, some, List, [], ◌∷◌, ◌++◌}
use terminal_agent.Platform.{Platform}
use terminal_agent.Audit.Entry.{AuditEntry, Event}
use terminal_agent.Audit.Redact.{redact}

pub record AuditLog : Type 0 where
  pub rows : List AuditEntry
  -- how many identities the log has drawn
  pub drawn : ℕ
  pub current_tx : Option String
  pub current_checkpoint : Option String
  pub workspace_salt : String
  pub hash_field_names : Bool

-- `AuditLog()` on a new database
abbrev pub init : String → AuditLog
init salt = record {
  rows = [];
  drawn = 0;
  current_tx = none;
  current_checkpoint = none;
  workspace_salt = salt;
  hash_field_names = true;
}

module _ (os : Platform) where
  unfoldable pub hash_field_name : AuditLog → String → String
  hash_field_name l field_name = os.sha256_hex8 (S.◌++◌ field_name (S.◌++◌ ":" l.workspace_salt))

  unfoldable pub entry_of : ℕ → Event → AuditLog → AuditEntry
  entry_of now e l = record {
    id = os.uuid4 l.drawn;
    timestamp = now;
    op = e.op;
    principal = e.principal;
    object = e.object;
    args = redact l.hash_field_names (hash_field_name l) e.args;
    result = e.result;
    tx_id = l.current_tx;
    checkpoint_id = l.current_checkpoint;
    provenance = e.provenance;
    correlation_id = e.correlation_id;
  }

  unfoldable pub log : ℕ → Event → AuditLog → AuditLog
  unfolding entry_of
  log now e l = record l { rows = l.rows ++ entry_of now e l ∷ []; drawn = l.drawn + 1 }

module _ (os : Platform) (now : ℕ) where
  -- `if self._audit: self._audit.log(…)`
  unfoldable pub log_if : Event → Option AuditLog → Option AuditLog
  log_if e none = none
  log_if e (some l) = some (log os now e l)

unfoldable pub set_transaction_context : Option String → Option String → AuditLog → AuditLog
set_transaction_context tx_id checkpoint_id l = record l {
  current_tx = tx_id;
  current_checkpoint = checkpoint_id;
}

unfoldable pub clear_transaction_context : AuditLog → AuditLog
clear_transaction_context l = record l { current_tx = none; current_checkpoint = none }
