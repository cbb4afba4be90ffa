-- ===== src/Terminal/Arguments.antt =====
-- The arguments of `_cmd_audit` and `_cmd_grant`, and the choice of a command in `run`
-- (kernel/ui/terminal.py). `is_number` is `str.isdigit`, `int_of` is `int`, where nothing is the
-- ValueError, and `upper` is `str.upper`.
use terminal_agent.Base.{ℕ, String, Bool, Option, none, some, List, [], ◌∷◌, ◌==◌, if◌then◌else◌}
use terminal_agent.Platform.{Platform}
use terminal_agent.Audit.Entry.{AuditEntry}
use terminal_agent.Audit.Log.{AuditLog}
use terminal_agent.Audit.Query as Q
use terminal_agent.Audit.Query.{Sqlite, Query, everything}
use terminal_agent.Capability.{CapabilityRisk}
use terminal_agent.Terminal.{Desk, cmd_grant}

-- `limit`, `tx_id` and `principal`
pub record AuditArgs : Type 0 where
  pub limit : ℕ
  pub tx_id : Option String
  pub principal : Option String

abbrev pub no_args : AuditArgs
no_args = record { limit = 20; tx_id = none; principal = none }

-- `limit = int(args[i])`, and the rest of the loop
abbrev pub with_limit : Option ℕ → (AuditArgs → Option AuditArgs) → AuditArgs → Option AuditArgs
with_limit none rest a = none
with_limit (some n) rest a = rest (record a { limit = n })

module _ (is_number : String → Bool) (int_of : String → Option ℕ) where
  -- the loop over the arguments from the position `i` on
  unfoldable pub audit_args : List String → AuditArgs → Option AuditArgs
  audit_args [] a = some a
  audit_args (arg ∷ []) a = if is_number arg then with_limit (int_of arg) some a else some a
  audit_args (arg ∷ value ∷ args) a =
      let after_value = audit_args args in
      let after_arg = audit_args (value ∷ args) in
      if arg == "tx"
      then after_value (record a { tx_id = some value })
      else if arg == "principal"
      then after_value (record a { principal = some value })
      else if is_number arg
      then with_limit (int_of arg) after_arg a
      else after_arg a

  abbrev pub shown : Sqlite → AuditLog → Option AuditArgs → Option (List AuditEntry)
  shown db l none = none
  shown db l (some a) = some (
      Q.query db (record everything { tx_id = a.tx_id; principal = a.principal; limit = a.limit })
        l)

  -- the entries that `_cmd_audit` prints
  unfoldable pub cmd_audit : Sqlite → List String → AuditLog → Option (List AuditEntry)
  unfolding audit_args
  cmd_audit db args l = shown db l (audit_args args no_args)

-- `CapabilityRisk[name]`; nothing is the KeyError
unfoldable pub risk_named : String → Option CapabilityRisk
risk_named name =
    if name == "READ"
    then some CapabilityRisk.read
    else if name == "STATEFUL"
    then some CapabilityRisk.stateful
    else if name == "IRREVERSIBLE"
    then some CapabilityRisk.irreversible
    else none

module _ (upper : String → String) where
  -- `args[2].upper() if len(args) > 2 else "READ"`
  unfoldable pub risk_arg : List String → String
  risk_arg [] = "READ"
  risk_arg (risk ∷ args) = upper risk

  abbrev pub grant_if : Platform → ℕ → String → String → Option CapabilityRisk → Desk → Desk
  grant_if os now operation resource none d = d
  grant_if os now operation resource (some risk) d = cmd_grant os now operation resource risk d

  unfoldable pub cmd_grant_args : Platform → ℕ → List String → Desk → Desk
  unfolding risk_arg risk_named
  cmd_grant_args os now [] d = d
  cmd_grant_args os now (operation ∷ []) d = d
  cmd_grant_args os now (operation ∷ resource ∷ args) d =
      grant_if os now operation resource (risk_named (risk_arg args)) d
