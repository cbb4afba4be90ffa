-- ===== src/Audit/Entry.antt =====
-- The rows of the audit log (`Provenance`, `AuditEntry` of kernel/audit.py).
use terminal_agent.Base.{ℕ, String, Option, none}
use terminal_agent.Value.{Fields, end, field, num, str, obj, none_or_text}

pub data Provenance : Type 0 where
  human agent web_content system : Provenance

pub record AuditEntry : Type 0 where
  pub id : String
  pub timestamp : ℕ
  pub op : String
  pub principal : String
  pub object : String
  pub args : Fields
  pub result : String
  pub tx_id : Option String
  pub checkpoint_id : Option String
  pub provenance : Provenance
  pub correlation_id : Option String

-- the arguments of a call of `AuditLog.log`
pub record Event : Type 0 where
  pub op : String
  pub principal : String
  pub object : String
  pub args : Fields
  pub result : String
  pub provenance : Provenance
  pub correlation_id : Option String

-- an entry that the kernel itself writes
abbrev pub system_event : String → String → String → Fields → String → Event
system_event op principal object args result = record {
  op = op;
  principal = principal;
  object = object;
  args = args;
  result = result;
  provenance = system;
  correlation_id = none;
}

-- the values of the enumeration
unfoldable pub provenance_value : Provenance → String
provenance_value human = "human"
provenance_value agent = "agent"
provenance_value web_content = "web_content"
provenance_value system = "system"

-- `AuditEntry.to_dict`, the fields in their order
unfoldable pub to_dict : AuditEntry → Fields
unfolding provenance_value
to_dict e = field "id" (str e.id) (
    field "timestamp" (num e.timestamp) (
      field "op" (str e.op) (
        field "principal" (str e.principal) (
          field "object" (str e.object) (
            field "args" (obj e.args) (
              field "result" (str e.result) (
                field "tx_id" (none_or_text e.tx_id) (
                  field "checkpoint_id" (none_or_text e.checkpoint_id) (
                    field "provenance" (str (provenance_value e.provenance))
                      (field "correlation_id" (none_or_text e.correlation_id) end))))))))))
