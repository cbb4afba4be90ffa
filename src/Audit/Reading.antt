-- ===== src/Audit/Reading.antt =====
-- `AuditEntry.from_dict` (kernel/audit.py).
use terminal_agent.Base.{
  suc, ◌≡◌, refl, ap, String, Option, none, some, List, [], ◌∷◌, map, length, ◌==◌, if◌then◌else◌,
}
use terminal_agent.Value.{Fields, get}
use terminal_agent.Value.Reading.{
  ◌>>=◌, to_text, to_number, to_mapping, or_none, required, default, are_arguments, or_none-text,
}
use terminal_agent.Audit.Log.{AuditLog}
use terminal_agent.Audit.Query.{Sqlite, Query, query, export_json}
use terminal_agent.Audit.Entry.{
  Provenance, human, agent, web_content, system, provenance_value, AuditEntry, to_dict,
}

-- `Provenance(value)`
unfoldable pub provenance_of : String → Option Provenance
provenance_of s =
    if s == "human"
    then some human
    else if s == "agent"
    then some agent
    else if s == "web_content"
    then some web_content
    else if s == "system"
    then some system
    else none

abbrev argument_names : List String
argument_names =
    "id" ∷ "timestamp" ∷ "op" ∷ "principal" ∷ "object" ∷ "args" ∷ "result" ∷ "tx_id"
    ∷ "checkpoint_id" ∷ "provenance" ∷ "correlation_id" ∷ []

-- `cls(**d)`
unfoldable pub from_arguments : Provenance → Fields → Option AuditEntry
unfolding get
from_arguments provenance d = do
  id ← required to_text "id" d
  timestamp ← required to_number "timestamp" d
  op ← required to_text "op" d
  principal ← required to_text "principal" d
  object ← required to_text "object" d
  args ← required to_mapping "args" d
  result ← required to_text "result" d
  tx_id ← default (or_none to_text) none "tx_id" d
  checkpoint_id ← default (or_none to_text) none "checkpoint_id" d
  correlation_id ← default (or_none to_text) none "correlation_id" d
  some (record {
    id = id;
    timestamp = timestamp;
    op = op;
    principal = principal;
    object = object;
    args = args;
    result = result;
    tx_id = tx_id;
    checkpoint_id = checkpoint_id;
    provenance = provenance;
    correlation_id = correlation_id;
  })

unfoldable pub from_dict : Fields → Option AuditEntry
unfolding get provenance_of from_arguments
from_dict d = do
  provenance ← required to_text "provenance" d >>= provenance_of
  if are_arguments argument_names d then from_arguments provenance d else none

provenance_of-value : (p : Provenance) → provenance_of (provenance_value p) ≡ some p
unfolding provenance_of provenance_value
provenance_of-value human = refl
provenance_of-value agent = refl
provenance_of-value web_content = refl
provenance_of-value system = refl

-- An entry is read back from its dict.
from_dict-to_dict : (e : AuditEntry) → from_dict (to_dict e) ≡ some e
unfolding from_dict to_dict get from_arguments
from_dict-to_dict e =
    rw
      (
        provenance_of-value e.provenance,
        or_none-text e.tx_id,
        or_none-text e.checkpoint_id,
        or_none-text e.correlation_id,
      )
      refl

length-map : (l : List AuditEntry) → length (map to_dict l) ≡ length l
length-map [] = refl
length-map (e ∷ l) = ap suc (length-map l)

from_dict-each : (l : List AuditEntry) → map from_dict (map to_dict l) ≡ map some l
from_dict-each [] = refl
from_dict-each (e ∷ l) = rw (from_dict-to_dict e, from_dict-each l) refl

-- What an export wrote is read back as the entries that the query answers, as many as it says.
export_json_lem :
    (sqlite : Sqlite) (q : Query) (l : AuditLog)
    → (map from_dict (export_json sqlite q l).0 ≡ map some (query sqlite q l))
      × (length (export_json sqlite q l).0 ≡ (export_json sqlite q l).1)
unfolding export_json
export_json_lem sqlite q l = (from_dict-each (query sqlite q l), length-map (query sqlite q l))
