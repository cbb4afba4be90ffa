-- ===== src/Tests/Dicts.antt =====
-- Dicts that are no audit entry, and one that leaves the defaults (kernel/audit.py).
use terminal_agent.Base.{◌≡◌, refl, String, none, some}
use terminal_agent.Value.{Fields, end, field, str, num, obj, get, put}
use terminal_agent.Audit.Entry.{Provenance}
use terminal_agent.Audit.Reading.{from_dict, provenance_of, from_arguments}

-- an entry's dict without its last three optional fields
abbrev written : String → Fields
written provenance = field "id" (str "a") (
    field "timestamp" (num 3) (
      field "op" (str "read") (
        field "principal" (str "agent") (
          field "object" (str "tab:1") (
            field "args" (obj end)
              (field "result" (str "ok") (field "provenance" (str provenance) end)))))))

defaults_taken :
    from_dict (written "agent")
    ≡ some (record {
      id = "a";
      timestamp = 3;
      op = "read";
      principal = "agent";
      object = "tab:1";
      args = end;
      result = "ok";
      tx_id = none;
      checkpoint_id = none;
      provenance = Provenance.agent;
      correlation_id = none;
    })
unfolding from_dict from_arguments provenance_of get
defaults_taken = refl

unknown_provenance_refused : from_dict (written "robot") ≡ none
unfolding from_dict from_arguments provenance_of get
unknown_provenance_refused = refl

unknown_argument_refused : from_dict (put (written "agent") "level" (num 1)) ≡ none
unfolding from_dict from_arguments provenance_of get put
unknown_argument_refused = refl
