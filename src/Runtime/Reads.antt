-- ===== src/Runtime/Reads.antt =====
-- The operations of `BrowserAPI` that read: `TabAPI.extract` and `AuditAPI` (kernel/runtime.py), and
-- `BrowserAPI.transaction`.
use Prim.Native.String as S
use terminal_agent.Base.{ℕ, String, Option, none, some, List, map}
use terminal_agent.Dict
use terminal_agent.Platform.{Platform}
use terminal_agent.Value.{Value, str, Fields, end, field}
use terminal_agent.Result.{Result, ok, raise, key_error, attribute_error}
use terminal_agent.Audit.Entry.{to_dict}
use terminal_agent.Audit.Log.{AuditLog}
use terminal_agent.Audit.Query as Q
use terminal_agent.Audit.Query.{Sqlite, Query, everything}
use terminal_agent.Objects.Heap.{Heap, deref}
use terminal_agent.Objects.Object.{ManagedObject}
use terminal_agent.Runtime.{Browser, Action, require_cap, and_then, tab_get}
use terminal_agent.Transactions.{begin}
use terminal_agent.Transactions.State.{Coordinator, TransactionContext}

-- `tab._data[key]`
unfoldable pub attribute : String → Heap → ManagedObject → Result Value
attribute key h o = elim (Dict.get o.slots key) [
  | none ↦ raise (key_error key)
  | some s ↦ ok (deref h s)
]

-- `self._b._audit`, which an interface without a log has not
unfoldable pub read_log {ℓ} : {A : Type ℓ} → String → (AuditLog → A) → Option AuditLog → Result A
read_log name read none = raise (attribute_error name)
read_log name read (some l) = ok (read l)

module _ (os : Platform) (now : ℕ) where
  -- `format` is the text of a value in an f-string
  module _ (format : Value → String) where
    -- the dict that `extract` returns
    unfoldable pub extracted : String → Result Value → Result Value → Result Fields
    extracted extract_type (raise e) title = raise e
    extracted extract_type (ok url) (raise e) = raise e
    extracted extract_type (ok url) (ok title) = ok (
        field "type" (str extract_type) (
          field "url" url (
            field "title" title (
              field "content"
                (str (
                  S.◌++◌ "[Mock "
                    (S.◌++◌ extract_type (S.◌++◌ " content from " (S.◌++◌ (format url) "]")))))
                end))))

    unfoldable pub tab_extract : String → String → Action Fields
    unfolding extracted attribute
    tab_extract id extract_type = require_cap os now "tab.read" id (λ b.
        and_then os now
          (λ o c. (
            extracted extract_type (attribute "url" c.objects.heap o)
                (attribute "title" c.objects.heap o),
            c,
          ))
          (tab_get os now id b))

  -- `AuditAPI`
  module _ (db : Sqlite) where
    unfoldable pub audit_query :
        (principal op object_id tx_id : Option String) → ℕ → Action (List Fields)
    unfolding read_log
    audit_query principal op object_id tx_id limit = require_cap os now "audit.read" "*" (λ b. (
      read_log "query"
          (λ l. map to_dict (
            Q.query db
              (record everything {
                principal = principal;
                op = op;
                object_id = object_id;
                tx_id = tx_id;
                limit = limit;
              })
              l))
          b.audit,
      b,
    ))

    unfoldable pub audit_count : Query → Action ℕ
    unfolding read_log
    audit_count q =
        require_cap os now "audit.read" "*" (λ b. (read_log "count" (Q.count db q) b.audit, b))

    unfoldable pub audit_transaction_log : String → Action (List Fields)
    unfolding read_log
    audit_transaction_log tx_id = require_cap os now "audit.read" tx_id (λ b. (
      read_log "get_transaction_log" (λ l. map to_dict (Q.get_transaction_log db tx_id l)) b.audit,
      b,
    ))

  -- `BrowserAPI.transaction`
  unfoldable pub transaction : Coordinator → Browser → TransactionContext × Coordinator × Browser
  transaction c b =
      let (context, w) =
        begin os now (record { coordinator = c; manager = b.objects; audit = b.audit }) in
      (context, w.coordinator, record b { objects = w.manager; audit = w.audit })
