-- ===== src/Runtime/Gates.antt =====
-- No operation of the browser interface does anything without a capability (kernel/runtime.py).
use Prim.Native.String as S
use terminal_agent.Base.{ℕ, ◌≡◌, refl, ap, String, Option, Bool-cases, inl, inr}
use terminal_agent.Platform.{Platform}
use terminal_agent.Value.{Value, Fields}
use terminal_agent.Result.{Result, ok, raise, capability_denied}
use terminal_agent.Audit.Log.{log_if}
use terminal_agent.Capability.{caps_of, any_allows, check, check_event, require}
use terminal_agent.Capability.Allowing.{Allows, any_allows_iff}
use terminal_agent.Audit.Query.{Sqlite, Query}
use terminal_agent.Runtime.Reads as Reads
use terminal_agent.Runtime as R
use terminal_agent.Runtime.{Browser, Action, go_on, require_cap}

-- the calls that agent code makes
pub data ApiCall : Type 0 where
  tab_open : (url : String) → ApiCall
  tab_get : (id : String) → ApiCall
  tab_list : ApiCall
  tab_close : (id : String) → ApiCall
  tab_navigate : (id url : String) → ApiCall
  tab_wait_for : (id state : String) → ApiCall
  tab_extract : (id extract_type : String) → ApiCall
  form_find : (tab_id form_type : String) → ApiCall
  form_get : (id : String) → ApiCall
  form_fill : (id : String) → Fields → ApiCall
  form_clear : (id : String) → ApiCall
  form_submit : (id : String) → ApiCall
  workspace_create : (name : String) → ApiCall
  workspace_get : (id : String) → ApiCall
  workspace_list : ApiCall
  audit_query : (principal op object_id tx_id : Option String) → (limit : ℕ) → ApiCall
  audit_count : Query → ApiCall
  audit_transaction_log : (tx_id : String) → ApiCall

-- the operation and the resource that a call is first checked for
abbrev pub operation_of : ApiCall → String
operation_of (tab_open url) = "tab.create"
operation_of (tab_get id) = "tab.read"
operation_of tab_list = "tab.list"
operation_of (tab_close id) = "tab.close"
operation_of (tab_navigate id url) = "tab.navigate"
operation_of (tab_wait_for id state) = "tab.read"
operation_of (form_find tab_id form_type) = "form.read"
operation_of (form_get id) = "form.read"
operation_of (form_fill id values) = "form.fill"
operation_of (form_clear id) = "form.fill"
operation_of (form_submit id) = "form.submit"
operation_of (workspace_create name) = "workspace.create"
operation_of (workspace_get id) = "workspace.read"
operation_of workspace_list = "workspace.list"
operation_of (tab_extract id extract_type) = "tab.read"
operation_of (audit_query principal op object_id tx_id limit) = "audit.read"
operation_of (audit_count q) = "audit.read"
operation_of (audit_transaction_log tx_id) = "audit.read"

abbrev pub resource_of : ApiCall → String
resource_of (tab_open url) = "*"
resource_of (tab_get id) = id
resource_of tab_list = "*"
resource_of (tab_close id) = id
resource_of (tab_navigate id url) = id
resource_of (tab_wait_for id state) = id
resource_of (form_find tab_id form_type) = S.◌++◌ tab_id ":*"
resource_of (form_get id) = id
resource_of (form_fill id values) = id
resource_of (form_clear id) = id
resource_of (form_submit id) = id
resource_of (workspace_create name) = "*"
resource_of (workspace_get id) = id
resource_of workspace_list = "*"
resource_of (tab_extract id extract_type) = id
resource_of (audit_query principal op object_id tx_id limit) = "*"
resource_of (audit_count q) = "*"
resource_of (audit_transaction_log tx_id) = tx_id

-- an answer without its value
unfoldable pub silent {ℓ} : {A : Type ℓ} → Result A × Browser → Result (Unit {0}) × Browser
silent (raise e, b) = (raise e, b)
silent (ok a, b) = (ok tt, b)

module _ (os : Platform) (now : ℕ) where
  require-denied :
      (operation resource : String) (b : Browser)
      → ¬ Allows now operation resource (caps_of b.caps b.principal)
      → require os now b.principal operation resource b.caps b.audit ≡ (
        raise (capability_denied b.principal operation resource),
        log_if os now (check_event b.principal operation resource "denied") b.audit,
      )
  unfolding require check
  require-denied operation resource b h =
      elim (Bool-cases (any_allows now operation resource (caps_of b.caps b.principal))) [
        | inl e ↦
            absurd (h ((any_allows_iff now operation resource (caps_of b.caps b.principal)).0 e))
        | inr e ↦ rw (e, require, check) refl
      ]

  require_cap-denied :
      {A : Type 0} (operation resource : String) (next : Action A) (b : Browser)
      → ¬ Allows now operation resource (caps_of b.caps b.principal)
      → silent (require_cap os now operation resource next b) ≡ (
        raise (capability_denied b.principal operation resource),
        record b {
          audit = log_if os now (check_event b.principal operation resource "denied") b.audit;
        },
      )
  unfolding require_cap go_on silent
  require_cap-denied operation resource next b h =
      ap (λ r. silent (go_on next b r)) (require-denied operation resource b h)

module _ (os : Platform) (now : ℕ) (db : Sqlite) (format : Value → String) where
  unfoldable pub perform : ApiCall → Action (Unit {0})
  perform (tab_open url) b = silent (R.tab_open os now url b)
  perform (tab_get id) b = silent (R.tab_get os now id b)
  perform tab_list b = silent (R.tab_list os now b)
  perform (tab_close id) b = silent (R.tab_close os now id b)
  perform (tab_navigate id url) b = silent (R.tab_navigate os now id url b)
  perform (tab_wait_for id state) b = silent (R.tab_wait_for os now id state b)
  perform (form_find tab_id form_type) b = silent (R.form_find os now tab_id form_type b)
  perform (form_get id) b = silent (R.form_get os now id b)
  perform (form_fill id values) b = silent (R.form_fill os now id values b)
  perform (form_clear id) b = silent (R.form_clear os now id b)
  perform (form_submit id) b = silent (R.form_submit os now id b)
  perform (workspace_create name) b = silent (R.workspace_create os now name b)
  perform (workspace_get id) b = silent (R.workspace_get os now id b)
  perform workspace_list b = silent (R.workspace_list os now b)
  perform (tab_extract id extract_type) b =
      silent (Reads.tab_extract os now format id extract_type b)
  perform (audit_query principal op object_id tx_id limit) b =
      silent (Reads.audit_query os now db principal op object_id tx_id limit b)
  perform (audit_count q) b = silent (Reads.audit_count os now db q b)
  perform (audit_transaction_log tx_id) b = silent (Reads.audit_transaction_log os now db tx_id b)

  -- Each of the eighteen tab, form, workspace and audit calls of an agent whose list has no live
  -- capability for the operation and the resource of the call raises CapabilityDenied with its
  -- names; objects and capabilities stay as they are, and on the log there is one more entry, a
  -- denied check.
  pub perform-denied :
      (call : ApiCall) (b : Browser)
      → ¬ Allows now (operation_of call) (resource_of call) (caps_of b.caps b.principal)
      → perform call b ≡ (
        raise (capability_denied b.principal (operation_of call) (resource_of call)),
        record b {
          audit =
              log_if os now
                (check_event b.principal (operation_of call) (resource_of call) "denied")
                b.audit;
        },
      )
  unfolding perform R.tab_open R.tab_get R.tab_list R.tab_close R.tab_navigate R.tab_wait_for
      R.form_find R.form_get R.form_fill R.form_clear R.form_submit R.workspace_create
      R.workspace_get R.workspace_list Reads.tab_extract Reads.audit_query Reads.audit_count
      Reads.audit_transaction_log
  perform-denied (tab_open url) b h = (require_cap-denied os now "tab.create" "*" _ b h)
  perform-denied (tab_get id) b h = (require_cap-denied os now "tab.read" id _ b h)
  perform-denied tab_list b h = (require_cap-denied os now "tab.list" "*" _ b h)
  perform-denied (tab_close id) b h = (require_cap-denied os now "tab.close" id _ b h)
  perform-denied (tab_navigate id url) b h = (require_cap-denied os now "tab.navigate" id _ b h)
  perform-denied (tab_wait_for id state) b h = (require_cap-denied os now "tab.read" id _ b h)
  perform-denied (form_find tab_id form_type) b h =
      (require_cap-denied os now "form.read" (S.◌++◌ tab_id ":*") _ b h)
  perform-denied (form_get id) b h = (require_cap-denied os now "form.read" id _ b h)
  perform-denied (form_fill id values) b h = (require_cap-denied os now "form.fill" id _ b h)
  perform-denied (form_clear id) b h = (require_cap-denied os now "form.fill" id _ b h)
  perform-denied (form_submit id) b h = (require_cap-denied os now "form.submit" id _ b h)
  perform-denied (workspace_create name) b h =
      (require_cap-denied os now "workspace.create" "*" _ b h)
  perform-denied (workspace_get id) b h = (require_cap-denied os now "workspace.read" id _ b h)
  perform-denied workspace_list b h = (require_cap-denied os now "workspace.list" "*" _ b h)
  perform-denied (tab_extract id extract_type) b h = require_cap-denied os now "tab.read" id _ b h
  perform-denied (audit_query principal op object_id tx_id limit) b h =
      require_cap-denied os now "audit.read" "*" _ b h
  perform-denied (audit_count q) b h = require_cap-denied os now "audit.read" "*" _ b h
  perform-denied (audit_transaction_log tx_id) b h =
      require_cap-denied os now "audit.read" tx_id _ b h
