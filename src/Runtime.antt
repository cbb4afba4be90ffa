-- ===== src/Runtime.antt =====
-- `BrowserAPI` and its parts, which agent code calls (kernel/runtime.py). The broker, the registry and
-- the log are the ones that the kernel wires together; Runtime/Reads has the operations that read.
use Prim.Native.String as S
use terminal_agent.Base.{
  ℕ, String, Bool, true, false, Option, none, some, List, [], ◌∷◌, if◌then◌else◌,
}
use terminal_agent.Platform.{Platform}
use terminal_agent.Value
use terminal_agent.Value.{str, arr, Fields, end, field, texts}
use terminal_agent.Result.{Result, ok, raise, type_error}
use terminal_agent.Audit.Entry.{Event, agent}
use terminal_agent.Audit.Log.{AuditLog, log_if}
use terminal_agent.Capability as C
use terminal_agent.Capability.{Broker}
use terminal_agent.Objects.Object.{ObjectType, ManagedObject}
use terminal_agent.Objects.Snapshot.{same_type}
use terminal_agent.Objects.Manager as M
use terminal_agent.Objects.Manager.{Manager, Creation, Method}
pub mod Gates
pub mod Reads
pub mod Sandbox
pub mod Blocked
pub mod Ipc
pub mod Serve
pub mod Remote

pub record Browser : Type 0 where
  pub principal : String
  pub caps : Broker
  pub objects : Manager
  pub audit : Option AuditLog
  pub auto_approve : Bool

-- an operation's answer or exception, and the browser after it
abbrev pub Action : Type 0 → Type 0
Action A = Browser → Result A × Browser

-- what follows a check that does not raise
unfoldable pub go_on :
    {A : Type 0} → Action A → Browser → Result Bool × Option AuditLog → Result A × Browser
go_on next b (raise e, sink) = (raise e, record b { audit = sink })
go_on next b (ok _, sink) = next (record b { audit = sink })

module _ (os : Platform) (now : ℕ) where
  -- `_require_cap`, and what follows if it does not raise
  unfoldable pub require_cap : {A : Type 0} → String → String → Action A → Action A
  unfolding go_on
  require_cap operation resource next b =
      go_on next b (C.require os now b.principal operation resource b.caps b.audit)

  -- `_log`; the source takes the log for given, here nothing is written where there is none
  unfoldable pub log_as_agent : String → String → Fields → String → Browser → Browser
  log_as_agent op object args result b =
      let e : Event = record {
        op = op;
        principal = b.principal;
        object = object;
        args = args;
        result = result;
        provenance = agent;
        correlation_id = none;
      } in
      record b { audit = log_if os now e b.audit }

  -- `objects.create`, logged under another name with the new identity
  unfoldable pub create_logged : String → Creation → Fields → String → Action ManagedObject
  create_logged op c args result b =
      let (o, objects, sink) = M.create os now c b.objects b.audit in
      (ok o, log_as_agent op o.id args result (record b { objects = objects; audit = sink }))

  -- `objects.require`, then the test of the class
  unfoldable pub require_type : ObjectType → String → Action ManagedObject
  require_type t id b = elim (M.require id b.objects) [
    | raise e ↦ (raise e, b)
    | ok o ↦ if same_type o.type t then (ok o, b) else (raise (type_error id), b)
  ]

  -- a call that goes on if the one before did not raise
  abbrev pub and_then : {A B : Type 0} → (A → Action B) → Result A × Browser → Result B × Browser
  and_then next (raise e, b) = (raise e, b)
  and_then next (ok a, b) = next a b

  -- a method of an object that was got, then what is logged
  unfoldable pub call_method : Method → (Browser → Browser) → ManagedObject → Action Unit
  call_method f after o b =
      let (answer, objects) = M.call_on now o.id f b.objects in
      elim answer [
        | raise e ↦ (raise e, record b { objects = objects })
        | ok u ↦ (ok tt, after (record b { objects = objects }))
      ]

  -- `TabAPI`
  unfoldable pub tab_open : String → Action ManagedObject
  tab_open url = require_cap "tab.create" "*" (
      create_logged "tab.open" (Creation.tab (some url) none) (field "url" (str url) end) "success")

  unfoldable pub tab_get : String → Action ManagedObject
  tab_get id = require_cap "tab.read" id (require_type ObjectType.tab id)

  unfoldable pub tab_list : Action (List ManagedObject)
  tab_list = require_cap "tab.list" "*" (λ b. (ok (M.list_by_type ObjectType.tab b.objects), b))

  unfoldable pub tab_close : String → Action Bool
  tab_close id = require_cap "tab.close" id (λ b.
      let (gone, objects, sink) = M.delete os now id b.objects b.audit in
      (
        ok gone,
        log_as_agent "tab.close" id end (if gone then "success" else "not_found")
            (record b { objects = objects; audit = sink }),
      ))

  unfoldable pub tab_navigate : String → String → Action Unit
  tab_navigate id url = require_cap "tab.navigate" id (λ b.
      and_then
        (call_method (Method.navigate url)
          (log_as_agent "tab.navigate" id (field "url" (str url) end) "success"))
        (tab_get id b))

  unfoldable pub tab_wait_for : String → String → Action Unit
  tab_wait_for id state =
      require_cap "tab.read" id
        (λ b. and_then (call_method (Method.wait_for state) (λ c. c)) (tab_get id b))

  -- `FormAPI`
  unfoldable pub form_find : String → String → Action ManagedObject
  form_find tab_id form_type = require_cap "form.read" (S.◌++◌ tab_id ":*") (
      create_logged "form.find" (Creation.form tab_id (some form_type))
        (field "tab_id" (str tab_id) (field "type" (str form_type) end)) "found")

  unfoldable pub form_get : String → Action ManagedObject
  form_get id = require_cap "form.read" id (require_type ObjectType.form id)

  unfoldable pub form_fill : String → Fields → Action Unit
  form_fill id values = require_cap "form.fill" id (λ b.
      and_then
        (call_method (Method.fill values) (
          log_as_agent "form.fill" id (field "fields" (arr (texts (Value.keys values))) end)
            "success"))
        (form_get id b))

  unfoldable pub form_clear : String → Action Unit
  form_clear id = require_cap "form.fill" id (λ b.
      and_then (call_method Method.clear (log_as_agent "form.clear" id end "success"))
        (form_get id b))

  unfoldable pub form_submit : String → Action Unit
  form_submit id = require_cap "form.submit" id (λ b.
      and_then (λ o c. (ok tt, log_as_agent "form.submit" id end "success" c)) (form_get id b))

  -- `WorkspaceAPI`
  unfoldable pub workspace_create : String → Action ManagedObject
  workspace_create name = require_cap "workspace.create" "*" (
      create_logged "workspace.create" (Creation.workspace (some name))
        (field "name" (str name) end) "success")

  unfoldable pub workspace_get : String → Action ManagedObject
  workspace_get id = require_cap "workspace.read" id (require_type ObjectType.workspace id)

  unfoldable pub workspace_list : Action (List ManagedObject)
  workspace_list =
      require_cap "workspace.list" "*"
        (λ b. (ok (M.list_by_type ObjectType.workspace b.objects), b))

  -- `HumanAPI.approve`
  unfoldable pub human_approve : String → Action Bool
  human_approve message b =
      let b' =
        log_as_agent "human.approve" "user" (field "message" (str message) end) "requested" b in
      (
        ok b.auto_approve,
        log_as_agent "human.approve" "user" end
            (if b.auto_approve then "auto_approved" else "denied") b',
      )

-- `HumanAPI.set_auto_approve`
unfoldable pub set_auto_approve : Bool → Browser → Browser
set_auto_approve value b = record b { auto_approve = value }
