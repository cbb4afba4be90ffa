-- ===== src/Objects/Manager.antt =====
-- `ObjectManager` (kernel/objects.py).
use Prim.Native.String as S
use terminal_agent.Base.{
  ℕ, ◌+◌, String, Bool, true, false, Option, none, some, List, [], ◌∷◌, select, show, if◌then◌else◌,
}
use terminal_agent.Dict
use terminal_agent.Dict.{Dict}
use terminal_agent.Platform.{Platform}
use terminal_agent.Value.{Value, Fields, end, field, str}
use terminal_agent.Result.{Result, ok, raise, key_error}
use terminal_agent.Audit.Entry.{system_event}
use terminal_agent.Audit.Log.{AuditLog, log_if}
use terminal_agent.Objects.Heap.{Heap, empty, Data}
use terminal_agent.Objects.Object.{
  ObjectType, type_value, ManagedObject, Outcome, tab_data, form_data, workspace_data, put_all,
}
use terminal_agent.Objects.Object
use terminal_agent.Objects.Snapshot.{ObjectState, same_type, snapshot, restore}

pub record Manager : Type 0 where
  pub heap : Heap
  pub objects : Dict ManagedObject
  pub counters : ObjectType → ℕ

abbrev pub init : Manager
init = record { heap = empty; objects = []; counters = λ _. 0 }

-- `f"{obj_type.value}:{n}"`
unfoldable pub object_id : ObjectType → ℕ → String
object_id t n = S.◌++◌ (type_value t) (S.◌++◌ ":" (show n))

-- `_next_id`, after which the counter is one more
unfoldable pub next_id : ObjectType → Manager → String × Manager
unfolding object_id same_type
next_id t m =
    let n = m.counters t + 1 in
    (object_id t n, record m { counters = λ u. if same_type u t then n else m.counters u })

-- The type and the keyword arguments of `create`, by the class that they select; an argument that is
-- left out is none.
pub data Creation : Type 0 where
  tab : (url title : Option String) → Creation
  form : (tab_id : String) (form_type : Option String) → Creation
  workspace : (name : Option String) → Creation
  -- a type without a class of its own
  other : ObjectType → Dict Value → Creation

abbrev pub type_of : Creation → ObjectType
type_of (tab url title) = ObjectType.tab
type_of (form tab_id form_type) = ObjectType.form
type_of (workspace name) = ObjectType.workspace
type_of (other t kwargs) = t

abbrev to_fields : Dict Value → Fields
to_fields [] = end
to_fields ((k, v) ∷ d) = field k v (to_fields d)

abbrev given : String → Option String → Fields → Fields
given k none d = d
given k (some v) d = field k (str v) d

-- the default of a text argument
abbrev or_empty : Option String → String
or_empty none = ""
or_empty (some s) = s

abbrev pub kwargs_of : Creation → Fields
kwargs_of (tab url title) = given "url" url (given "title" title end)
kwargs_of (form tab_id form_type) = field "tab_id" (str tab_id) (given "form_type" form_type end)
kwargs_of (workspace name) = given "name" name end
kwargs_of (other t kwargs) = to_fields kwargs

-- what the class's constructor puts into the object
unfoldable pub initial_data : ℕ → Creation → Heap → Data × Heap
unfolding tab_data form_data workspace_data put_all
initial_data now (tab url title) h = (tab_data (or_empty url) (or_empty title), h)
initial_data now (form tab_id form_type) h = form_data tab_id (or_empty form_type) h
initial_data now (workspace name) h = workspace_data (or_empty name) h
initial_data now (other t kwargs) h = put_all now kwargs h []

module _ (os : Platform) (now : ℕ) where
  unfoldable pub create :
      Creation → Manager → Option AuditLog → ManagedObject × Manager × Option AuditLog
  unfolding next_id initial_data
  create c m sink =
      let t = type_of c in
      let (id, m') = next_id t m in
      let (d, h) = initial_data now c m.heap in
      let o : ManagedObject = record {
        id = id;
        type = t;
        slots = d;
        created_at = now;
        updated_at = now;
      } in
      (
        o,
        record m' { heap = h; objects = Dict.put m.objects id o },
        log_if os now
            (system_event (S.◌++◌ (type_value t) ".create") "system" id (kwargs_of c) "created")
            sink,
      )

  unfoldable pub delete : String → Manager → Option AuditLog → Bool × Manager × Option AuditLog
  delete id m sink = elim (Dict.get m.objects id) [
    | none ↦ (false, m, sink)
    | some o ↦ (
      true,
      record m { objects = Dict.remove m.objects id },
      log_if os now (system_event (S.◌++◌ (type_value o.type) ".delete") "system" id end "deleted")
          sink,
    )
  ]

unfoldable pub get : String → Manager → Option ManagedObject
get id m = Dict.get m.objects id

unfoldable pub require : String → Manager → Result ManagedObject
unfolding get
require id m = elim (get id m) [ none ↦ raise (key_error id) | some o ↦ ok o ]

unfoldable pub list_by_type : ObjectType → Manager → List ManagedObject
unfolding same_type
list_by_type t m = select (λ o. same_type o.type t) (Dict.values m.objects)

-- the calls of the objects' methods, and direct writes to an object's data
pub data Method : Type 0 where
  set : String → Value → Method
  update : Dict Value → Method
  navigate : String → Method
  wait_for : String → Method
  fill : Fields → Method
  clear : Method
  add_tab : String → Method
  remove_tab : String → Method
  assign : String → Value → Method

unfoldable pub call : ℕ → Method → Heap → ManagedObject → Outcome
call now (set k v) h o = Object.set now k v h o
call now (update kwargs) h o = Object.update now kwargs h o
call now (navigate url) h o = Object.navigate now url h o
call now (wait_for state) h o = Object.wait_for now state h o
call now (fill values) h o = Object.fill now values h o
call now clear h o = Object.clear now h o
call now (add_tab t) h o = Object.add_tab now t h o
call now (remove_tab t) h o = Object.remove_tab now t h o
call now (assign k v) h o = Object.assign k v h o

-- A method of a registered object, which the registry and its holders share. On another identity
-- there is no object to call.
unfoldable pub call_on : ℕ → String → Method → Manager → Result (Unit {0}) × Manager
unfolding call
call_on now id f m = elim (Dict.get m.objects id) [
  | none ↦ (raise (key_error id), m)
  | some o ↦
      let (r, h, o') = call now f m.heap o in
      (r, record m { heap = h; objects = Dict.put m.objects id o' })
]

module _ (os : Platform) (now : ℕ) where
  -- the loop of `snapshot_all`
  unfoldable pub snapshot_each : Dict ManagedObject → Heap → Dict ObjectState × Heap
  unfolding snapshot
  snapshot_each [] h = ([], h)
  snapshot_each ((id, o) ∷ objects) h =
      let (s, h1) = snapshot os now h o in
      let (states, h') = snapshot_each objects h1 in ((id, s) ∷ states, h')

  unfoldable pub snapshot_all : Manager → Dict ObjectState × Manager
  unfolding snapshot_each
  snapshot_all m =
      let (states, h) = snapshot_each m.objects m.heap in (states, record m { heap = h })

-- one round of `restore_snapshot`; an object that is gone is passed over
unfoldable pub restore_one : ℕ → String → ObjectState → Manager → Result (Unit {0}) × Manager
unfolding restore
restore_one now id s m = elim (Dict.get m.objects id) [
  | none ↦ (ok tt, m)
  | some o ↦
      let (r, h, o') = restore now s m.heap o in
      (r, record m { heap = h; objects = Dict.put m.objects id o' })
]

abbrev then_restore :
    (Manager → Result (Unit {0}) × Manager)
    → Result (Unit {0}) × Manager
    → Result (Unit {0}) × Manager
then_restore rest (ok u, m) = rest m
then_restore rest (raise e, m) = (raise e, m)

-- the loop of `restore_snapshot`; an exception ends it where it is raised
unfoldable pub restore_snapshot : ℕ → Dict ObjectState → Manager → Result (Unit {0}) × Manager
unfolding restore_one
restore_snapshot now [] m = (ok tt, m)
restore_snapshot now ((id, s) ∷ states) m =
    then_restore (restore_snapshot now states) (restore_one now id s m)
