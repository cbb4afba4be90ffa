-- ===== src/Objects/Object.antt =====
-- `ObjectType`, `ManagedObject`, `Tab`, `Form` and `Workspace` (kernel/objects.py). A method gets the
-- heap and its object, and returns both; listeners are not modelled.
use terminal_agent.Base.{
  ℕ, String, Bool, false, not, ◌||◌, Option, none, some, [], ◌∷◌, ◌==◌, if◌then◌else◌,
}
use terminal_agent.Dict
use terminal_agent.Dict.{Dict}
use terminal_agent.Value
use terminal_agent.Value.{
  Value, null, bool, num, str, arr, obj, Items, nil, cons, Fields, end, field,
}
use terminal_agent.Result.{Result, ok, raise, key_error, type_error}
use terminal_agent.Objects.Heap.{Heap, alloc, write, Slot, atom, ref, Data, box}

pub data ObjectType : Type 0 where
  tab document form download workspace transaction checkpoint credential : ObjectType

-- the values of the enumeration
unfoldable pub type_value : ObjectType → String
type_value tab = "tab"
type_value document = "doc"
type_value form = "form"
type_value download = "download"
type_value workspace = "workspace"
type_value transaction = "tx"
type_value checkpoint = "cp"
type_value credential = "cred"

pub ObjectType-discrete : Discrete ObjectType
ObjectType-discrete = hlevel

pub record ManagedObject : Type 0 where
  pub id : String
  pub type : ObjectType
  pub slots : Data
  pub created_at : ℕ
  pub updated_at : ℕ

-- what a method leaves: an answer or an exception, the heap and the object
abbrev pub Outcome : Type 0
Outcome = Result Unit × Heap × ManagedObject

-- the attributes that the constructors set
unfoldable pub tab_data : String → String → Data
tab_data url title =
    ("url", atom (str url))
    ∷ ("title", atom (str title))
    ∷ ("load_state", atom (str "idle"))
    ∷ ("workspace", atom null)
    ∷ []

unfoldable pub form_data : String → String → Heap → Data × Heap
unfolding alloc
form_data tab_id form_type h =
    let (fields, h1) = alloc (obj end) h in
    let (filled, h2) = alloc (obj end) h1 in
    (
      ("tab_id", atom (str tab_id))
          ∷ ("form_type", atom (str form_type))
          ∷ ("fields", ref fields)
          ∷ ("filled", ref filled)
          ∷ [],
      h2,
    )

unfoldable pub workspace_data : String → Heap → Data × Heap
unfolding alloc
workspace_data name h =
    let (tabs, h1) = alloc (arr nil) h in
    let (storage, h2) = alloc (obj end) h1 in
    let (policies, h3) = alloc (obj end) h2 in
    (
      ("name", atom (str name))
          ∷ ("tabs", ref tabs)
          ∷ ("storage", ref storage)
          ∷ ("policies", ref policies)
          ∷ [],
      h3,
    )

-- `o._data[key] = value`, as the renderer writes it (kernel/renderer/mock.py)
unfoldable pub assign : String → Value → Heap → ManagedObject → Outcome
assign key value h o =
    let (s, h') = box value h in (ok tt, h', record o { slots = Dict.put o.slots key s })

module _ (now : ℕ) where
  -- `ManagedObject.set`
  unfoldable pub set : String → Value → Heap → ManagedObject → Outcome
  set key value h o =
      let (s, h') = box value h in
      (ok tt, h', record o { slots = Dict.put o.slots key s; updated_at = now })

  -- the assignments of `update`
  unfoldable pub put_all : Dict Value → Heap → Data → Data × Heap
  put_all [] h d = (d, h)
  put_all ((k, v) ∷ kwargs) h d = let (s, h') = box v h in put_all kwargs h' (Dict.put d k s)

  -- `ManagedObject.update`
  unfoldable pub update : Dict Value → Heap → ManagedObject → Outcome
  update kwargs h o =
      let (d, h') = put_all kwargs h o.slots in
      (ok tt, h', record o { slots = d; updated_at = now })

  -- `Tab.navigate`
  unfoldable pub navigate : String → Heap → ManagedObject → Outcome
  navigate url h o = (
    ok tt,
    h,
    record o {
      slots =
          Dict.put (Dict.put o.slots "url" (atom (str url))) "load_state" (atom (str "loading"));
      updated_at = now;
    },
  )

  -- `Tab.wait_for`
  unfoldable pub wait_for : String → Heap → ManagedObject → Outcome
  wait_for state h o = (
    ok tt,
    h,
    record o { slots = Dict.put o.slots "load_state" (atom (str state)); updated_at = now },
  )

  -- `self._data["filled"].update(values)`: the dict is changed in place
  abbrev pub fill_cell : Fields → ℕ → Value → Heap → ManagedObject → Outcome
  fill_cell values a (obj d) h o =
      (ok tt, write a (obj (Value.update d values)) h, record o { updated_at = now })
  fill_cell values a _ h o = (raise (type_error o.id), h, o)

  abbrev pub fill_slot : Fields → Option Slot → Heap → ManagedObject → Outcome
  fill_slot values none h o = (raise (key_error "filled"), h, o)
  fill_slot values (some (atom v)) h o = (raise (type_error o.id), h, o)
  fill_slot values (some (ref a)) h o = fill_cell values a (h.cell a) h o

  -- `Form.fill`
  unfoldable pub fill : Fields → Heap → ManagedObject → Outcome
  fill values h o = fill_slot values (Dict.get o.slots "filled") h o

  -- `Form.clear`: a new dict takes the old one's place
  unfoldable pub clear : Heap → ManagedObject → Outcome
  unfolding alloc
  clear h o =
      let (a, h') = alloc (obj end) h in
      (ok tt, h', record o { slots = Dict.put o.slots "filled" (ref a); updated_at = now })

-- `tab_id in tabs`
unfoldable pub holds : Items → String → Bool
holds nil s = false
holds (cons (str t) xs) s = t == s || holds xs s
holds (cons v xs) s = holds xs s

-- `tabs.append(tab_id)`
unfoldable pub push : Items → String → Items
push nil s = cons (str s) nil
push (cons v xs) s = cons v (push xs s)

-- `tabs.remove(tab_id)`, which takes the first
unfoldable pub drop : Items → String → Items
drop nil s = nil
drop (cons (str t) xs) s = let rest = drop xs s in if t == s then xs else cons (str t) rest
drop (cons v xs) s = cons v (drop xs s)

module _ (now : ℕ) where
  abbrev pub tabs_cell :
      (Items → String → Bool)
      → (Items → String → Items)
      → String
      → ℕ
      → Value
      → Heap
      → ManagedObject
      → Outcome
  tabs_cell test change tab_id a (arr xs) h o =
      if test xs tab_id
      then (ok tt, write a (arr (change xs tab_id)) h, record o { updated_at = now })
      else (ok tt, h, o)
  tabs_cell test change tab_id a _ h o = (raise (type_error o.id), h, o)

  abbrev pub tabs_slot :
      (Items → String → Bool)
      → (Items → String → Items)
      → String
      → Option Slot
      → Heap
      → ManagedObject
      → Outcome
  tabs_slot test change tab_id none h o = (raise (key_error "tabs"), h, o)
  tabs_slot test change tab_id (some (atom v)) h o = (raise (type_error o.id), h, o)
  tabs_slot test change tab_id (some (ref a)) h o = tabs_cell test change tab_id a (h.cell a) h o

  -- `Workspace.add_tab`: the list is changed in place
  unfoldable pub add_tab : String → Heap → ManagedObject → Outcome
  unfolding holds push
  add_tab tab_id h o =
      tabs_slot (λ xs s. not (holds xs s)) push tab_id (Dict.get o.slots "tabs") h o

  -- `Workspace.remove_tab`
  unfoldable pub remove_tab : String → Heap → ManagedObject → Outcome
  unfolding holds drop
  remove_tab tab_id h o = tabs_slot holds drop tab_id (Dict.get o.slots "tabs") h o
