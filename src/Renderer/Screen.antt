-- ===== src/Renderer/Screen.antt =====
-- What `MockRenderer` (kernel/renderer/mock.py) works on, and the parts of its calls that read a page, a
-- form or an object.
use Prim.Native.String as S
use terminal_agent.Base.{
  ℕ, ◌+◌, String, Bool, true, false, ◌||◌, Option, none, some, List, [], ◌∷◌, ◌==◌, if◌then◌else◌,
}
use terminal_agent.Dict
use terminal_agent.Dict.{Dict}
use terminal_agent.Value.{Value, Fields, end, field, str, num, bool, obj, arr}
use terminal_agent.Audit.Entry.{system, Event}
use terminal_agent.Audit.Log.{AuditLog}
use terminal_agent.Objects.Heap.{Heap, deref}
use terminal_agent.Objects.Object.{ObjectType, ManagedObject}
use terminal_agent.Objects.Snapshot.{same_type}
use terminal_agent.Objects.Manager.{Manager, Method, call_on}
use terminal_agent.Renderer.{
  MockForm, MockPage, extract_readable, extract_forms, extract_links, extract_tables,
}
use terminal_agent.Renderer.Sites.{Sites, generate_404}

pub record Renderer : Type 0 where
  pub registry : Sites
  -- the current page of each tab
  pub tab_pages : Dict MockPage
  -- what was filled into each form
  pub form_data : Dict Fields

-- the renderer with the registry of objects and the log that it works on
pub record Screen : Type 0 where
  pub renderer : Renderer
  pub manager : Manager
  pub audit : Option AuditLog

-- an entry that the renderer writes
abbrev pub renderer_event : String → String → Fields → String → Event
renderer_event op object args result = record {
  op = op;
  principal = "renderer";
  object = object;
  args = args;
  result = result;
  provenance = system;
  correlation_id = none;
}

abbrev pub failed : String → Fields
failed message = field "success" (bool false) (field "error" (str message) end)

-- an object's method or a write to its data, on an object that is there
unfoldable pub act : ℕ → String → Method → Screen → Screen
act now id f w = record w { manager = (call_on now id f w.manager).1 }

unfoldable pub has_type : ObjectType → Option ManagedObject → Bool
unfolding same_type
has_type t none = false
has_type t (some o) = same_type o.type t

-- `page or 404`
unfoldable pub page_or_404 : String → Option MockPage → MockPage
unfolding generate_404
page_or_404 url none = generate_404 url
page_or_404 url (some page) = page

-- `load_time_ms`
abbrev pub navigated : String → MockPage → Fields
navigated url page = field "success" (bool true) (
    field "url" (str url)
      (field "title" (str page.title) (field "load_time_ms" (num page.load_time_ms) end)))

unfoldable pub set_form_data : String → Fields → Screen → Screen
set_form_data form_id d w = record w {
  renderer = record w.renderer { form_data = Dict.put w.renderer.form_data form_id d };
}

-- `self._form_data.get(form_id, {})`
unfoldable pub filled_data : String → Screen → Fields
filled_data form_id w = Dict.get_or w.renderer.form_data form_id end

-- `len(d)`
unfoldable pub field_count : Fields → ℕ
field_count end = 0
field_count (field k v d) = field_count d + 1

-- `d.get(key, default)` on an object's data
unfoldable pub data_or : Heap → ManagedObject → String → Value → Value
data_or h o key default = elim (Dict.get o.slots key) [ none ↦ default | some s ↦ deref h s ]

-- the first form of the type, or the first form when no type is asked for
unfoldable pub first_form : String → List MockForm → Option MockForm
first_form form_type [] = none
first_form form_type (f ∷ fs) =
    let rest = first_form form_type fs in
    if form_type == "" || f.form_type == form_type then some f else rest

-- the branches of `extract` on the page of a tab
unfoldable pub extract_page : String → MockPage → Fields
unfolding extract_readable extract_forms extract_links extract_tables
extract_page extract_type page =
    if extract_type == "readable"
    then extract_readable page
    else if extract_type == "forms"
    then field "forms" (arr (extract_forms page)) end
    else if extract_type == "links"
    then field "links" (arr (extract_links page)) end
    else if extract_type == "tables"
    then field "tables" (arr (extract_tables page)) end
    else field "error" (str (S.◌++◌ "Unknown extract type: " extract_type)) end

unfoldable pub extract : String → String → Screen → Fields
unfolding extract_page
extract tab_id extract_type w = elim (Dict.get w.renderer.tab_pages tab_id) [
  | none ↦ field "error" (str (S.◌++◌ "No page loaded for tab " tab_id)) end
  | some page ↦ extract_page extract_type page
]

-- the answer when no callback is set
unfoldable pub mock_response : String → Value → Value → Fields
mock_response form_id action method = field "success" (bool true) (
    field "submitted" (bool true) (
      field "form_id" (str form_id) (
        field "action" action (
          field "method" method (
            field "response"
              (obj (
                field "status" (num 200)
                  (field "body" (str "Form submitted successfully (mock)") end)))
              end)))))

abbrev pub answer : Option (String → Fields → Fields) → String → Fields → Fields → Fields
answer none form_id filled response = response
answer (some callback) form_id filled response = callback form_id filled
