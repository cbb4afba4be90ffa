-- ===== src/Renderer/Calls.antt =====
-- `MockRenderer` (kernel/renderer/mock.py). The renderer keeps what was filled into a form in a dict
-- of its own beside the form's object. `urlparse` is as in Renderer.Sites; the parameter `callback` is
-- the submit callback, if one is set, as a function of the identity and the dict without effects. The
-- pause of `navigate` is not modelled. A form that `find_form` makes gets a copy of the page's fields,
-- where the source shares their dict; no call changes it in place.
use Prim.Native.String as S
use terminal_agent.Base.{
  ℕ, String, Bool, true, false, Option, none, some, [], ◌∷◌, is_some, if◌then◌else◌,
}
use terminal_agent.Dict
use terminal_agent.Dict.{Dict}
use terminal_agent.Value
use terminal_agent.Value.{Value, Fields, end, field, str, num, bool, obj, arr, texts, keys}
use terminal_agent.Platform.{Platform}
use terminal_agent.Audit.Entry.{Event}
use terminal_agent.Audit.Log.{log_if}
use terminal_agent.Objects.Object.{ObjectType}
use terminal_agent.Objects.Manager as M
use terminal_agent.Objects.Manager.{Manager, Creation, Method, call_on, create}
use terminal_agent.Renderer.{MockForm, loading, complete, load_state_value}
use terminal_agent.Renderer.Sites.{get_page}
use terminal_agent.Renderer.Screen.{
  Screen, renderer_event, failed, act, has_type, page_or_404, navigated, set_form_data, filled_data,
  field_count, data_or, first_form, mock_response, answer,
}

module _ (now : ℕ) where
  unfoldable pub wait_for : String → String → Screen → Bool × Screen
  unfolding act
  wait_for tab_id state w =
      if is_some (M.get tab_id w.manager)
      then (true, act now tab_id (Method.assign "load_state" (str state)) w)
      else (false, w)

  unfoldable pub clear_form : String → Screen → Fields × Screen
  unfolding act set_form_data
  clear_form form_id w =
      if is_some (M.get form_id w.manager)
      then (
        field "success" (bool true) end,
        act now form_id (Method.set "filled" (obj end)) (set_form_data form_id end w),
      )
      else (failed (S.◌++◌ "Form not found: " form_id), w)

module _ (os : Platform) (now : ℕ) where
  abbrev note : Event → Screen → Screen
  note e w = record w { audit = log_if os now e w.audit }

  unfoldable pub navigate : (String → String × String) → String → String → Screen → Fields × Screen
  unfolding act page_or_404 get_page load_state_value has_type
  navigate urlparse tab_id url w =
      let page = page_or_404 url (get_page urlparse url w.renderer.registry) in
      let begun =
        act now tab_id
          (Method.update (("url", str url) ∷ ("load_state", str (load_state_value loading)) ∷ []))
          w in
      let shown =
        act now tab_id
          (Method.update
            (("title", str page.title) ∷ ("load_state", str (load_state_value complete)) ∷ []))
          begun in
      let kept = record shown {
        renderer = record shown.renderer {
          tab_pages = Dict.put shown.renderer.tab_pages tab_id page;
        };
      } in
      if has_type ObjectType.tab (M.get tab_id w.manager)
      then (
        navigated url page,
        note
            (renderer_event "renderer.navigate" tab_id
              (field "url" (str url) (field "title" (str page.title) end)) "success")
            kept,
      )
      else (failed (S.◌++◌ "Tab not found: " tab_id), w)

  -- the body of the loop of `find_form`, on the form that it finds
  unfoldable pub open_form : String → MockForm → Screen → String × Screen
  unfolding act set_form_data create
  open_form tab_id f w =
      let (form, m, sink) =
        create os now (Creation.form tab_id (some f.form_type)) w.manager w.audit in
      let made = record w { manager = m; audit = sink } in
      let described = act now form.id (Method.assign "method" (str f.method)) (
        act now form.id (Method.assign "action" (str f.action))
          (act now form.id (Method.assign "fields" (obj f.fields)) made)) in
      (
        form.id,
        note
            (renderer_event "renderer.find_form" form.id
              (field "tab_id" (str tab_id) (field "type" (str f.form_type) end)) "found")
            (set_form_data form.id end described),
      )

  abbrev opened : Option MockForm → String → Screen → Option String × Screen
  opened none tab_id w = (none, w)
  opened (some f) tab_id w = let (id, after) = open_form tab_id f w in (some id, after)

  unfoldable pub find_form : String → String → Screen → Option String × Screen
  unfolding open_form first_form
  find_form tab_id form_type w = elim (Dict.get w.renderer.tab_pages tab_id) [
    | none ↦ (none, w)
    | some page ↦ opened (first_form form_type page.forms) tab_id w
  ]

  unfoldable pub fill_form : String → Fields → Screen → Fields × Screen
  unfolding act set_form_data filled_data has_type
  fill_form form_id values w =
      let d = Value.update (filled_data form_id w) values in
      let filled = act now form_id (Method.set "filled" (obj d)) (set_form_data form_id d w) in
      let names = arr (texts (keys values)) in
      if has_type ObjectType.form (M.get form_id w.manager)
      then (
        field "success" (bool true) (field "filled_fields" names end),
        note (renderer_event "renderer.fill_form" form_id (field "fields" names end) "success")
            filled,
      )
      else (failed (S.◌++◌ "Form not found: " form_id), w)

  unfoldable pub submit_form : Option (String → Fields → Fields) → String → Screen → Fields × Screen
  unfolding filled_data data_or mock_response field_count
  submit_form callback form_id w = elim (M.get form_id w.manager) [
    | none ↦ (failed (S.◌++◌ "Form not found: " form_id), w)
    | some form ↦
        let filled = filled_data form_id w in
        let action = data_or w.manager.heap form "action" (str "/") in
        let method = data_or w.manager.heap form "method" (str "POST") in
        (
          answer callback form_id filled (mock_response form_id action method),
          note
              (renderer_event "renderer.submit_form" form_id
                (field "action" action
                  (field "method" method (field "field_count" (num (field_count filled)) end)))
                "submitted")
              w,
        )
  ]
