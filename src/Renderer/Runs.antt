-- ===== src/Renderer/Runs.antt =====
-- Sequences of calls of the renderer (kernel/renderer/mock.py).
use terminal_agent.Base.{ℕ, refl, String, Option, List, [], ◌∷◌, Bool-cases, Option-cases, inl, inr}
use terminal_agent.Dict
use terminal_agent.Dict.{Dict}
use terminal_agent.Value
use terminal_agent.Value.{Value, Fields, end, field, str, num, bool, obj, arr, null}
use terminal_agent.Platform.{Platform}
use terminal_agent.Objects.Object.{ObjectType}
use terminal_agent.Objects.Snapshot.{same_type}
use terminal_agent.Objects.Manager as M
use terminal_agent.Objects.Manager.{
  Manager, Creation, Method, call, call_on, create, snapshot_all, restore_snapshot,
}
use terminal_agent.Renderer.{MockPage}
use terminal_agent.Renderer.Sites.{get_page}
use terminal_agent.Renderer.Calls.{
  navigate, wait_for, find_form, fill_form, clear_form, submit_form,
}
use terminal_agent.Renderer.Screen.{Screen, act, has_type, page_or_404, filled_data, first_form}
use terminal_agent.Renderer.{load_state_value}
use terminal_agent.Renderer.InStep.{InStep, act-InStep, refill-InStep}
use terminal_agent.Renderer.Shown.{assign-Spares, navigation-Spares}
use terminal_agent.Objects.Manager.{next_id}
use terminal_agent.Renderer.Opening.{logged-InStep, open_form-InStep}
use terminal_agent.Renderer.Submission.{SubmitsShown, InStep-SubmitsShown}

module _ (os : Platform) where
  -- a page is remembered for a tab
  page_kept-InStep :
      (pages : Dict MockPage) (w : Screen)
      → InStep w
      → InStep (record w { renderer = record w.renderer { tab_pages = pages } })
  page_kept-InStep pages w v = record {
    named = v.named;
    closed = v.closed;
    same = v.same;
    blank = v.blank;
  }

  navigate-InStep :
      (now : ℕ) (urlparse : String → String × String) (tab_id url : String) (w : Screen)
      → InStep w
      → InStep (navigate os now urlparse tab_id url w).1
  unfolding navigate load_state_value M.get
  navigate-InStep now urlparse tab_id url w v =
      let page = page_or_404 url (get_page urlparse url w.renderer.registry) in
      let first = Method.update (("url", str url) ∷ ("load_state", str "loading") ∷ []) in
      let second =
        Method.update (("title", str page.title) ∷ ("load_state", str "complete") ∷ []) in
      elim (Bool-cases (has_type ObjectType.tab (Dict.get w.manager.objects tab_id))) [
        | inl e ↦
            rw (navigate, e)
              (logged-InStep _ _ (
                page_kept-InStep _ _ (
                  act-InStep now second tab_id (act now tab_id first w)
                    (navigation-Spares now "title" page.title "complete" refl)
                    (act-InStep now first tab_id w (navigation-Spares now "url" url "loading" refl)
                      v))))
        | inr e ↦ rw (navigate, e) v
      ]

  wait_for-InStep :
      (now : ℕ) (tab_id state : String) (w : Screen)
      → InStep w
      → InStep (wait_for now tab_id state w).1
  unfolding wait_for M.get
  wait_for-InStep now tab_id state w v = elim (Option-cases (Dict.get w.manager.objects tab_id)) [
    | inl e ↦ rw (wait_for, e) v
    | inr (o, e) ↦
        rw (wait_for, e)
          (act-InStep now (Method.assign "load_state" (str state)) tab_id w
            (assign-Spares now "load_state" (str state) refl) v)
  ]

  find_form-InStep :
      (now : ℕ) (tab_id form_type : String) (w : Screen)
      → InStep w
      → InStep (find_form os now tab_id form_type w).1
  unfolding find_form
  find_form-InStep now tab_id form_type w v =
      elim (Option-cases (Dict.get w.renderer.tab_pages tab_id)) [
        | inl e ↦ rw (find_form, e) v
        | inr (page, e) ↦ elim (Option-cases (first_form form_type page.forms)) [
          | inl q ↦ rw (find_form, e, q) v
          | inr (f, q) ↦ rw (find_form, e, q) (open_form-InStep os now tab_id f w v)
        ]
      ]

  fill_form-InStep :
      (now : ℕ) (form_id : String) (values : Fields) (w : Screen)
      → InStep w
      → InStep (fill_form os now form_id values w).1
  unfolding fill_form M.get has_type
  fill_form-InStep now form_id values w v =
      elim (Option-cases (Dict.get w.manager.objects form_id)) [
        | inl e ↦ rw (fill_form, e) v
        | inr (o, e) ↦ elim (Bool-cases (same_type o.type ObjectType.form)) [
          | inl q ↦
              rw (fill_form, e, q)
                (logged-InStep _ _
                  (refill-InStep now form_id (Value.update (filled_data form_id w) values) w o e v))
          | inr q ↦ rw (fill_form, e, q) v
        ]
      ]

  clear_form-InStep :
      (now : ℕ) (form_id : String) (w : Screen) → InStep w → InStep (clear_form now form_id w).1
  unfolding clear_form M.get
  clear_form-InStep now form_id w v = elim (Option-cases (Dict.get w.manager.objects form_id)) [
    | inl e ↦ rw (clear_form, e) v
    | inr (o, e) ↦ rw (clear_form, e) (refill-InStep now form_id end w o e v)
  ]

  submit_form-InStep :
      (now : ℕ) (callback : Option (String → Fields → Fields)) (form_id : String) (w : Screen)
      → InStep w
      → InStep (submit_form os now callback form_id w).1
  unfolding submit_form M.get
  submit_form-InStep now callback form_id w v =
      elim (Option-cases (Dict.get w.manager.objects form_id)) [
        | inl e ↦ rw (submit_form, e) v
        | inr (o, e) ↦ rw (submit_form, e) (logged-InStep _ w v)
      ]

-- the calls, each at its time
pub data Call : Type 0 where
  navigating : ℕ → String → String → Call
  waiting : ℕ → String → String → Call
  finding : ℕ → String → String → Call
  filling : ℕ → String → Fields → Call
  clearing : ℕ → String → Call
  submitting : ℕ → String → Call

module _ (os : Platform) (urlparse : String → String × String)
    (callback : Option (String → Fields → Fields)) where
  unfoldable pub step : Call → Screen → Screen
  step (navigating now tab_id url) w = (navigate os now urlparse tab_id url w).1
  step (waiting now tab_id state) w = (wait_for now tab_id state w).1
  step (finding now tab_id form_type) w = (find_form os now tab_id form_type w).1
  step (filling now form_id values) w = (fill_form os now form_id values w).1
  step (clearing now form_id) w = (clear_form now form_id w).1
  step (submitting now form_id) w = (submit_form os now callback form_id w).1

  unfoldable pub run : List Call → Screen → Screen
  unfolding step
  run [] w = w
  run (call ∷ calls) w = run calls (step call w)

  step-InStep : (call : Call) (w : Screen) → InStep w → InStep (step call w)
  unfolding step
  step-InStep (navigating now tab_id url) w v = navigate-InStep os now urlparse tab_id url w v
  step-InStep (waiting now tab_id state) w v = wait_for-InStep os now tab_id state w v
  step-InStep (finding now tab_id form_type) w v = find_form-InStep os now tab_id form_type w v
  step-InStep (filling now form_id values) w v = fill_form-InStep os now form_id values w v
  step-InStep (clearing now form_id) w v = clear_form-InStep os now form_id w v
  step-InStep (submitting now form_id) w v = submit_form-InStep os now callback form_id w v

  run_keeps : (calls : List Call) (w : Screen) → InStep w → InStep (run calls w)
  unfolding run
  run_keeps [] w v = v
  run_keeps (call ∷ calls) w v = run_keeps calls (step call w) (step-InStep call w v)

  -- From a screen on which the objects are named and refer to allocated cells, the object of each
  -- identity that the renderer keeps a dict for shows that dict as filled, and each form that it
  -- keeps none for shows that nothing is filled in: after any navigations, waits, searches for
  -- forms, fillings, clearings and submissions, that is so again; a submission of a form then
  -- hands a callback the dict that filled has in the object of the form, and answers what the
  -- callback does.
  pub run-InStep :
      (calls : List Call) (w : Screen)
      → InStep w
      → InStep (run calls w) × SubmitsShown os (run calls w)
  run-InStep calls w v =
      let kept = run_keeps calls w v in (kept, InStep-SubmitsShown os (run calls w) kept)
