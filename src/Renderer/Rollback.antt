-- ===== src/Renderer/Rollback.antt =====
-- What was filled into a form survives the rollback of the form's object: the dict of the renderer is
-- no part of a snapshot (kernel/renderer/mock.py with kernel/objects.py).
use terminal_agent.Base.{ℕ, ◌≡◌, ◌∙◌, refl, sym, ap, subst, String, true, none, some, [], ◌∷◌}
use text.Mathlib.TextPositions.{eq_refl}
use terminal_agent.Dict
use terminal_agent.Dict.{Dict}
use terminal_agent.Value
use terminal_agent.Value.{Value, Fields, end, field, str, num, bool, obj, arr, null}
use terminal_agent.Platform.{Platform}
use terminal_agent.Objects.Heap.{reads}
use terminal_agent.Objects.Object.{ObjectType, ManagedObject}
use terminal_agent.Objects.Snapshot.{ObjectState}
use terminal_agent.Objects.Manager as M
use terminal_agent.Objects.Manager.{
  Manager, Creation, Method, call, call_on, create, snapshot_all, restore_snapshot,
}
use terminal_agent.Objects.Registry.{IsNamed, same_type_iff, call_on_found}
use terminal_agent.Objects.Steps.{Op, run, step}
use terminal_agent.Objects.Rollback.{IsClosed, AllSmall, IsRollback, restore-IsRollback}
use terminal_agent.Renderer.Calls.{fill_form, submit_form}
use terminal_agent.Renderer.Screen.{Screen, act, has_type, set_form_data, filled_data}

-- the registry is restored; the renderer is not told
abbrev pub restored : ℕ → Dict ObjectState → Screen → Screen
restored now states w = record w { manager = (restore_snapshot now states w.manager).1 }

-- the screen after a snapshot of all objects
abbrev pub captured : Platform → ℕ → Screen → Screen
captured os now w = record w { manager = (snapshot_all os now w.manager).1 }

pub has_type_found : (t : ObjectType) (o : ManagedObject) → o.type ≡ t → has_type t (some o) ≡ true
unfolding has_type
has_type_found t o e = (same_type_iff o.type t).1 e

module _ (os : Platform) where
  fill_form_found :
      (now : ℕ) (form_id : String) (values : Fields) (w : Screen) (o : ManagedObject)
      → Dict.get w.manager.objects form_id ≡ some o
      → o.type ≡ ObjectType.form
      → ((fill_form os now form_id values w).1.renderer.form_data
          ≡ Dict.put w.renderer.form_data form_id (Value.update (filled_data form_id w) values))
        × ((fill_form os now form_id values w).1.manager
            ≡ (call_on now form_id
                (Method.set "filled" (obj (Value.update (filled_data form_id w) values)))
                w.manager).1)
  unfolding fill_form act set_form_data M.get
  fill_form_found now form_id values w o got is_form =
      rw (fill_form, got, has_type_found ObjectType.form o is_form) (refl, refl)

  submit_form_found :
      (now : ℕ) (callback : String → Fields → Fields) (form_id : String) (w : Screen)
      (y : ManagedObject)
      → Dict.get w.manager.objects form_id ≡ some y
      → (submit_form os now (some callback) form_id w).0 ≡ callback form_id (filled_data form_id w)
  unfolding submit_form M.get
  submit_form_found now callback form_id w y got = rw (submit_form, got) refl

filled_data-put :
    (form_id : String) (d : Dict Fields) (values : Fields) (w : Screen)
    → w.renderer.form_data ≡ Dict.put d form_id values
    → filled_data form_id w ≡ values
unfolding filled_data
filled_data-put form_id d values w e =
    ap (λ (x : Dict Fields). Dict.get_or x form_id end) e
    ∙ rw (Dict.get_or, Dict.get-put d form_id form_id values, eq_refl form_id) refl

module _ (os : Platform) (taken at now later : ℕ) (callback : String → Fields → Fields)
    (form_id : String) (values : Fields) (w : Screen) (o : ManagedObject) where
  -- From a registry of named objects whose references are allocated and whose containers are small
  -- enough to be copied: a snapshot, a filling of a form and a restore of the snapshot leave the
  -- object of the form as it was, and yet a submission then hands the filled values to the
  -- callback.
  pub submit_form-restored :
      IsNamed w.manager
      → IsClosed w.manager
      → AllSmall os w.manager
      → Dict.get w.manager.objects form_id ≡ some o
      → o.type ≡ ObjectType.form
      → (let states = (snapshot_all os taken w.manager).0 in
          let filled = (fill_form os at form_id values (captured os taken w)).1 in
          let after = restored now states filled in
          (y : ManagedObject) × (Dict.get after.manager.objects form_id ≡ some y)
          × (reads after.manager.heap y.slots ≡ reads w.manager.heap o.slots)
          × ((submit_form os later (some callback) form_id after).0
              ≡ callback form_id (Value.update (filled_data form_id w) values)))
  unfolding snapshot_all run step filled_data
  submit_form-restored named closed small got is_form =
      let states = (snapshot_all os taken w.manager).0 in
      let d = Value.update (filled_data form_id w) values in
      let filled = (fill_form os at form_id values (captured os taken w)).1 in
      let (kept, acted) =
        fill_form_found os at form_id values (captured os taken w) o got is_form in
      let fill = Method.set "filled" (obj d) in
      let (_, back) =
        restore-IsRollback os none taken now w.manager named closed small
          (Op.call_on at form_id fill ∷ []) in
      let back' : IsRollback w.manager filled.manager
          (restore_snapshot now states filled.manager).1 =
        subst (λ (n : Manager). IsRollback w.manager n (restore_snapshot now states n).1)
          (sym acted) back in
      let changed = (call at fill (captured os taken w).manager.heap o).2 in
      let there : Dict.get filled.manager.objects form_id ≡ some changed =
        ap (λ (n : Manager). Dict.get n.objects form_id)
          (acted ∙ call_on_found at form_id fill (captured os taken w).manager o got)
        ∙ Dict.get-put w.manager.objects form_id form_id changed
        ∙ rw (eq_refl form_id) refl in
      let (y, found, same, _) = back'.survivors form_id o changed got there in
      (
        y,
        found,
        same,
        submit_form_found os later callback form_id (restored now states filled) y found
            ∙ ap (callback form_id)
                (filled_data-put form_id w.renderer.form_data d (restored now states filled) kept),
      )
