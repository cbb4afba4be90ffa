-- ===== src/Renderer/Submission.antt =====
-- What a submission sends is what the object of the form shows (kernel/renderer/mock.py).
use terminal_agent.Base.{◌≡◌, ◌∙◌, sym, ap, ℕ, refl, String, some, Option-cases, inl, inr}
use mathlib.Core.Option.{some-injective}
use terminal_agent.Dict
use terminal_agent.Dict.{Dict}
use terminal_agent.Value.{Fields, end, obj, null}
use terminal_agent.Platform.{Platform}
use terminal_agent.Objects.Object.{ObjectType, ManagedObject}
use terminal_agent.Objects.Manager as M
use terminal_agent.Objects.Manager.{
  Manager, Creation, Method, call, call_on, create, snapshot_all, restore_snapshot,
}
use terminal_agent.Renderer.Calls.{submit_form}
use terminal_agent.Renderer.Screen.{Screen, filled_data, data_or}
use terminal_agent.Renderer.InStep.{InStep}
use terminal_agent.Renderer.Shown.{Shows}
use terminal_agent.Objects.Manager.{next_id}

module _ (os : Platform) where
  submit_form_answer :
      (now : ℕ) (f : String → Fields → Fields) (form_id : String) (form : ManagedObject)
      (d : Fields) (w : Screen)
      → Dict.get w.manager.objects form_id ≡ some form
      → filled_data form_id w ≡ d
      → (submit_form os now (some f) form_id w).0 ≡ f form_id d
  unfolding submit_form M.get
  submit_form_answer now f form_id form d w got kept = rw (submit_form, got, kept) refl

  -- a callback gets the dict that filled has in the object of the form
  abbrev pub SubmitsShown : Screen → Type 0
  SubmitsShown w =
      (now : ℕ) (f : String → Fields → Fields) (form_id : String) (form : ManagedObject)
      → Dict.get w.manager.objects form_id ≡ some form
      → form.type ≡ ObjectType.form
      → (d : Fields) × (data_or w.manager.heap form "filled" null ≡ obj d)
        × ((submit_form os now (some f) form_id w).0 ≡ f form_id d)

  pub InStep-SubmitsShown : (w : Screen) → InStep w → SubmitsShown w
  unfolding filled_data
  InStep-SubmitsShown w v now f form_id form got is_form =
      elim (Option-cases (Dict.get w.renderer.form_data form_id)) [
        | inl e ↦
            shown w now f form_id form end got (rw (filled_data, Dict.get_or, e) refl)
              (v.blank form_id form got is_form e)
        | inr (d, e) ↦
            shown w now f form_id form d got (rw (filled_data, Dict.get_or, e) refl)
              (v.same form_id d e)
      ]
    where
      shown :
          (w : Screen) (now : ℕ) (f : String → Fields → Fields) (form_id : String)
          (form : ManagedObject) (d : Fields)
          → Dict.get w.manager.objects form_id ≡ some form
          → filled_data form_id w ≡ d
          → Shows w.manager form_id d
          → (d : Fields) × (data_or w.manager.heap form "filled" null ≡ obj d)
            × ((submit_form os now (some f) form_id w).0 ≡ f form_id d)
      shown w now f form_id form d got kept (o, found, filled) = (
        d,
        ap (λ (y : ManagedObject). data_or w.manager.heap y "filled" null)
              (some-injective form o (sym got ∙ found))
            ∙ filled,
        submit_form_answer now f form_id form d w got kept,
      )
