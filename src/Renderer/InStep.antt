-- ===== src/Renderer/InStep.antt =====
-- As long as objects are changed through the renderer only, what it keeps of a form is what the form's
-- object shows (kernel/renderer/mock.py).
use terminal_agent.Base.{
  ℕ, ◌≡◌, ◌∙◌, refl, sym, subst, String, false, none, some, ◌==◌, eq_iff, Bool-cases, inl, inr,
}
use mathlib.Core.Option.{some-injective}
use terminal_agent.Dict
use terminal_agent.Dict.{Dict}
use terminal_agent.Value.{Fields, end, obj}
use terminal_agent.Objects.Object.{ObjectType, ManagedObject}
use terminal_agent.Objects.Manager.{Method, call_on}
use terminal_agent.Objects.Registry.{IsNamed, call_on_held, call_on-IsNamed, call_on-Apart}
use terminal_agent.Renderer.Screen.{Screen, act, set_form_data}
use terminal_agent.Objects.Heap.{empty}
use terminal_agent.Renderer.Shown.{
  IsClosedOver, Shows, Spares, call_on-Shows, fill-Shows, fill-Shows_other,
}

pub record InStep (w : Screen) : Type 0 where
  pub named : IsNamed w.manager
  pub closed : IsClosedOver w.manager
  pub same :
      (id : String) (d : Fields) → Dict.get w.renderer.form_data id ≡ some d → Shows w.manager id d
  -- a form of which the renderer keeps nothing
  pub blank :
      (id : String) (o : ManagedObject)
      → Dict.get w.manager.objects id ≡ some o
      → o.type ≡ ObjectType.form
      → Dict.get w.renderer.form_data id ≡ none
      → Shows w.manager id end

-- what a write leaves unkept has another key, and was so before
pub put_unkept :
    (kept : Dict Fields) (id j : String) (d : Fields)
    → Dict.get (Dict.put kept id d) j ≡ none
    → (id == j ≡ false) × (Dict.get kept j ≡ none)
put_unkept kept id j d h = elim (Bool-cases (id == j)) [
  | inl e ↦ absurd (cc (rw (Dict.get-put kept id j d, e) at h))
  | inr e ↦ (e, rw (Dict.get-put kept id j d, e) at h)
]

module _ (now : ℕ) where
  pub act-InStep :
      (f : Method) (id : String) (w : Screen) → Spares now f → InStep w → InStep (act now id f w)
  unfolding act
  act-InStep f id w spares v = record {
    named = call_on-IsNamed now id f w.manager v.named;
    closed = call_on-Apart now id f w.manager 0 0 empty v.closed;
    same = λ j d e. call_on-Shows now f id j d w.manager spares v.closed (v.same j d e);
    blank = λ j x there_x is_form unkept.
        let (o, got, typed) = call_on_held now id f w.manager j x there_x in
        call_on-Shows now f id j end w.manager spares v.closed
          (v.blank j o got (sym typed ∙ is_form) unkept);
  }

  pub refill-InStep :
      (id : String) (d : Fields) (w : Screen) (o : ManagedObject)
      → Dict.get w.manager.objects id ≡ some o
      → InStep w
      → InStep (act now id (Method.set "filled" (obj d)) (set_form_data id d w))
  unfolding act set_form_data
  refill-InStep id d w o got v = record {
    named = call_on-IsNamed now id (Method.set "filled" (obj d)) w.manager v.named;
    closed = call_on-Apart now id (Method.set "filled" (obj d)) w.manager 0 0 empty v.closed;
    same = λ j e h. elim (Bool-cases (id == j)) [
      | inl q ↦
          let is_d : d ≡ e =
            some-injective d e (sym (Dict.get-put w.renderer.form_data id j d ∙ rw q refl) ∙ h) in
          subst
            (λ (x : Fields). Shows (call_on now id (Method.set "filled" (obj d)) w.manager).1 j x)
            is_d
            (subst
              (λ (i : String). Shows (call_on now id (Method.set "filled" (obj d)) w.manager).1 i d)
              ((eq_iff id j).0 q) (fill-Shows now id d w.manager o got))
      | inr q ↦
          fill-Shows_other now id j d e w.manager o got q v.closed
            (v.same j e (sym (Dict.get-put w.renderer.form_data id j d ∙ rw q refl) ∙ h))
    ];
    blank = λ j x there_x is_form unkept.
        let (other, before) = put_unkept w.renderer.form_data id j d unkept in
        let (y, got_y, typed) =
          call_on_held now id (Method.set "filled" (obj d)) w.manager j x there_x in
        fill-Shows_other now id j d end w.manager o got other v.closed
          (v.blank j y got_y (sym typed ∙ is_form) before);
  }
