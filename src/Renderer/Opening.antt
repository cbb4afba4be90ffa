-- ===== src/Renderer/Opening.antt =====
-- What `find_form` leaves: the object of a new form shows that nothing is filled in, as does the
-- renderer's dict (kernel/renderer/mock.py).
use terminal_agent.Base.{
  ℕ, ◌≡◌, ◌∙◌, refl, sym, subst, String, false, Option, some, ◌==◌, arith, eq_iff, Bool-cases, inl,
  inr,
}
use mathlib.Core.Option.{some-injective}
use text.Mathlib.TextPositions.{eq_refl}
use terminal_agent.Dict
use terminal_agent.Dict.{Dict}
use terminal_agent.Value.{Value, Fields, end, str, obj, null}
use terminal_agent.Platform.{Platform}
use terminal_agent.Audit.Log.{AuditLog}
use terminal_agent.Objects.Heap.{Heap, ref, alloc, Agree}
use terminal_agent.Objects.Object.{ObjectType, ManagedObject}
use terminal_agent.Objects.Object
use terminal_agent.Objects.Manager as M
use terminal_agent.Objects.Manager.{
  Manager, Creation, Method, call, call_on, create, snapshot_all, restore_snapshot,
}
use terminal_agent.Objects.Copies.{Below}
use terminal_agent.Objects.Registry.{get-put_cases, IsNamed, create-IsNamed, create-Apart}
use terminal_agent.Renderer.{MockForm}
use terminal_agent.Renderer.Calls.{open_form}
use terminal_agent.Renderer.Screen.{Screen, act, set_form_data}
use terminal_agent.Renderer.Pages.{data_or_found}
use terminal_agent.Renderer.InStep.{InStep, put_unkept, act-InStep}
use terminal_agent.Renderer.Shown.{IsClosedOver, Shows, data_or-Agree, assign-Spares, call_on-Shows}
use terminal_agent.Objects.Heap.{empty}
use terminal_agent.Objects.Copies.{Agree-alloc, cell-alloc}
use terminal_agent.Objects.Manager.{next_id}
use terminal_agent.Objects.Registry.{next_id_fresh}

-- a new form adds two cells
form_cells-Agree :
    (tab_id form_type : String) (h : Heap)
    → Agree (Below h.next) h (Object.form_data tab_id form_type h).1
unfolding Object.form_data
form_cells-Agree tab_id form_type h a lt =
    let (_, _, more) = cell-alloc (obj end) h in
    Agree-alloc (obj end) (alloc (obj end) h).1 a (omega (arith, lt, more))
    ∙ Agree-alloc (obj end) h a lt

module _ (os : Platform) (now : ℕ) (sink : Option AuditLog) (tab_id form_type : String)
    (m : Manager) (named : IsNamed m) where
  abbrev made : ManagedObject × Manager × Option AuditLog
  made = create os now (Creation.form tab_id (some form_type)) m sink

  made-Shows_old : (j : String) (d : Fields) → IsClosedOver m → Shows m j d → Shows made.1 j d
  unfolding create M.initial_data
  made-Shows_old j d closed (o, got, same) =
      let fresh = next_id_fresh ObjectType.form m named in
      (
        o,
        Dict.get-put m.objects (next_id ObjectType.form m).0 j made.0
            ∙ elim (Bool-cases ((next_id ObjectType.form m).0 == j)) [
              | inl e ↦ absurd (cc ((eq_iff (next_id ObjectType.form m).0 j).0 e, fresh, got))
              | inr e ↦ rw e got
            ],
        data_or-Agree m.heap made.1.heap o "filled" null (closed.away j o got)
              (form_cells-Agree tab_id form_type m.heap)
            ∙ same,
      )

  made-Shows : Shows made.1 made.0.id end
  unfolding create M.initial_data Object.form_data Dict.get
  made-Shows =
      let h1 = (alloc (obj end) m.heap).1 in
      let (at, held, _) = cell-alloc (obj end) h1 in
      (
        made.0,
        Dict.get-put m.objects made.0.id made.0.id made.0 ∙ rw (eq_refl made.0.id) refl,
        data_or_found made.1.heap made.0 "filled" null (ref (alloc (obj end) h1).0) refl
            ∙ rw at held,
      )

  made_blank :
      (j : String) (x : ManagedObject)
      → Dict.get made.1.objects j ≡ some x
      → IsClosedOver m
      → (Dict.get m.objects j ≡ some x → Shows m j end)
      → Shows made.1 j end
  unfolding create M.initial_data
  made_blank j x there_x closed old =
      elim (get-put_cases m.objects (next_id ObjectType.form m).0 j _ x there_x) [
        | inl (q, e) ↦ subst (λ (i : String). Shows made.1 i end) q made-Shows
        | inr got ↦ made-Shows_old j end closed (old got)
      ]

describe_one :
    (now : ℕ) (k : String) (v : Value) (id j : String) (d : Fields) (w : Screen)
    → k == "filled" ≡ false
    → InStep w
    → Shows w.manager j d
    → InStep (act now id (Method.assign k v) w)
      × Shows (act now id (Method.assign k v) w).manager j d
unfolding act
describe_one now k v id j d w other inv shows = (
  act-InStep now (Method.assign k v) id w (assign-Spares now k v other) inv,
  call_on-Shows now (Method.assign k v) id j d w.manager (assign-Spares now k v other) inv.closed
      shows,
)

-- a form that shows what is put into the dict
pub set_form_data-InStep :
    (id : String) (d : Fields) (w : Screen)
    → InStep w
    → Shows w.manager id d
    → InStep (set_form_data id d w)
unfolding set_form_data
set_form_data-InStep id d w v shows = record {
  named = v.named;
  closed = v.closed;
  same = λ j e h. elim (Bool-cases (id == j)) [
    | inl q ↦
        let is_d : d ≡ e =
          some-injective d e (sym (Dict.get-put w.renderer.form_data id j d ∙ rw q refl) ∙ h) in
        subst (λ (x : Fields). Shows w.manager j x) is_d
          (subst (λ (i : String). Shows w.manager i d) ((eq_iff id j).0 q) shows)
    | inr q ↦ v.same j e (sym (Dict.get-put w.renderer.form_data id j d ∙ rw q refl) ∙ h)
  ];
  blank = λ j x there_x is_form unkept.
      v.blank j x there_x is_form (put_unkept w.renderer.form_data id j d unkept).1;
}

-- the log is no part of the invariant
pub logged-InStep :
    (sink : Option AuditLog) (w : Screen) → InStep w → InStep (record w { audit = sink })
logged-InStep sink w v = record {
  named = v.named;
  closed = v.closed;
  same = v.same;
  blank = v.blank;
}

module _ (os : Platform) where
  pub open_form-InStep :
      (now : ℕ) (tab_id : String) (f : MockForm) (w : Screen)
      → InStep w
      → InStep (open_form os now tab_id f w).1
  unfolding open_form
  open_form-InStep now tab_id f w v =
      let made = create os now (Creation.form tab_id (some f.form_type)) w.manager w.audit in
      let id = made.0.id in
      let w0 : Screen = record w { manager = made.1; audit = made.2 } in
      let v0 : InStep w0 = record {
        named =
            create-IsNamed os now w.audit (Creation.form tab_id (some f.form_type)) w.manager
              v.named;
        closed =
            create-Apart os now w.audit 0 0 empty (Creation.form tab_id (some f.form_type))
              w.manager v.closed;
        same = λ j d e.
            made-Shows_old os now w.audit tab_id f.form_type w.manager v.named j d v.closed
              (v.same j d e);
        blank = λ j x there_x is_form unkept.
            made_blank os now w.audit tab_id f.form_type w.manager v.named j x there_x v.closed
              (λ got. v.blank j x got is_form unkept);
      } in
      let s0 = made-Shows os now w.audit tab_id f.form_type w.manager v.named in
      let (v1, s1) = describe_one now "fields" (obj f.fields) id id end w0 refl v0 s0 in
      let w1 = act now id (Method.assign "fields" (obj f.fields)) w0 in
      let (v2, s2) = describe_one now "action" (str f.action) id id end w1 refl v1 s1 in
      let w2 = act now id (Method.assign "action" (str f.action)) w1 in
      let (v3, s3) = describe_one now "method" (str f.method) id id end w2 refl v2 s2 in
      let w3 = act now id (Method.assign "method" (str f.method)) w2 in
      logged-InStep _ _ (set_form_data-InStep id end w3 v3 s3)
