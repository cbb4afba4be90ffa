-- ===== src/Renderer/Shown.antt =====
-- What the object of a form shows as filled in, and what leaves that as it is
-- (kernel/renderer/mock.py).
use terminal_agent.Base.{
  ℕ, ◌≡◌, ◌∙◌, refl, sym, ap, subst, String, false, some, [], ◌∷◌, ◌==◌, eq_iff, Bool-cases,
  Option-cases, inl, inr,
}
use mathlib.Core.Option.{some-injective}
use text.Mathlib.TextPositions.{eq_refl}
use terminal_agent.Dict
use terminal_agent.Dict.{Dict}
use terminal_agent.Value.{Value, Fields, str, num, bool, obj, arr, null}
use terminal_agent.Objects.Heap.{Heap, Slot, atom, ref, deref, box, alloc, Agree, Refs}
use terminal_agent.Objects.Object.{ObjectType, ManagedObject}
use terminal_agent.Objects.Object
use terminal_agent.Objects.Manager.{Manager, Method, call, call_on}
use terminal_agent.Objects.Copies.{Below}
use terminal_agent.Objects.Registry.{Apart, call_on_found, call_on_missing}
use terminal_agent.Renderer.Screen.{data_or}
use terminal_agent.Renderer.Pages.{data_or_found}
use terminal_agent.Objects.Heap.{empty}
use terminal_agent.Objects.Apart.{Away, Holds, Refs-get}
use terminal_agent.Objects.Copies.{Agree-alloc, cell-alloc}

-- every reference of an object is to an allocated cell
abbrev pub IsClosedOver : Manager → Type 0
IsClosedOver m = Apart 0 0 empty m

-- the object with the identity shows that the form is filled like this
abbrev pub Shows : Manager → String → Fields → Type 0
Shows m id d =
    (o : ManagedObject) × (Dict.get m.objects id ≡ some o)
    × (data_or m.heap o "filled" null ≡ obj d)

pub data_or-Agree :
    (h g : Heap) (o : ManagedObject) (k : String) (v : Value)
    → Refs (Away 0 0 h.next) o.slots
    → Agree (Below h.next) h g
    → data_or g o k v ≡ data_or h o k v
unfolding data_or
data_or-Agree h g o k v live agree = elim (Option-cases (Dict.get o.slots k)) [
  | inl e ↦ rw (data_or, e) refl
  | inr (s, e) ↦
      data_or_found g o k v s e
      ∙ held s (Refs-get (Away 0 0 h.next) o.slots k s live e)
      ∙ sym (data_or_found h o k v s e)
]
  where
    held : (s : Slot) → Holds (Away 0 0 h.next) s → deref g s ≡ deref h s
    held (atom x) away = refl
    held (ref a) away = agree a away.0

data_or-slot :
    (h : Heap) (o p : ManagedObject) (k : String) (v : Value)
    → Dict.get o.slots k ≡ Dict.get p.slots k
    → data_or h o k v ≡ data_or h p k v
unfolding data_or
data_or-slot h o p k v e = rw (data_or, e) refl

box-Agree : (v : Value) (h : Heap) → Agree (Below h.next) h (box v h).1
unfolding box
box-Agree null h a lt = refl
box-Agree (bool b) h a lt = refl
box-Agree (num n) h a lt = refl
box-Agree (str s) h a lt = refl
box-Agree (arr xs) h a lt = Agree-alloc (arr xs) h a lt
box-Agree (obj d) h a lt = Agree-alloc (obj d) h a lt

-- a method that changes no cell that is there, and not what is filled in
pub record Spares (now : ℕ) (f : Method) : Type 0 where
  pub cells : (h : Heap) (o : ManagedObject) → Agree (Below h.next) h (call now f h o).1
  pub slot :
      (h : Heap) (o : ManagedObject)
      → Dict.get (call now f h o).2.slots "filled" ≡ Dict.get o.slots "filled"

module _ (now : ℕ) where
  pub assign-Spares :
      (k : String) (v : Value) → k == "filled" ≡ false → Spares now (Method.assign k v)
  unfolding call Object.assign
  assign-Spares k v other = record {
    cells = λ h o. box-Agree v h;
    slot = λ h o. Dict.get-put o.slots k "filled" (box v h).0 ∙ rw other refl;
  }

  pub navigation-Spares :
      (j : String) (a b : String)
      → j == "filled" ≡ false
      → Spares now (Method.update ((j, str a) ∷ ("load_state", str b) ∷ []))
  unfolding call Object.update Object.put_all box
  navigation-Spares j a b other = record {
    cells = λ h o c lt. refl;
    slot = λ h o.
        Dict.get-put _ "load_state" "filled" _
        ∙ Dict.get-put o.slots j "filled" (atom (str a))
        ∙ rw other refl;
  }

  pub call_on-Shows :
      (f : Method) (id j : String) (d : Fields) (m : Manager)
      → Spares now f
      → IsClosedOver m
      → Shows m j d
      → Shows (call_on now id f m).1 j d
  call_on-Shows f id j d m spares closed (o, got, same) =
      elim (Option-cases (Dict.get m.objects id)) [
        | inl e ↦
            subst (λ (n : Manager). Shows n j d) (sym (call_on_missing now id f m e)) (o, got, same)
        | inr (x, e) ↦
            let g = (call now f m.heap x).1 in
            let x' = (call now f m.heap x).2 in
            subst (λ (n : Manager). Shows n j d) (sym (call_on_found now id f m x e))
              (elim (Bool-cases (id == j)) [
                | inl q ↦
                    let is_o : x ≡ o =
                      some-injective x o
                        (sym e ∙ ap (Dict.get m.objects) ((eq_iff id j).0 q) ∙ got) in
                    (
                      x',
                      Dict.get-put m.objects id j x' ∙ rw q refl,
                      data_or-slot g x' x "filled" null (spares.slot m.heap x)
                          ∙ data_or-Agree m.heap g x "filled" null (closed.away id x e)
                              (spares.cells m.heap x)
                          ∙ ap (λ (y : ManagedObject). data_or m.heap y "filled" null) is_o
                          ∙ same,
                    )
                | inr q ↦ (
                  o,
                  Dict.get-put m.objects id j x' ∙ rw q got,
                  data_or-Agree m.heap g o "filled" null (closed.away j o got)
                        (spares.cells m.heap x)
                      ∙ same,
                )
              ])
      ]

  -- what is filled in is what the object shows
  pub fill-Shows :
      (id : String) (d : Fields) (m : Manager) (o : ManagedObject)
      → Dict.get m.objects id ≡ some o
      → Shows (call_on now id (Method.set "filled" (obj d)) m).1 id d
  unfolding call Object.set box
  fill-Shows id d m o got =
      let f = Method.set "filled" (obj d) in
      let (at, held, _) = cell-alloc (obj d) m.heap in
      let x' = (call now f m.heap o).2 in
      subst (λ (n : Manager). Shows n id d) (sym (call_on_found now id f m o got))
        (
          x',
          Dict.get-put m.objects id id x' ∙ rw (eq_refl id) refl,
          data_or_found (call now f m.heap o).1 x' "filled" null (ref (alloc (obj d) m.heap).0)
                (Dict.get-put o.slots "filled" "filled" _)
              ∙ rw at held,
        )

  -- and nothing changes for other forms
  pub fill-Shows_other :
      (id j : String) (d e : Fields) (m : Manager) (o : ManagedObject)
      → Dict.get m.objects id ≡ some o
      → id == j ≡ false
      → IsClosedOver m
      → Shows m j e
      → Shows (call_on now id (Method.set "filled" (obj d)) m).1 j e
  unfolding call Object.set
  fill-Shows_other id j d e m o got other closed (x, there_x, same) =
      let f = Method.set "filled" (obj d) in
      subst (λ (n : Manager). Shows n j e) (sym (call_on_found now id f m o got))
        (
          x,
          Dict.get-put m.objects id j (call now f m.heap o).2 ∙ rw other there_x,
          data_or-Agree m.heap (box (obj d) m.heap).1 x "filled" null (closed.away j x there_x)
                (box-Agree (obj d) m.heap)
              ∙ same,
        )
