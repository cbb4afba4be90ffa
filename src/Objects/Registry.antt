-- ===== src/Objects/Registry.antt =====
-- The registry under the manager's operations: identities, and blocks of cells that no live object
-- refers to (kernel/objects.py).
use terminal_agent.Base.{
  ℕ, ◌+◌, ◌≤◌, ◌≡◌, ◌↔◌, ◌⊎◌, ◌∙◌, refl, sym, ap, subst, String, true, Option, none, some, [], ◌==◌,
  arith, Bool-cases, Option-cases, inl, inr, eq_iff, if◌then◌else◌,
}
use mathlib.Core.Bool.{decide_iff}
use mathlib.Core.Option.{some-injective}
use terminal_agent.Dict
use terminal_agent.Dict.{Dict, Distinct, get-put, get-remove, put-Distinct, remove-Distinct}
use terminal_agent.Platform.{Platform}
use terminal_agent.Audit.Log.{AuditLog}
use terminal_agent.Objects.Heap.{Heap, Refs, Agree}
use terminal_agent.Objects.Object.{ObjectType, ManagedObject}
use terminal_agent.Objects.Snapshot.{same_type}
use terminal_agent.Objects.Manager.{
  Manager, Creation, tab, form, workspace, other, type_of, Method, init, object_id, next_id,
  initial_data, create, delete, call, call_on,
}
use terminal_agent.Objects.Copies.{Within}
use terminal_agent.Objects.Apart.{Away, Away-grows, Keeps, put_all-Keeps}
use terminal_agent.Objects.Methods.{call-Behaves, call_identity}
use terminal_agent.Objects.Names.{object_id_inj}

-- Every object stands under its own identity, which has its type and a number that was drawn.
pub record IsNamed (m : Manager) : Type 0 where
  pub distinct : Distinct m.objects
  pub named :
      (id : String) (o : ManagedObject)
      → Dict.get m.objects id ≡ some o
      → (n : ℕ) × (o.id ≡ id) × (id ≡ object_id o.type n) × (n ≤ m.counters o.type)

-- `g` held the block's contents, and they stand; no object refers into the block.
pub record Apart (lo hi : ℕ) (g : Heap) (m : Manager) : Type 0 where
  pub room : hi ≤ m.heap.next
  pub held : Agree (Within lo hi) g m.heap
  pub away :
      (id : String) (o : ManagedObject)
      → Dict.get m.objects id ≡ some o
      → Refs (Away lo hi m.heap.next) o.slots

-- the type of the object that a changed registry holds under a key
pub get-put_cases :
    (d : Dict ManagedObject) (k j : String) (o x : ManagedObject)
    → Dict.get (Dict.put d k o) j ≡ some x
    → ((k ≡ j) × (x ≡ o)) ⊎ (Dict.get d j ≡ some x)
get-put_cases d k j o x h = elim (Bool-cases (k == j)) [
  | inl e ↦ inl ((eq_iff k j).0 e, some-injective x o (sym (rw (get-put d k j o, e) at h)))
  | inr e ↦ inr (rw (get-put d k j o, e) at h)
]

pub init-IsNamed : IsNamed init
unfolding Dict.get
init-IsNamed = record { distinct = tt; named = λ id o h. absurd (cc) }

pub same_type_iff : (t u : ObjectType) → (same_type t u ≡ true) ↔ (t ≡ u)
unfolding same_type
same_type_iff t u = decide_iff _

-- In a registry of named objects, the identity that the next creation draws stands for no object.
pub next_id_fresh :
    (t : ObjectType) (m : Manager) → IsNamed m → Dict.get m.objects (next_id t m).0 ≡ none
unfolding next_id
next_id_fresh t m v = elim (Option-cases (Dict.get m.objects (object_id t (m.counters t + 1)))) [
  | inl e ↦ e
  | inr (o, e) ↦
      let (n, own, q, le) = v.named _ o e in
      let (same, numbers) = object_id_inj t o.type (m.counters t + 1) n q in
      absurd (omega (arith, ap m.counters same))
]

-- what a constructor allocates lies outside the block
initial_data-Keeps :
    (lo hi now : ℕ) (c : Creation) (h : Heap)
    → hi ≤ h.next
    → Keeps lo hi h (initial_data now c h).1 (initial_data now c h).0
unfolding initial_data
initial_data-Keeps lo hi now (tab url title) h room = record {
  grows = omega arith;
  held = λ a w. refl;
  away = tt;
}
initial_data-Keeps lo hi now (form tab_id form_type) h room = record {
  grows = omega arith;
  held = λ a w. ground arith;
  away = ((omega arith, inr room), ((omega arith, inr (omega arith)), tt));
}
initial_data-Keeps lo hi now (workspace name) h room = record {
  grows = omega arith;
  held = λ a w. ground arith;
  away = (
    (omega arith, inr room),
    ((omega arith, inr (omega arith)), ((omega arith, inr (omega arith)), tt)),
  );
}
initial_data-Keeps lo hi now (other t kwargs) h room = put_all-Keeps lo hi now kwargs h [] room tt

-- a draw raises no other counter, and its own by one
drawn_later :
    (t u : ObjectType) (m : Manager) (n : ℕ)
    → n ≤ m.counters u
    → n ≤ (if same_type u t then m.counters t + 1 else m.counters u)
drawn_later t u m n le = elim (Bool-cases (same_type u t)) [
  | inl e ↦ rw e (omega (arith, ap m.counters ((same_type_iff u t).0 e)))
  | inr e ↦ rw e le
]

module _ (os : Platform) (now : ℕ) (sink : Option AuditLog) where
  pub create-IsNamed : (c : Creation) (m : Manager) → IsNamed m → IsNamed (create os now c m sink).1
  unfolding create
  create-IsNamed c m v = record {
    distinct = put-Distinct m.objects _ _ v.distinct;
    named = λ id o h. elim (get-put_cases m.objects (next_id (type_of c) m).0 id _ o h) [
      | inl (k, e) ↦
          let same = ap (λ (x : ManagedObject). x.type) e in
          (
            m.counters (type_of c) + 1,
            ap (λ (x : ManagedObject). x.id) e ∙ k,
            sym k ∙ ap (λ (t : ObjectType). object_id t (m.counters (type_of c) + 1)) (sym same),
            rw ((same_type_iff o.type (type_of c)).1 same) (omega arith),
          )
      | inr old ↦
          let (n, own, q, le) = v.named id o old in
          (n, own, q, drawn_later (type_of c) o.type m n le)
    ];
  }

  pub delete-IsNamed : (id : String) (m : Manager) → IsNamed m → IsNamed (delete os now id m sink).1
  unfolding delete
  delete-IsNamed id m v = elim (Option-cases (Dict.get m.objects id)) [
    | inl e ↦ rw (e, delete) v
    | inr (o, e) ↦
        rw (e, delete)
          (record {
            distinct = remove-Distinct m.objects id v.distinct;
            named = λ j x h. v.named j x (ground (arith, get-remove m.objects id j, h));
          })
  ]

  pub delete-Apart :
      (lo hi : ℕ) (g : Heap) (id : String) (m : Manager)
      → Apart lo hi g m
      → Apart lo hi g (delete os now id m sink).1
  unfolding delete
  delete-Apart lo hi g id m v = elim (Option-cases (Dict.get m.objects id)) [
    | inl e ↦ rw (e, delete) v
    | inr (o, e) ↦
        rw (e, delete)
          (record {
            room = v.room;
            held = v.held;
            away = λ j x h. v.away j x (ground (arith, get-remove m.objects id j, h));
          })
  ]

  pub create-Apart :
      (lo hi : ℕ) (g : Heap) (c : Creation) (m : Manager)
      → Apart lo hi g m
      → Apart lo hi g (create os now c m sink).1
  unfolding create
  create-Apart lo hi g c m v =
      let k = initial_data-Keeps lo hi now c m.heap v.room in
      record {
        room = omega (arith, v.room, k.grows);
        held = λ a w. k.held a w ∙ v.held a w;
        away = λ id o h. elim (get-put_cases m.objects (next_id (type_of c) m).0 id _ o h) [
          | inl (q, e) ↦
              subst
                (λ (x : ManagedObject).
                  Refs (Away lo hi (initial_data now c m.heap).1.next) x.slots)
                (sym e) k.away
          | inr old ↦ Away-grows lo hi m.heap.next _ o.slots k.grows (v.away id o old)
        ];
      }

-- A method of a registered object, on the registry.
module _ (now : ℕ) (id : String) (f : Method) (m : Manager) where
  pub call_on_missing : Dict.get m.objects id ≡ none → (call_on now id f m).1 ≡ m
  unfolding call_on
  call_on_missing e = rw (e, call_on)

  pub call_on_found :
      (o : ManagedObject)
      → Dict.get m.objects id ≡ some o
      → (call_on now id f m).1 ≡ record m {
        heap = (call now f m.heap o).1;
        objects = Dict.put m.objects id (call now f m.heap o).2;
      }
  unfolding call_on
  call_on_found o e = rw (e, call_on)

  -- an object of the registry after the call was there before, with the same type
  pub call_on_held :
      (j : String) (x : ManagedObject)
      → Dict.get (call_on now id f m).1.objects j ≡ some x
      → (o : ManagedObject) × (Dict.get m.objects j ≡ some o) × (x.type ≡ o.type)
  call_on_held j x h = elim (Option-cases (Dict.get m.objects id)) [
    | inl e ↦ (x, rw (call_on_missing e) at h, refl)
    | inr (o, e) ↦ elim (get-put_cases m.objects id j _ x (rw (call_on_found o e) at h)) [
      | inl (q, same) ↦ (
        o,
        ap (Dict.get m.objects) (sym q) ∙ e,
        ap (λ (y : ManagedObject). y.type) same ∙ (call_identity now f m.heap o).1,
      )
      | inr old ↦ (x, old, refl)
    ]
  ]

  pub call_on-Apart :
      (lo hi : ℕ) (g : Heap) → Apart lo hi g m → Apart lo hi g (call_on now id f m).1
  call_on-Apart lo hi g v = elim (Option-cases (Dict.get m.objects id)) [
    | inl e ↦ rw (call_on_missing e) v
    | inr (o, e) ↦
        let b = call-Behaves lo hi now m.heap o v.room (v.away id o e) f in
        rw (call_on_found o e) (record {
          room = omega (arith, v.room, b.keeps.grows);
          held = λ a w. b.keeps.held a w ∙ v.held a w;
          away = λ j x h. elim (get-put_cases m.objects id j _ x h) [
            | inl (q, same) ↦
                subst
                  (λ (y : ManagedObject). Refs (Away lo hi (call now f m.heap o).1.next) y.slots)
                  (sym same) b.keeps.away
            | inr old ↦ Away-grows lo hi m.heap.next _ x.slots b.keeps.grows (v.away j x old)
          ];
        })
  ]

  pub call_on-IsNamed : IsNamed m → IsNamed (call_on now id f m).1
  call_on-IsNamed v = elim (Option-cases (Dict.get m.objects id)) [
    | inl e ↦ rw (call_on_missing e) v
    | inr (o, e) ↦
        let (own, kind) = call_identity now f m.heap o in
        rw (call_on_found o e) (record {
          distinct = put-Distinct m.objects id _ v.distinct;
          named = λ j x h. elim (get-put_cases m.objects id j _ x h) [
            | inl (q, same) ↦
                let (n, p, r, le) = v.named id o e in
                let type = ap (λ (y : ManagedObject). y.type) same ∙ kind in
                (
                  n,
                  ap (λ (y : ManagedObject). y.id) same ∙ own ∙ p ∙ q,
                  sym q ∙ r ∙ ap (λ (t : ObjectType). object_id t n) (sym type),
                  rw type le,
                )
            | inr old ↦ v.named j x old
          ];
        })
  ]
