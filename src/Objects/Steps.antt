-- ===== src/Objects/Steps.antt =====
-- Snapshots of the whole registry, and sequences of operations between a snapshot and its restore
-- (kernel/objects.py).
use terminal_agent.Base.{
  ℕ, ◌≤◌, ◌≡◌, ◌∙◌, refl, subst, String, Option, some, List, [], ◌∷◌, ◌==◌, arith, Bool-cases, inl,
  inr,
}
use mathlib.Core.Option.{some-injective}
use terminal_agent.Dict
use terminal_agent.Dict.{Dict, Distinct}
use terminal_agent.Platform.{Platform}
use terminal_agent.Audit.Log.{AuditLog}
use terminal_agent.Objects.Heap.{Heap, Refs, Refs-mono, Agree, reads, reads-Agree}
use terminal_agent.Objects.Object.{ManagedObject}
use terminal_agent.Objects.Snapshot.{ObjectState, shallow_copy, snapshot}
use terminal_agent.Objects.Manager as M
use terminal_agent.Objects.Manager.{Manager, Creation, Method, snapshot_each}
use terminal_agent.Objects.Copies.{
  Below, Within, IsSmall, IsSmall-Agree, shallow_copy-grows, shallow_copy_small,
}
use terminal_agent.Objects.Apart.{Away-grows}
use terminal_agent.Objects.Registry.{
  IsNamed, Apart, create-IsNamed, delete-IsNamed, call_on-IsNamed, create-Apart, delete-Apart,
  call_on-Apart,
}

-- every object's data
abbrev pub Each : (ManagedObject → Type 0) → Dict ManagedObject → Type 0
Each P [] = Unit
Each P ((id, o) ∷ objects) = P o × Each P objects

pub Each-get :
    (P : ManagedObject → Type 0) (objects : Dict ManagedObject) (id : String) (o : ManagedObject)
    → Each P objects
    → Dict.get objects id ≡ some o
    → P o
unfolding Dict.get
Each-get P [] id o h e = absurd (cc)
Each-get P ((j, x) ∷ objects) id o h e = elim (Bool-cases (j == id)) [
  | inl q ↦ subst P (some-injective x o (rw q at e)) h.0
  | inr q ↦ Each-get P objects id o h.1 (rw q at e)
]

-- what a snapshot took of one object: a copy in the cells from `lo` to `hi` that reads, in `g`, as
-- the object did in `h`
pub record Took (lo hi : ℕ) (g h : Heap) (o : ManagedObject) (s : ObjectState) : Type 0 where
  pub id : s.id ≡ o.id
  pub type : s.type ≡ o.type
  pub small : s.large_refs ≡ []
  pub fresh : Refs (Within lo hi) s.slots
  pub same : reads g s.slots ≡ reads h o.slots

module _ (os : Platform) (now : ℕ) where
  pub snapshot_each-grows :
      (objects : Dict ManagedObject) (h : Heap)
      → (h.next ≤ (snapshot_each os now objects h).1.next)
        × Agree (Below h.next) h (snapshot_each os now objects h).1
  unfolding snapshot_each
  snapshot_each-grows [] h = (omega arith, λ a lt. refl)
  snapshot_each-grows ((id, o) ∷ objects) h =
      let (n, e) = shallow_copy-grows os o.slots h in
      let (n', e') = snapshot_each-grows objects (shallow_copy os o.slots h).2 in
      (omega arith, λ a lt. e' a (omega arith) ∙ e a lt)

  pub snapshot_all-Apart :
      (lo hi : ℕ) (g : Heap) (m : Manager)
      → Apart lo hi g m
      → Apart lo hi g (M.snapshot_all os now m).1
  unfolding M.snapshot_all
  snapshot_all-Apart lo hi g m v =
      let (n, e) = snapshot_each-grows m.objects m.heap in
      record {
        room = omega (arith, v.room);
        held = λ a w. e a (omega (arith, v.room)) ∙ v.held a w;
        away = λ id o h. Away-grows lo hi m.heap.next _ o.slots n (v.away id o h);
      }

  pub snapshot_all-IsNamed : (m : Manager) → IsNamed m → IsNamed (M.snapshot_all os now m).1
  unfolding M.snapshot_all
  snapshot_all-IsNamed m v = record { distinct = v.distinct; named = v.named }

-- the operations of the registry and of its objects, but for `restore_snapshot`
pub data Op : Type 0 where
  create : ℕ → Creation → Op
  delete : ℕ → String → Op
  call_on : ℕ → String → Method → Op
  snapshot_all : ℕ → Op

module _ (os : Platform) (sink : Option AuditLog) where
  unfoldable pub step : Op → Manager → Manager
  step (create now c) m = (M.create os now c m sink).1
  step (delete now id) m = (M.delete os now id m sink).1
  step (call_on now id f) m = (M.call_on now id f m).1
  step (snapshot_all now) m = (M.snapshot_all os now m).1

  -- what the operations write to the log
  unfoldable pub logged : Op → Manager → Option AuditLog
  logged (create now c) m = (M.create os now c m sink).2
  logged (delete now id) m = (M.delete os now id m sink).2
  logged (call_on now id f) m = sink
  logged (snapshot_all now) m = sink

  unfoldable pub run : List Op → Manager → Manager
  unfolding step
  run [] m = m
  run (op ∷ ops) m = run ops (step op m)

  step-Apart :
      (lo hi : ℕ) (g : Heap) (op : Op) (m : Manager) → Apart lo hi g m → Apart lo hi g (step op m)
  unfolding step
  step-Apart lo hi g (create now c) m v = create-Apart os now sink lo hi g c m v
  step-Apart lo hi g (delete now id) m v = delete-Apart os now sink lo hi g id m v
  step-Apart lo hi g (call_on now id f) m v = call_on-Apart now id f m lo hi g v
  step-Apart lo hi g (snapshot_all now) m v = snapshot_all-Apart os now lo hi g m v

  step-IsNamed : (op : Op) (m : Manager) → IsNamed m → IsNamed (step op m)
  unfolding step
  step-IsNamed (create now c) m v = create-IsNamed os now sink c m v
  step-IsNamed (delete now id) m v = delete-IsNamed os now sink id m v
  step-IsNamed (call_on now id f) m v = call_on-IsNamed now id f m v
  step-IsNamed (snapshot_all now) m v = snapshot_all-IsNamed os now m v

  pub run-Apart :
      (lo hi : ℕ) (g : Heap) (ops : List Op) (m : Manager)
      → Apart lo hi g m
      → Apart lo hi g (run ops m)
  unfolding run
  run-Apart lo hi g [] m v = v
  run-Apart lo hi g (op ∷ ops) m v = run-Apart lo hi g ops (step op m) (step-Apart lo hi g op m v)

  -- Creations, deletions, method calls and snapshots keep every object under its own identity,
  -- which has its type and a number that the counter of that type has passed.
  pub run-IsNamed : (ops : List Op) (m : Manager) → IsNamed m → IsNamed (run ops m)
  unfolding run
  run-IsNamed [] m v = v
  run-IsNamed (op ∷ ops) m v = run-IsNamed ops (step op m) (step-IsNamed op m v)

Each-Below :
    (n n' : ℕ) (objects : Dict ManagedObject)
    → n ≤ n'
    → Each (λ o. Refs (Below n) o.slots) objects
    → Each (λ o. Refs (Below n') o.slots) objects
Each-Below n n' [] le b = tt
Each-Below n n' ((j, x) ∷ objects) le b = (
  Refs-mono (Below n) (Below n') x.slots (λ a lt. omega arith) b.0,
  Each-Below n n' objects le b.1,
)

Each-IsSmall :
    (os : Platform) (h g : Heap) (objects : Dict ManagedObject)
    → Each (λ o. Refs (Below h.next) o.slots) objects
    → Agree (Below h.next) h g
    → Each (λ o. IsSmall os h o.slots) objects
    → Each (λ o. IsSmall os g o.slots) objects
Each-IsSmall os h g [] b e small = tt
Each-IsSmall os h g ((j, x) ∷ objects) b e small =
    (IsSmall-Agree os h.next h g x.slots b.0 e small.0, Each-IsSmall os h g objects b.1 e small.1)

module _ (os : Platform) (now : ℕ) where
  -- A snapshot of objects with small data, one by one.
  pub snapshot_each_lem :
      (objects : Dict ManagedObject) (h : Heap)
      → Each (λ o. Refs (Below h.next) o.slots) objects
      → Each (λ o. IsSmall os h o.slots) objects
      → (id : String) (o : ManagedObject) → Dict.get objects id ≡ some o
      → (s : ObjectState) × (Dict.get (snapshot_each os now objects h).0 id ≡ some s)
        × Took h.next
            (snapshot_each os now objects h).1.next
            (snapshot_each os now objects h).1
            h
            o
            s
  unfolding snapshot_each Dict.get
  snapshot_each_lem [] h b small id o e = absurd (cc)
  snapshot_each_lem ((j, x) ∷ objects) h b small id o e = elim (Bool-cases (j == id)) [
    | inl q ↦
        let same_object = some-injective x o (rw q at e) in
        let (none_large, fresh, same) = shallow_copy_small os x.slots h b.0 small.0 in
        let (n, g) = snapshot_each-grows os now objects (shallow_copy os x.slots h).2 in
        let taken : Took h.next (snapshot_each os now objects (shallow_copy os x.slots h).2).1.next
            (snapshot_each os now objects (shallow_copy os x.slots h).2).1 h x
            (snapshot os now h x).0 =
          unfold snapshot in
          record {
            id = refl;
            type = refl;
            small = none_large;
            fresh =
                Refs-mono _ _ (shallow_copy os x.slots h).0 (λ a w. (w.0, omega (arith, w.1)))
                  fresh;
            same =
                reads-Agree (Below (shallow_copy os x.slots h).2.next) (shallow_copy os x.slots h).2
                  (snapshot_each os now objects (shallow_copy os x.slots h).2).1
                  (shallow_copy os x.slots h).0
                  (Refs-mono _ (Below (shallow_copy os x.slots h).2.next)
                    (shallow_copy os x.slots h).0 (λ a w. w.1) fresh)
                  g
                ∙ same;
          } in
        (
          (snapshot os now h x).0,
          rw q refl,
          subst
              (λ (y : ManagedObject).
                Took h.next (snapshot_each os now objects (shallow_copy os x.slots h).2).1.next
                  (snapshot_each os now objects (shallow_copy os x.slots h).2).1 h y
                  (snapshot os now h x).0)
              same_object taken,
        )
    | inr q ↦
        let h1 = (shallow_copy os x.slots h).2 in
        let (n, g) = shallow_copy-grows os x.slots h in
        let (s, found, t) =
          snapshot_each_lem objects h1 (Each-Below h.next h1.next objects n b.1)
            (Each-IsSmall os h h1 objects b.1 g small.1) id o (rw q at e) in
        (
          s,
          rw q found,
          record {
            id = t.id;
            type = t.type;
            small = t.small;
            fresh = Refs-mono _ _ s.slots (λ a w. (omega (arith, w.0), w.1)) t.fresh;
            same =
                t.same
                ∙ reads-Agree (Below h.next) h h1 o.slots
                    (Each-get (λ x. Refs (Below h.next) x.slots) objects id o b.1 (rw q at e)) g;
          },
        )
  ]
