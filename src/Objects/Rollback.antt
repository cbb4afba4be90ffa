-- ===== src/Objects/Rollback.antt =====
-- `snapshot_all`, any operations, `restore_snapshot` (kernel/objects.py).
use terminal_agent.Base.{
  ℕ, ◌≡◌, ◌∙◌, refl, sym, ap, subst, String, Option, none, some, List, [], ◌∷◌, ◌==◌, arith,
  Bool-cases, Option-cases, inl, inr,
}
use mathlib.Core.Option.{some-injective}
use terminal_agent.Dict
use terminal_agent.Dict.{Dict, Distinct, get-put}
use terminal_agent.Platform.{Platform}
use terminal_agent.Result.{ok}
use terminal_agent.Audit.Log.{AuditLog}
use terminal_agent.Objects.Heap.{Heap, Refs, Refs-mono, Agree, reads, reads-Agree}
use terminal_agent.Objects.Object.{ManagedObject}
use terminal_agent.Objects.Snapshot.{ObjectState}
use terminal_agent.Objects.Manager.{Manager, snapshot_each, snapshot_all, restore_snapshot}
use terminal_agent.Objects.Copies.{Below, Within, IsSmall}
use terminal_agent.Objects.Names.{object_id_inj}
use terminal_agent.Objects.Registry.{IsNamed, Apart}
use terminal_agent.Objects.Steps.{
  Each, Each-get, Took, snapshot_each-grows, snapshot_each_lem, snapshot_all-IsNamed, Op, run,
  run-Apart, run-IsNamed,
}
use terminal_agent.Objects.Restore.{Fits, restored, restored-none, restore_snapshot_lem}

module _ (os : Platform) (now : ℕ) where
  -- A snapshot has a state for no other identities than those of the registry.
  snapshot_each_missing :
      (objects : Dict ManagedObject) (h : Heap) (id : String)
      → Dict.get objects id ≡ none
      → Dict.get (snapshot_each os now objects h).0 id ≡ none
  unfolding snapshot_each Dict.get
  snapshot_each_missing [] h id e = refl
  snapshot_each_missing ((j, x) ∷ objects) h id e = elim (Bool-cases (j == id)) [
    | inl q ↦ absurd (cc (rw q at e))
    | inr q ↦ rw q (snapshot_each_missing objects _ id (rw q at e))
  ]

  snapshot_each-Distinct :
      (objects : Dict ManagedObject) (h : Heap)
      → Distinct objects
      → Distinct (snapshot_each os now objects h).0
  unfolding snapshot_each
  snapshot_each-Distinct [] h u = tt
  snapshot_each-Distinct ((j, x) ∷ objects) h u =
      (snapshot_each_missing objects _ j u.0, snapshot_each-Distinct objects _ u.1)

  -- A snapshot's cells are its own.
  snapshot_all_own :
      (m : Manager)
      → Each (λ o. Refs (Below m.heap.next) o.slots) m.objects
      → Apart m.heap.next
          (snapshot_all os now m).1.heap.next
          (snapshot_all os now m).1.heap
          (snapshot_all os now m).1
  unfolding snapshot_all
  snapshot_all_own m b =
      let (n, e) = snapshot_each-grows os now m.objects m.heap in
      record {
        room = omega arith;
        held = λ a w. refl;
        away = λ id o h.
            Refs-mono _ _ o.slots (λ a lt. (omega (arith, n), inl lt))
              (Each-get (λ x. Refs (Below m.heap.next) x.slots) m.objects id o b h);
      }

-- every reference of a live object is to an allocated cell
abbrev pub IsClosed : Manager → Type 0
IsClosed m = Each (λ o. Refs (Below m.heap.next) o.slots) m.objects

-- no object holds a container that a snapshot would keep by reference
abbrev pub AllSmall : Platform → Manager → Type 0
AllSmall os m = Each (λ o. IsSmall os m.heap o.slots) m.objects

-- What a restore of a snapshot of `before` leaves of `at_end`: `after`.
pub record IsRollback (before at_end after : Manager) : Type 0 where
  pub same_heap : after.heap ≡ at_end.heap
  -- an object of then that is still there reads as it did
  pub survivors :
      (id : String) (o x : ManagedObject)
      → Dict.get before.objects id ≡ some o
      → Dict.get at_end.objects id ≡ some x
      → (y : ManagedObject) × (Dict.get after.objects id ≡ some y)
        × (reads after.heap y.slots ≡ reads before.heap o.slots)
        × (y.type ≡ o.type)
  -- an object that was created since stays as it is
  pub later :
      (id : String)
      → Dict.get before.objects id ≡ none
      → Dict.get after.objects id ≡ Dict.get at_end.objects id
  -- an object that was deleted since stays deleted
  pub deleted : (id : String) → Dict.get at_end.objects id ≡ none → Dict.get after.objects id ≡ none

module _ (os : Platform) (sink : Option AuditLog) (taken now : ℕ) (m : Manager) (v : IsNamed m)
    (closed : IsClosed m) (small : AllSmall os m) (ops : List Op) where
  captured :
      (id : String) (s : ObjectState)
      → Dict.get (snapshot_all os taken m).0 id ≡ some s
      → (o : ManagedObject) × (Dict.get m.objects id ≡ some o)
        × Took m.heap.next
            (snapshot_all os taken m).1.heap.next
            (snapshot_all os taken m).1.heap
            m.heap
            o
            s
  unfolding snapshot_all
  captured id s e = elim (Option-cases (Dict.get m.objects id)) [
    | inl q ↦ absurd (cc (snapshot_each_missing os taken m.objects m.heap id q, e))
    | inr (o, q) ↦
        let (t, found, took) = snapshot_each_lem os taken m.objects m.heap closed small id o q in
        (
          o,
          q,
          subst
              (Took m.heap.next (snapshot_each os taken m.objects m.heap).1.next
                (snapshot_each os taken m.objects m.heap).1 m.heap o)
              (some-injective t s (sym found ∙ e)) took,
        )
  ]

  abbrev at_end : Manager
  at_end = run os sink ops (snapshot_all os taken m).1

  at_end-IsNamed : IsNamed at_end
  at_end-IsNamed = run-IsNamed os sink ops _ (snapshot_all-IsNamed os taken m v)

  captured-Fits :
      (id : String) (s : ObjectState)
      → Dict.get (snapshot_all os taken m).0 id ≡ some s
      → Fits at_end.objects id s
  captured-Fits id s e =
      let (o, q, took) = captured id s e in
      (
        took.small,
        λ x h.
            let (n, own, label, le) = v.named id o q in
            let (n', own', label', le') = at_end-IsNamed.named id x h in
            (
              took.id ∙ own ∙ sym own',
              took.type ∙ (object_id_inj o.type x.type n n' (sym label ∙ label')).0,
            ),
      )

  present :
      (id : String) (o : ManagedObject)
      → Dict.get m.objects id ≡ some o
      → (s : ObjectState) × (Dict.get (snapshot_all os taken m).0 id ≡ some s)
        × Took m.heap.next
            (snapshot_all os taken m).1.heap.next
            (snapshot_all os taken m).1.heap
            m.heap
            o
            s
  unfolding snapshot_all
  present = snapshot_each_lem os taken m.objects m.heap closed small

  absent :
      (id : String) → Dict.get m.objects id ≡ none → Dict.get (snapshot_all os taken m).0 id ≡ none
  unfolding snapshot_all
  absent = snapshot_each_missing os taken m.objects m.heap

  states-Distinct : Distinct (snapshot_all os taken m).0
  unfolding snapshot_all
  states-Distinct = snapshot_each-Distinct os taken m.objects m.heap v.distinct

  -- the cells that the snapshot filled hold what they held
  at_end-Agree :
      Agree
        (Within m.heap.next (snapshot_all os taken m).1.heap.next)
        (snapshot_all os taken m).1.heap
        at_end.heap
  at_end-Agree = (run-Apart os sink _ _ _ ops _ (snapshot_all_own os taken m closed)).held

  -- From a registry of named objects whose references are allocated and whose containers are small
  -- enough to be copied: after a snapshot, any sequence of creations, deletions, method calls and
  -- further snapshots, a restore of that snapshot raises nothing; it leaves the heap as it is,
  -- each object of then that is still there reads as it did, objects created since are unchanged,
  -- and deleted ones stay deleted.
  pub restore-IsRollback :
      ((restore_snapshot now
          (snapshot_all os taken m).0
          (run os sink ops (snapshot_all os taken m).1)).0
        ≡ ok tt)
      × IsRollback m
          (run os sink ops (snapshot_all os taken m).1)
          (restore_snapshot now
            (snapshot_all os taken m).0
            (run os sink ops (snapshot_all os taken m).1)).1
  restore-IsRollback =
      let (d, all, got) =
        restore_snapshot_lem now (snapshot_all os taken m).0 states-Distinct at_end captured-Fits in
      rw all (
        refl,
        record {
          same_heap = refl;
          survivors = λ id o x before after.
              let (s, found, took) = present id o before in
              (
                record x { slots = s.slots; updated_at = now },
                got id ∙ rw (found, after) refl,
                reads-Agree _ (snapshot_all os taken m).1.heap at_end.heap s.slots took.fresh
                      at_end-Agree
                    ∙ took.same,
                sym ((captured-Fits id s found).1 x after).1 ∙ took.type,
              );
          later = λ id before.
              got id
              ∙ ap (λ s. restored now s (Dict.get at_end.objects id)) (absent id before)
              ∙ restored-none now _;
          deleted = λ id after. got id ∙ ap (restored now _) after;
        },
      )
