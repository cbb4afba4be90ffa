-- ===== src/Objects/Copies.antt =====
-- What a snapshot of one object holds, and what a restore gives back (kernel/objects.py).
use terminal_agent.Base.{
  ℕ, suc, ◌+◌, ◌<◌, ◌≤◌, ◌≡◌, refl, ap, ◌∙◌, false, [], ◌∷◌, arith, Bool-cases, inl, inr,
}
use mathlib.Core.Path.{ap₂}
use terminal_agent.Dict.{Dict}
use terminal_agent.Platform.{Platform}
use terminal_agent.Value.{Value}
use terminal_agent.Objects.Heap.{
  Heap, alloc, atom, ref, Data, reads, Refs, Refs-mono, Agree, reads-Agree,
}
use terminal_agent.Objects.Snapshot.{is_large, shallow_copy}

-- every container of the data is small enough to be copied
abbrev pub IsSmall : Platform → Heap → Data → Type 0
IsSmall os h d = Refs (λ a. is_large os h a ≡ false) d

abbrev pub Below : ℕ → ℕ → Type 0
Below n a = a < n

abbrev pub Within : ℕ → ℕ → ℕ → Type 0
Within lo hi a = (lo ≤ a) × (a < hi)

pub Agree-alloc : (v : Value) (h : Heap) → Agree (Below h.next) h (alloc v h).1
unfolding alloc
Agree-alloc v h a lt = ground arith

pub cell-alloc :
    (v : Value) (h : Heap)
    → ((alloc v h).0 ≡ h.next) × ((alloc v h).1.cell h.next ≡ v) × ((alloc v h).1.next ≡ h.next + 1)
unfolding alloc
cell-alloc v h = ground arith

-- growing after an allocation is growing
grows-alloc :
    (v : Value) (h g : Heap)
    → ((alloc v h).1.next ≤ g.next) × Agree (Below (alloc v h).1.next) (alloc v h).1 g
    → (suc h.next ≤ g.next) × Agree (Below h.next) h g
grows-alloc v h g r =
    let (at, held, step) = cell-alloc v h in
    (omega (arith, r.0, step), λ a lt. r.1 a (omega (arith, step)) ∙ Agree-alloc v h a lt)

module _ (os : Platform) where
  -- a copy only adds cells
  pub shallow_copy-grows :
      (d : Data) (h : Heap)
      → (h.next ≤ (shallow_copy os d h).2.next) × Agree (Below h.next) h (shallow_copy os d h).2
  unfolding shallow_copy
  shallow_copy-grows [] h = (omega arith, λ a lt. refl)
  shallow_copy-grows ((k, atom v) ∷ d) h = shallow_copy-grows d h
  shallow_copy-grows ((k, ref a) ∷ d) h = elim (Bool-cases (is_large os h a)) [
    | inl e ↦ rw (e, shallow_copy) (shallow_copy-grows d h)
    | inr e ↦
        let (n, g) = grows-alloc (h.cell a) h _ (shallow_copy-grows d (alloc (h.cell a) h).1) in
        rw (e, shallow_copy) (omega arith, g)
  ]

  -- smallness is seen alike in heaps that agree on the data
  pub IsSmall-Agree :
      (n : ℕ) (h g : Heap) (d : Data)
      → Refs (Below n) d
      → Agree (Below n) h g
      → IsSmall os h d
      → IsSmall os g d
  unfolding is_large
  IsSmall-Agree n h g [] b e s = tt
  IsSmall-Agree n h g ((k, atom v) ∷ d) b e s = IsSmall-Agree n h g d b e s
  IsSmall-Agree n h g ((k, ref a) ∷ d) b e s = (rw (e a b.0) s.0, IsSmall-Agree n h g d b.1 e s.1)

  -- A snapshot of data whose references are allocated and whose containers are all small keeps
  -- nothing by reference, refers only to cells that the snapshot allocated, and reads as the data
  -- did.
  pub shallow_copy_small :
      (d : Data) (h : Heap)
      → Refs (Below h.next) d
      → IsSmall os h d
      → ((shallow_copy os d h).1 ≡ [])
        × Refs (Within h.next (shallow_copy os d h).2.next) (shallow_copy os d h).0
        × (reads (shallow_copy os d h).2 (shallow_copy os d h).0 ≡ reads h d)
  unfolding shallow_copy
  shallow_copy_small [] h b s = (refl, tt, refl)
  shallow_copy_small ((k, atom v) ∷ d) h b s =
      let (none_large, fresh, same) = shallow_copy_small d h b s in
      (none_large, fresh, ap (λ (l : Dict Value). (k, v) ∷ l) same)
  shallow_copy_small ((k, ref a) ∷ d) h b s =
      let h1 = (alloc (h.cell a) h).1 in
      let (at, held, step) = cell-alloc (h.cell a) h in
      let (n, g) = shallow_copy-grows d h1 in
      let below : Refs (Below h1.next) d =
        Refs-mono (Below h.next) (Below h1.next) d (λ x lt. omega arith) b.1 in
      let (none_large, fresh, same) =
        shallow_copy_small d h1 below
          (IsSmall-Agree h.next h h1 d b.1 (Agree-alloc (h.cell a) h) s.1) in
      rw (s.0, shallow_copy)
        (
          none_large,
          (
            (omega arith, omega arith),
            Refs-mono _ _ (shallow_copy os d h1).0 (λ x w. (omega arith, w.1)) fresh,
          ),
          ap₂ (λ (v : Value) (l : Dict Value). (k, v) ∷ l)
              (g (alloc (h.cell a) h).0 (omega arith) ∙ ap h1.cell at ∙ held)
              (same ∙ reads-Agree (Below h.next) h h1 d b.1 (Agree-alloc (h.cell a) h)),
        )
