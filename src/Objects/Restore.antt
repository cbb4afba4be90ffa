-- ===== src/Objects/Restore.antt =====
-- What `restore_snapshot` leaves, with states that fit the objects (kernel/objects.py).
use terminal_agent.Base.{
  ℕ, ◌≡◌, ◌∙◌, refl, sym, ap, String, false, Option, none, some, [], ◌∷◌, ◌==◌, Bool-cases,
  Option-cases, inl, inr, eq_iff, if◌then◌else◌,
}
use terminal_agent.Dict
use terminal_agent.Dict.{Dict, Distinct, get-put}
use terminal_agent.Result.{ok}
use terminal_agent.Objects.Heap.{reads}
use terminal_agent.Objects.Object.{ManagedObject}
use terminal_agent.Objects.Snapshot.{ObjectState, restore, get_full_data, full_data}
use terminal_agent.Objects.Manager.{Manager, restore_one, restore_snapshot}
use terminal_agent.Objects.Registry.{same_type_iff}

-- a state that a restore of the objects can use, with nothing to copy
abbrev pub Fits : Dict ManagedObject → String → ObjectState → Type 0
Fits objects id s =
    (s.large_refs ≡ [])
    × ((o : ManagedObject) → Dict.get objects id ≡ some o → (s.id ≡ o.id) × (s.type ≡ o.type))

-- what a restore leaves of an object
abbrev pub restored : ℕ → Option ObjectState → Option ManagedObject → Option ManagedObject
restored now s none = none
restored now none (some o) = some o
restored now (some s) (some o) = some (record o { slots = s.slots; updated_at = now })

module _ (now : ℕ) where
  -- One round with a state that fits.
  restore_one_lem :
      (id : String) (s : ObjectState) (m : Manager)
      → Fits m.objects id s
      → (d : Dict ManagedObject) × (restore_one now id s m ≡ (ok tt, record m { objects = d }))
        × ((j : String)
            → Dict.get d j ≡ (
                if id == j
                then restored now (some s) (Dict.get m.objects id)
                else Dict.get m.objects j))
  unfolding restore_one restore get_full_data full_data
  restore_one_lem id s m fit = elim (Option-cases (Dict.get m.objects id)) [
    | inl e ↦ (
      m.objects,
      rw (e, restore_one) refl,
      λ j. rw e (elim (Bool-cases (id == j)) [
        | inl q ↦ rw q (rw (sym ((eq_iff id j).0 q)) e)
        | inr q ↦ rw q refl
      ]),
    )
    | inr (o, e) ↦
        let (own, kind) = fit.1 o e in
        (
          Dict.put m.objects id (record o { slots = s.slots; updated_at = now }),
          rw
              (
                e,
                restore_one,
                (eq_iff s.id o.id).1 own,
                (same_type_iff s.type o.type).1 kind,
                fit.0,
                full_data,
              )
              refl,
          λ j. rw e (get-put m.objects id j _),
        )
  ]

  pub restored-none : (x : Option ManagedObject) → restored now none x ≡ x
  restored-none none = refl
  restored-none (some o) = refl

  -- The whole loop, with states that fit.
  pub restore_snapshot_lem :
      (states : Dict ObjectState)
      → Distinct states
      → (m : Manager)
      → ((id : String) (s : ObjectState) → Dict.get states id ≡ some s → Fits m.objects id s)
      → (d : Dict ManagedObject) × (restore_snapshot now states m
          ≡ (ok tt, record m { objects = d }))
        × ((j : String) → Dict.get d j ≡ restored now (Dict.get states j) (Dict.get m.objects j))
  unfolding restore_snapshot Dict.get
  restore_snapshot_lem [] u m fit =
      (m.objects, refl, λ j. sym (restored-none (Dict.get m.objects j)))
  restore_snapshot_lem ((id, s) ∷ states) u m fit =
      let (d1, one, reads1) = restore_one_lem id s m (fit id s (rw ((eq_iff id id).1 refl) refl)) in
      let other : (j : String) (t : ObjectState) → Dict.get states j ≡ some t → id == j ≡ false =
        λ j t e. elim (Bool-cases (id == j)) [
          | inl q ↦ absurd (cc (u.0, (eq_iff id j).0 q, e))
          | inr q ↦ q
        ] in
      let (d, all, reads) =
        restore_snapshot_lem states u.1 (record m { objects = d1 })
          (λ j t e.
            let old = fit j t (rw (other j t e) e) in
            (old.0, λ o h. old.1 o (sym (reads1 j ∙ rw (other j t e) refl) ∙ h))) in
      (
        d,
        rw one all,
        λ j. reads j ∙ elim (Bool-cases (id == j)) [
          | inl q ↦
              let mine : Dict.get states j ≡ none =
                ap (Dict.get states) (sym ((eq_iff id j).0 q)) ∙ u.0 in
              let there : Dict.get d1 j ≡ restored now (some s) (Dict.get m.objects j) =
                reads1 j
                ∙ rw q
                    (ap (λ k. restored now (some s) (Dict.get m.objects k)) ((eq_iff id j).0 q)) in
              ap (λ x. restored now x (Dict.get d1 j)) mine
              ∙ restored-none (Dict.get d1 j)
              ∙ there
              ∙ rw q refl
          | inr q ↦
              let there : Dict.get d1 j ≡ Dict.get m.objects j = reads1 j ∙ rw q refl in
              ap (restored now (Dict.get states j)) there ∙ rw q refl
        ],
      )
