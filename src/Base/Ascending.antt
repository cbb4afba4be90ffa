-- ===== src/Base/Ascending.antt =====
-- Python's `sorted(xs)` by a test: equal elements keep their order.
use mathlib.Core.Path.{◌≡◌}
use mathlib.Core.Logic.{◌↔◌, inl, inr}
use mathlib.Core.Bool.{Bool, true, false}
use mathlib.Core.List.{List, [], ◌∷◌}
use terminal_agent.Base.Tests.{Bool-cases, if◌then◌else◌}
use terminal_agent.Base.Lists.{In, here, there}

module _ {ℓ} {A : Type ℓ} (below : A → A → Bool) where
  unfoldable pub insert_above : A → List A → List A
  insert_above e [] = e ∷ []
  insert_above e (x ∷ l) = let rest = insert_above e l in if below x e then x ∷ rest else e ∷ x ∷ l

  unfoldable pub ascending : List A → List A
  unfolding insert_above
  ascending [] = []
  ascending (x ∷ l) = insert_above x (ascending l)

  -- no element is below an earlier one
  abbrev pub IsAscending : List A → Type ℓ
  IsAscending [] = Unit
  IsAscending (x ∷ l) = ((y : A) → In y l → below y x ≡ false) × IsAscending l

  In-insert_above : (e : A) {a : A} (l : List A) → In a (insert_above e l) ↔ In a (e ∷ l)
  unfolding insert_above
  In-insert_above e [] = ((λ h. h), (λ h. h))
  In-insert_above e {a} (x ∷ l) =
      let (to, from) = In-insert_above e {a = a} l in
      elim (Bool-cases (below x e)) [
        | inl q ↦ rw q (
          (λ m. elim m [
            | here p ↦ there (here p)
            | there k ↦ elim (to k) [ here p ↦ here p | there n ↦ there (there n) ]
          ]),
          (λ m. elim m [
            | here p ↦ there (from (here p))
            | there k ↦ elim k [ here p ↦ here p | there n ↦ there (from (there n)) ]
          ]),
        )
        | inr q ↦ rw q ((λ h. h), (λ h. h))
      ]

  pub In-ascending : {a : A} (l : List A) → In a (ascending l) ↔ In a l
  unfolding ascending
  In-ascending [] = ((λ h. h), (λ h. h))
  In-ascending {a} (x ∷ l) =
      let (to, from) = In-insert_above x {a = a} (ascending l) in
      let (to', from') = In-ascending {a = a} l in
      (
        (λ h. elim (to h) [ here p ↦ here p | there m ↦ there (to' m) ]),
        (λ h. from (elim h [ here p ↦ here p | there m ↦ there (from' m) ])),
      )

  -- for a test that is the strict part of a total order, up to ties
  module _ (asym : (x y : A) → below x y ≡ true → below y x ≡ false)
      (trans : (x y z : A) → below y x ≡ false → below z y ≡ false → below z x ≡ false) where
    insert_above-IsAscending : (e : A) (l : List A) → IsAscending l → IsAscending (insert_above e l)
    unfolding insert_above
    insert_above-IsAscending e [] d = ((λ y m. elim m [ ]), tt)
    insert_above-IsAscending e (x ∷ l) d = elim (Bool-cases (below x e)) [
      | inl q ↦ rw q (
        (λ y m. elim ((In-insert_above e l).0 m) [
          | here p ↦ rw p (asym x e q)
          | there k ↦ d.0 y k
        ]),
        insert_above-IsAscending e l d.1,
      )
      | inr q ↦ rw q ((λ y m. elim m [ here p ↦ rw p q | there k ↦ trans e x y q (d.0 y k) ]), d)
    ]

    pub ascending-IsAscending : (l : List A) → IsAscending (ascending l)
    unfolding ascending
    ascending-IsAscending [] = tt
    ascending-IsAscending (x ∷ l) =
        insert_above-IsAscending x (ascending l) (ascending-IsAscending l)
