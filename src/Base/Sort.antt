-- ===== src/Base/Sort.antt =====
-- Python's `sorted(xs, key=key, reverse=True)`: the greatest key comes first, and equal keys keep
-- their order.
use Prim.Native.Nat.{ℕ, ◌≤◌}
use mathlib.Core.Logic.{◌↔◌}
use mathlib.Core.List.{List, [], ◌∷◌}
use mathlib.Core.Logic.{inl, inr}
use native.Mathlib.Omega.{arith}
use terminal_agent.Base.Tests.{leb, Bool-cases, if◌then◌else◌}
use terminal_agent.Base.Lists.{In, here, there}

module _ {ℓ} {A : Type ℓ} (key : A → ℕ) where
  unfoldable pub insert : A → List A → List A
  insert e [] = e ∷ []
  insert e (x ∷ l) = let rest = insert e l in if leb (key x) (key e) then e ∷ x ∷ l else x ∷ rest

  unfoldable pub sorted : List A → List A
  unfolding insert
  sorted [] = []
  sorted (x ∷ l) = insert x (sorted l)

  -- no key is below a later one
  abbrev pub IsDescending : List A → Type ℓ
  IsDescending [] = Unit
  IsDescending (x ∷ l) = ((y : A) → In y l → key y ≤ key x) × IsDescending l

  In-insert : (e : A) {a : A} (l : List A) → In a (insert e l) ↔ In a (e ∷ l)
  unfolding insert
  In-insert e [] = ((λ h. h), (λ h. h))
  In-insert e {a} (x ∷ l) = elim (Bool-cases (leb (key x) (key e))) [
    | inl q ↦ rw q ((λ h. h), (λ h. h))
    | inr q ↦ rw q (swap (In-insert e {a = a} l))
  ]
    where
      swap : (In a (insert e l) ↔ In a (e ∷ l)) → In a (x ∷ insert e l) ↔ In a (e ∷ x ∷ l)
      swap h = (
        (λ m. elim m [
          | here p ↦ there (here p)
          | there k ↦ elim (h.0 k) [ here p ↦ here p | there n ↦ there (there n) ]
        ]),
        (λ m. elim m [
          | here p ↦ there (h.1 (here p))
          | there k ↦ elim k [ here p ↦ here p | there n ↦ there (h.1 (there n)) ]
        ]),
      )

  pub In-sorted : {a : A} (l : List A) → In a (sorted l) ↔ In a l
  unfolding sorted
  In-sorted [] = ((λ h. h), (λ h. h))
  In-sorted {a} (x ∷ l) =
      let (to, from) = In-insert x {a = a} (sorted l) in
      let (to', from') = In-sorted {a = a} l in
      (
        (λ h. elim (to h) [ here p ↦ here p | there m ↦ there (to' m) ]),
        (λ h. from (elim h [ here p ↦ here p | there m ↦ there (from' m) ])),
      )

  insert-IsDescending : (e : A) (l : List A) → IsDescending l → IsDescending (insert e l)
  unfolding insert
  insert-IsDescending e [] d = ((λ y m. elim m [ ]), tt)
  insert-IsDescending e (x ∷ l) d = elim (Bool-cases (leb (key x) (key e))) [
    | inl q ↦
        rw q
          ((λ y m. elim m [ here p ↦ rw p (ground arith) | there k ↦ ground (arith, d.0 y k) ]), d)
    | inr q ↦ rw q (
      (λ y m. elim ((In-insert e l).0 m) [ here p ↦ rw p (ground arith) | there k ↦ d.0 y k ]),
      insert-IsDescending e l d.1,
    )
  ]

  pub sorted-IsDescending : (l : List A) → IsDescending (sorted l)
  unfolding sorted
  sorted-IsDescending [] = tt
  sorted-IsDescending (x ∷ l) = insert-IsDescending x (sorted l) (sorted-IsDescending l)
