-- ===== src/Base/Lists.antt =====
-- Lists over the native numbers, Boolean searches, and the predicates `All` and `In`.
use Prim.Native.Nat.{ℕ, zero, suc, ◌+◌, ◌≤◌}
use mathlib.Core.Path.{◌≡◌, refl, sym, subst}
use mathlib.Core.Logic.{◌⊎◌, ◌↔◌, inl, inr}
use mathlib.Core.Bool.{Bool, true, false, ◌||◌, ◌&&◌}
use mathlib.Core.List.{List, [], ◌∷◌, ◌++◌}
use native.Mathlib.Omega.{arith}
use terminal_agent.Base.Tests.{Bool-cases, if◌then◌else◌}

module _ {ℓ} {A : Type ℓ} where
  abbrev pub length : List A → ℕ
  length [] = 0
  length (x ∷ xs) = suc (length xs)

  abbrev pub take : ℕ → List A → List A
  take zero xs = []
  take (suc n) [] = []
  take (suc n) (x ∷ xs) = x ∷ take n xs

  -- `any(p(x) for x in xs)`
  abbrev pub any : (A → Bool) → List A → Bool
  any p [] = false
  any p (x ∷ xs) = p x || any p xs

  abbrev pub all : (A → Bool) → List A → Bool
  all p [] = true
  all p (x ∷ xs) = p x && all p xs

  -- `[x for x in xs if p(x)]`
  abbrev pub select : (A → Bool) → List A → List A
  select p [] = []
  select p (x ∷ xs) = let rest = select p xs in if p x then x ∷ rest else rest

  abbrev pub All {κ} : (A → Type κ) → List A → Type κ
  All P [] = Unit
  All P (x ∷ xs) = P x × All P xs

  -- membership, kept as evidence
  pub data In (a : A) : List A → Type ℓ where
    here : {x : A} {xs : List A} → a ≡ x → In a (x ∷ xs)
    there : {x : A} {xs : List A} → In a xs → In a (x ∷ xs)

module _ {ℓ} {A : Type ℓ} where
  pub In-append_left : {a : A} (xs ys : List A) → In a xs → In a (xs ++ ys)
  In-append_left [] ys h = elim h [ ]
  In-append_left (x ∷ xs) ys (here e) = here e
  In-append_left (x ∷ xs) ys (there h) = there (In-append_left xs ys h)

  pub In-append_right : {a : A} (xs ys : List A) → In a ys → In a (xs ++ ys)
  In-append_right [] ys h = h
  In-append_right (x ∷ xs) ys h = there (In-append_right xs ys h)

  pub In-append_cases : {a : A} (xs ys : List A) → In a (xs ++ ys) → In a xs ⊎ In a ys
  In-append_cases [] ys h = inr h
  In-append_cases (x ∷ xs) ys (here e) = inl (here e)
  In-append_cases (x ∷ xs) ys (there h) = elim (In-append_cases xs ys h) [
    | inl m ↦ inl (there m)
    | inr m ↦ inr m
  ]

  -- a filter keeps exactly what passes
  In-of_select : {a : A} (p : A → Bool) (xs : List A) → In a (select p xs) → In a xs × (p a ≡ true)
  In-of_select p [] h = elim h [ ]
  In-of_select {a} p (x ∷ xs) h = elim (Bool-cases (p x)) [
    | inl e ↦ elim (rw e at h) [
      | here q ↦ (here q, rw q e)
      | there m ↦ let (i, t) = In-of_select p xs m in (there i, t)
    ]
    | inr e ↦ let (i, t) = In-of_select p xs (rw e at h) in (there i, t)
  ]

  In-to_select : {a : A} (p : A → Bool) (xs : List A) → In a xs → p a ≡ true → In a (select p xs)
  In-to_select p [] h t = elim h [ ]
  In-to_select p (x ∷ xs) (here q) t = rw (← q, t) (here refl)
  In-to_select p (x ∷ xs) (there m) t = elim (Bool-cases (p x)) [
    | inl e ↦ rw e (there (In-to_select p xs m t))
    | inr e ↦ rw e (In-to_select p xs m t)
  ]

  pub In-select :
      {a : A} (p : A → Bool) (xs : List A) → In a (select p xs) ↔ (In a xs × (p a ≡ true))
  In-select p xs = (In-of_select p xs, λ h. In-to_select p xs h.0 h.1)

  pub All-In {κ} : (P : A → Type κ) {a : A} (xs : List A) → All P xs → In a xs → P a
  All-In P [] h m = elim m [ ]
  All-In P (x ∷ xs) h (here e) = subst P (sym e) h.0
  All-In P (x ∷ xs) h (there m) = All-In P xs h.1 m

  pub any-In : (p : A → Bool) (xs : List A) → any p xs ≡ true → (a : A) × In a xs × (p a ≡ true)
  any-In p [] h = cc
  any-In p (x ∷ xs) h = elim (Bool-cases (p x)) [
    | inl e ↦ (x, here refl, e)
    | inr e ↦ let (a, i, t) = any-In p xs (rw e at h) in (a, there i, t)
  ]

  pub any-of_In : (p : A → Bool) {a : A} (xs : List A) → In a xs → p a ≡ true → any p xs ≡ true
  any-of_In p [] h t = elim h [ ]
  any-of_In p (x ∷ xs) (here e) t = rw (← e, t)
  any-of_In p (x ∷ xs) (there m) t = ground (arith, any-of_In p xs m t)

module _ {ℓ} {A : Type ℓ} where
  pub length-append : (xs ys : List A) → length (xs ++ ys) ≡ length xs + length ys
  length-append [] ys = omega arith
  length-append (x ∷ xs) ys = omega (arith, length-append xs ys)

  pub length-take-le : (n : ℕ) (xs : List A) → length (take n xs) ≤ n
  length-take-le zero xs = omega arith
  length-take-le (suc n) [] = omega arith
  length-take-le (suc n) (x ∷ xs) = omega (arith, length-take-le n xs)

  pub length-select-le : (p : A → Bool) (xs : List A) → length (select p xs) ≤ length xs
  length-select-le p [] = omega arith
  length-select-le p (x ∷ xs) = ground (arith, length-select-le p xs)
