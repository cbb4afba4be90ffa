-- ===== src/Dict.antt =====
-- Python's `dict` with string keys: the entries in insertion order. A write to a present key keeps
-- its place, as in Python; the laws say what reads return.
use terminal_agent.Base.{
  String, ◌≡◌, ◌∙◌, refl, Bool, Option, none, some, is_some, List, [], ◌∷◌, map, arith, ◌==◌,
  eq_iff, if◌then◌else◌, In, here, there, Bool-cases, inl, inr,
}

abbrev pub Dict {ℓ} : Type ℓ → Type ℓ
Dict V = List (String × V)

module _ {ℓ} {V : Type ℓ} where
  -- `d.get(k)`
  unfoldable pub get : Dict V → String → Option V
  get [] k = none
  get ((j, v) ∷ d) k = if j == k then some v else get d k

  -- `d[k] = v`
  unfoldable pub put : Dict V → String → V → Dict V
  put [] k v = (k, v) ∷ []
  put ((j, w) ∷ d) k v = let rest = put d k v in if j == k then (j, v) ∷ d else (j, w) ∷ rest

  -- `d.pop(k, None)`, as far as the dict goes
  unfoldable pub remove : Dict V → String → Dict V
  remove [] k = []
  remove ((j, w) ∷ d) k = let rest = remove d k in if j == k then rest else (j, w) ∷ rest

  -- `k in d`
  abbrev pub has : Dict V → String → Bool
  has d k = is_some (get d k)

  abbrev pub values : Dict V → List V
  values = map (λ e. e.1)

  abbrev pub keys : Dict V → List String
  keys = map (λ e. e.0)

  -- `d.get(k, default)`
  abbrev pub get_or : Dict V → String → V → V
  get_or d k w = elim (get d k) [ none ↦ w | some v ↦ v ]

  pub get-put :
      (d : Dict V) (k j : String) (v : V) → get (put d k v) j ≡ (if k == j then some v else get d j)
  unfolding get put
  get-put [] k j v = refl
  get-put ((i, w) ∷ d) k j v = ground (arith, eq_iff k j, eq_iff i k, eq_iff i j, get-put d k j v)

  pub get-remove :
      (d : Dict V) (k j : String) → get (remove d k) j ≡ (if k == j then none else get d j)
  unfolding remove get
  get-remove [] k j = ground arith
  get-remove ((i, w) ∷ d) k j = ground (arith, eq_iff k j, eq_iff i k, eq_iff i j, get-remove d k j)

  -- what a read returns is among the values
  pub In-of_get : (d : Dict V) (k : String) (v : V) → get d k ≡ some v → In (k, v) d
  unfolding get
  In-of_get [] k v h = cc
  In-of_get ((j, w) ∷ d) k v h = elim (Bool-cases (j == k)) [
    | inl e ↦ here (cc ((eq_iff j k).0 e, rw e at h))
    | inr e ↦ there (In-of_get d k v (rw e at h))
  ]

module _ {ℓ} {V : Type ℓ} where
  -- no key stands twice
  abbrev pub Distinct : Dict V → Type ℓ
  Distinct [] = Unit
  Distinct ((k, v) ∷ d) = (get d k ≡ none) × Distinct d

  pub put-Distinct : (d : Dict V) (k : String) (v : V) → Distinct d → Distinct (put d k v)
  unfolding put get
  put-Distinct [] k v h = (refl, tt)
  put-Distinct ((j, w) ∷ d) k v h = elim (Bool-cases (j == k)) [
    | inl e ↦ rw e h
    | inr e ↦
        rw e (get-put d k j v ∙ ground (arith, eq_iff j k, eq_iff k j), put-Distinct d k v h.1)
  ]

  pub remove-Distinct : (d : Dict V) (k : String) → Distinct d → Distinct (remove d k)
  unfolding remove get
  remove-Distinct [] k h = tt
  remove-Distinct ((j, w) ∷ d) k h = elim (Bool-cases (j == k)) [
    | inl e ↦ rw e (remove-Distinct d k h.1)
    | inr e ↦ rw e (get-remove d k j ∙ ground (arith, h.0), remove-Distinct d k h.1)
  ]
