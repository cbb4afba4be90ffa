-- ===== src/Sessions/Tables.antt =====
-- The tables of the session database: what reads return after a replacement, and that loading a
-- table gives the table back (`_persist_grant`, `_load_persisted_data` of kernel/sessions.py).
use terminal_agent.Base.{
  ◌≡◌, ◌∙◌, refl, sym, ap, String, Bool, true, Option, none, some, [], ◌∷◌, ◌++◌, ◌==◌, select,
  if◌then◌else◌, arith, eq_iff, Bool-cases, inl, inr,
}
use mathlib.Core.Option.{some-injective}
use mathlib.Core.List.{append-nil, append_assoc}
use text.Mathlib.TextPositions.{eq_refl}
use terminal_agent.Dict
use terminal_agent.Dict.{Dict}
use terminal_agent.Sessions.{replace, load}

-- the value if it passes
unfoldable pub kept {ℓ} : {V : Type ℓ} → (V → Bool) → Option V → Option V
kept p none = none
kept p (some v) = if p v then some v else none

pub kept-kept {ℓ} : {V : Type ℓ} (p : V → Bool) (o : Option V) → kept p (kept p o) ≡ kept p o
unfolding kept
kept-kept p none = refl
kept-kept p (some v) = elim (Bool-cases (p v)) [ inl e ↦ rw (e, e) refl | inr e ↦ rw e refl ]

module _ {ℓ} {V : Type ℓ} where
  pub get-replace :
      (t : Dict V) (k j : String) (v : V)
      → Dict.get (replace t k v) j ≡ (if k == j then some v else Dict.get t j)
  unfolding replace
  get-replace t k j v = ground (arith, Dict.get-put (Dict.remove t k) k j v, Dict.get-remove t k j)

  pub replace-Distinct :
      (t : Dict V) (k : String) (v : V) → Dict.Distinct t → Dict.Distinct (replace t k v)
  unfolding replace
  replace-Distinct t k v d = Dict.put-Distinct (Dict.remove t k) k v (Dict.remove-Distinct t k d)

  remove_absent : (t : Dict V) (k : String) → Dict.get t k ≡ none → Dict.remove t k ≡ t
  unfolding Dict.remove Dict.get
  remove_absent [] k h = refl
  remove_absent ((j, w) ∷ t) k h = elim (Bool-cases (j == k)) [
    | inl e ↦ absurd (cc (rw e at h))
    | inr e ↦ rw e (ap (λ (l : Dict V). (j, w) ∷ l) (remove_absent t k (rw e at h)))
  ]

  pub replace_absent :
      (t : Dict V) (k : String) (v : V) → Dict.get t k ≡ none → replace t k v ≡ Dict.put t k v
  unfolding replace
  replace_absent t k v h = ap (λ (u : Dict V). Dict.put u k v) (remove_absent t k h)

  -- a query that every row passes
  pub select_all :
      (p : V → Bool) (t : Dict V)
      → Dict.Distinct t
      → ((k : String) (v : V) → Dict.get t k ≡ some v → p v ≡ true)
      → select (λ e. p e.1) t ≡ t
  unfolding Dict.get
  select_all p [] d h = refl
  select_all p ((j, v) ∷ t) d h = rw (h j v (rw (eq_refl j) refl)) (
      ap (λ (l : Dict V). (j, v) ∷ l)
        (select_all p t d.1 (λ k w got. elim (Bool-cases (j == k)) [
          | inl e ↦ absurd (cc (got, d.0, (eq_iff j k).0 e))
          | inr e ↦ h k w (rw e got)
        ])))

  -- a new key comes last
  pub put_new :
      (t : Dict V) (k : String) (v : V) → Dict.get t k ≡ none → Dict.put t k v ≡ t ++ (k, v) ∷ []
  unfolding Dict.put Dict.get
  put_new [] k v h = refl
  put_new ((j, w) ∷ t) k v h = elim (Bool-cases (j == k)) [
    | inl e ↦ absurd (cc (rw e at h))
    | inr e ↦ rw e (ap (λ (l : Dict V). (j, w) ∷ l) (put_new t k v (rw e at h)))
  ]

pub kept_passes {ℓ} :
    {V : Type ℓ} (p : V → Bool) (o : Option V) (v : V) → kept p o ≡ some v → p v ≡ true
unfolding kept
kept_passes p none v h = cc
kept_passes p (some w) v h = elim (Bool-cases (p w)) [
  | inl e ↦ ap p (sym (some-injective w v (rw e at h))) ∙ e
  | inr e ↦ absurd (cc (rw e at h))
]

-- every value stands under its own identity
abbrev pub IsKeyed {ℓ} : {V : Type ℓ} → (V → String) → Dict V → Type ℓ
IsKeyed {V = V} id t = (k : String) (v : V) → Dict.get t k ≡ some v → id v ≡ k

module _ {ℓ} {V : Type ℓ} (id : V → String) where
  pub put-IsKeyed :
      (t : Dict V) (k : String) (v : V) → id v ≡ k → IsKeyed id t → IsKeyed id (Dict.put t k v)
  put-IsKeyed t k v e keyed = λ j w h. elim (Bool-cases (k == j)) [
    | inl q ↦
        let same : v ≡ w = some-injective v w (sym (Dict.get-put t k j v ∙ rw q refl) ∙ h) in
        ap id (sym same) ∙ e ∙ (eq_iff k j).0 q
    | inr q ↦ keyed j w (sym (Dict.get-put t k j v ∙ rw q refl) ∙ h)
  ]

  pub remove-IsKeyed : (t : Dict V) (k : String) → IsKeyed id t → IsKeyed id (Dict.remove t k)
  remove-IsKeyed t k keyed = λ j w h. elim (Bool-cases (k == j)) [
    | inl q ↦
        let gone : Dict.get (Dict.remove t k) j ≡ none = Dict.get-remove t k j ∙ rw q refl in
        absurd (cc (gone, h))
    | inr q ↦ keyed j w (sym (Dict.get-remove t k j ∙ rw q refl) ∙ h)
  ]

  pub replace-IsKeyed :
      (t : Dict V) (k : String) (v : V) → id v ≡ k → IsKeyed id t → IsKeyed id (replace t k v)
  unfolding replace
  replace-IsKeyed t k v e keyed = put-IsKeyed (Dict.remove t k) k v e (remove-IsKeyed t k keyed)

  tail-IsKeyed :
      (k : String) (v : V) (t : Dict V)
      → Dict.get t k ≡ none
      → IsKeyed id ((k, v) ∷ t)
      → IsKeyed id t
  unfolding Dict.get
  tail-IsKeyed k v t gone keyed = λ j w h. elim (Bool-cases (k == j)) [
    | inl q ↦ absurd (cc (h, gone, (eq_iff k j).0 q))
    | inr q ↦ keyed j w (rw q h)
  ]

  load_onto :
      (t d : Dict V)
      → Dict.Distinct t
      → IsKeyed id t
      → ((k : String) (v : V) → Dict.get t k ≡ some v → Dict.get d k ≡ none)
      → load id t d ≡ d ++ t
  unfolding load Dict.get
  load_onto [] d _ _ _ = sym (append-nil d)
  load_onto ((k, v) ∷ t) d distinct keyed new =
      let own : id v ≡ k = keyed k v (rw (eq_refl k) refl) in
      let gone : Dict.get d k ≡ none = new k v (rw (eq_refl k) refl) in
      let rest =
        load_onto t (Dict.put d k v) distinct.1 (tail-IsKeyed k v t distinct.0 keyed) (λ j w h.
          elim (Bool-cases (k == j)) [
            | inl q ↦ absurd (cc (h, distinct.0, (eq_iff k j).0 q))
            | inr q ↦ Dict.get-put d k j v ∙ rw q (new j w (rw q h))
          ]) in
      ap (λ (i : String). load id t (Dict.put d i v)) own
      ∙ rest
      ∙ ap (λ (l : Dict V). l ++ t) (put_new d k v gone)
      ∙ append_assoc d ((k, v) ∷ []) t

  -- Loading the rows of a table gives the table.
  pub load_all : (t : Dict V) → Dict.Distinct t → IsKeyed id t → load id t [] ≡ t
  unfolding Dict.get
  load_all t d keyed = load_onto t [] d keyed (λ k v h. refl)
