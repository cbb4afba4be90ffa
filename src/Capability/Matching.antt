-- ===== src/Capability/Matching.antt =====
-- What a capability covers: `Capability.matches` against its meaning (kernel/capabilities.py).
use terminal_agent.Base.{
  ℕ, String, ◌≡◌, ◌↔◌, sym, ap, ◌∙◌, true, List, [], ◌∷◌, ◌++◌, ◌==◌, eq_iff, arith, eq_refl, codes,
  starts_with, starts_with_sound, starts_with-append, ends_with, ends_with_sound, ends_with-append,
  drop_last, drop_last-append, Bool-cases, inl, inr,
}
use mathlib.Core.List.{append_assoc}
use terminal_agent.Capability.{Capability, pattern_matches, matches}

-- A pattern covers everything, or the names that begin with what stands before its final star, or
-- itself.
pub data Covers (sep : ℕ) (pattern wanted : String) : Type 0 where
  anything : pattern ≡ "*" → Covers sep pattern wanted
  family :
      (stem rest : List ℕ)
      → codes pattern ≡ stem ++ sep ∷ b'*' ∷ []
      → codes wanted ≡ stem ++ sep ∷ rest
      → Covers sep pattern wanted
  exact : pattern ≡ wanted → Covers sep pattern wanted

module _ (sep : ℕ) (pattern wanted : String) where
  family_of_prefix :
      ends_with (codes pattern) (sep ∷ b'*' ∷ []) ≡ true
      → starts_with (codes wanted) (drop_last (codes pattern)) ≡ true
      → Covers sep pattern wanted
  family_of_prefix e s =
      let (stem, p) = ends_with_sound (codes pattern) (sep ∷ b'*' ∷ []) e in
      let (rest, w) = starts_with_sound (codes wanted) (drop_last (codes pattern)) s in
      family stem rest p (
        w
        ∙ ap (λ t. drop_last t ++ rest) p
        ∙ ap (λ t. t ++ rest) (drop_last-append stem sep b'*')
        ∙ append_assoc stem (sep ∷ []) rest)

  prefix_of_family :
      (stem rest : List ℕ)
      → codes pattern ≡ stem ++ sep ∷ b'*' ∷ []
      → codes wanted ≡ stem ++ sep ∷ rest
      → pattern_matches sep pattern wanted ≡ true
  unfolding pattern_matches
  prefix_of_family stem rest p w = elim (Bool-cases (pattern == "*")) [
    | inl e ↦ rw e
    | inr e ↦
        rw (e, p, ends_with-append, drop_last-append, w, ← append_assoc stem (sep ∷ []) rest)
          (starts_with-append (stem ++ sep ∷ []) rest)
  ]

  pattern_matches_sound : pattern_matches sep pattern wanted ≡ true → Covers sep pattern wanted
  unfolding pattern_matches
  pattern_matches_sound h = elim (Bool-cases (pattern == "*")) [
    | inl e ↦ anything ((eq_iff pattern "*").0 e)
    | inr n ↦ elim (Bool-cases (ends_with (codes pattern) (sep ∷ b'*' ∷ []))) [
      | inl e ↦ family_of_prefix e (rw (n, e) at h)
      | inr m ↦ exact ((eq_iff pattern wanted).0 (rw (n, m) at h))
    ]
  ]

  exact_matches : pattern ≡ wanted → pattern_matches sep pattern wanted ≡ true
  unfolding pattern_matches
  exact_matches q = elim (Bool-cases (ends_with (codes pattern) (sep ∷ b'*' ∷ []))) [
    | inl e ↦
        let (stem, p) = ends_with_sound (codes pattern) (sep ∷ b'*' ∷ []) e in
        prefix_of_family stem (b'*' ∷ []) p (ap codes (sym q) ∙ p)
    | inr m ↦ ground (arith, m, eq_iff pattern wanted)
  ]

  pub pattern_matches_iff : (pattern_matches sep pattern wanted ≡ true) ↔ Covers sep pattern wanted
  pattern_matches_iff = (pattern_matches_sound, complete)
    where
      complete : Covers sep pattern wanted → pattern_matches sep pattern wanted ≡ true
      complete (anything e) = unfold pattern_matches in rw (e, eq_refl "*")
      complete (family stem rest p w) = prefix_of_family stem rest p w
      complete (exact e) = exact_matches e

-- A capability matches an operation on a resource exactly when its operation pattern covers the
-- operation, with "." before a final star, and its resource pattern the resource, with ":".
pub matches_iff :
    (c : Capability) (operation resource : String)
    → (matches c operation resource ≡ true)
      ↔ (Covers b'.' c.operation operation × Covers b':' c.resource resource)
unfolding matches
matches_iff c operation resource =
    let (op_sound, op_complete) = pattern_matches_iff b'.' c.operation operation in
    let (res_sound, res_complete) = pattern_matches_iff b':' c.resource resource in
    (
      (λ h. (op_sound (ground arith), res_sound (ground arith))),
      (λ h. ground (arith, op_complete h.0, res_complete h.1)),
    )
