-- ===== src/Version/Order.antt =====
-- The order of versions (`__lt__` of kernel/version.py).
use terminal_agent.Base.{
  ℕ, ◌≡◌, ◌≢◌, ◌⊎◌, ◌∙◌, refl, sym, ap, Bool, true, false, not, ◌&&◌, Option, none, some, List, [],
  ◌∷◌, arith, ltb, nat_eq, nat_eq_iff, Bool-cases, inl, inr, if◌then◌else◌,
}
use terminal_agent.Version.{SemanticVersion, text_lt, lt}

text_lt_irrefl : (s : List ℕ) → text_lt s s ≡ false
unfolding text_lt
text_lt_irrefl [] = refl
text_lt_irrefl (c ∷ s) = ground (arith, text_lt_irrefl s)

text_lt_trans : (s t u : List ℕ) → text_lt s t ≡ true → text_lt t u ≡ true → text_lt s u ≡ true
unfolding text_lt
text_lt_trans s [] u h k = absurd (cc h)
text_lt_trans s (d ∷ t) [] h k = absurd (cc k)
text_lt_trans [] (d ∷ t) (e ∷ u) h k = refl
text_lt_trans (c ∷ s) (d ∷ t) (e ∷ u) h k = ground (arith, text_lt_trans s t u)

nat_of : (a b : ℕ) → nat_eq a b ≡ true → a ≡ b
nat_of a b h = (nat_eq_iff a b).0 h

text_lt_total : (s t : List ℕ) → (text_lt s t ≡ true) ⊎ (s ≡ t) ⊎ (text_lt t s ≡ true)
unfolding text_lt
text_lt_total [] [] = inr (inl refl)
text_lt_total [] (d ∷ t) = inl refl
text_lt_total (c ∷ s) [] = inr (inr refl)
text_lt_total (c ∷ s) (d ∷ t) = elim (text_lt_total s t) [
  | inl h ↦ elim (Bool-cases (nat_eq c d)) [
    | inl e ↦ inl (ground arith)
    | inr e ↦ elim (Bool-cases (ltb c d)) [
      | inl l ↦ inl (ground arith)
      | inr l ↦ inr (inr (ground arith))
    ]
  ]
  | inr (inl h) ↦ elim (Bool-cases (nat_eq c d)) [
    | inl e ↦ inr (inl (λ i. nat_of c d e i ∷ h i))
    | inr e ↦ elim (Bool-cases (ltb c d)) [
      | inl l ↦ inl (ground arith)
      | inr l ↦ inr (inr (ground arith))
    ]
  ]
  | inr (inr h) ↦ elim (Bool-cases (nat_eq c d)) [
    | inl e ↦ inr (inr (ground arith))
    | inr e ↦ elim (Bool-cases (ltb c d)) [
      | inl l ↦ inl (ground arith)
      | inr l ↦ inr (inr (ground arith))
    ]
  ]
]

-- one component, and the rest if it is equal
abbrev lex : ℕ → ℕ → Bool → Bool
lex a b rest = if not (nat_eq a b) then ltb a b else rest

lex_irrefl : (a : ℕ) (r : Bool) → r ≡ false → lex a a r ≡ false
lex_irrefl a r h = ground arith

lex_trans :
    (a b c : ℕ) (r s t : Bool)
    → (r ≡ true → s ≡ true → t ≡ true)
    → lex a b r ≡ true
    → lex b c s ≡ true
    → lex a c t ≡ true
lex_trans a b c r s t f h k = ground arith

-- what one of the two comparisons or the equality says of the rest
lex_total :
    (a b : ℕ) (r s : Bool) {E : Type 0}
    → (r ≡ true) ⊎ E ⊎ (s ≡ true)
    → (lex a b r ≡ true) ⊎ ((a ≡ b) × E) ⊎ (lex b a s ≡ true)
lex_total a b r s h = elim (Bool-cases (nat_eq a b)) [
  | inl e ↦ elim h [
    | inl x ↦ inl (ground arith)
    | inr (inl x) ↦ inr (inl (nat_of a b e, x))
    | inr (inr x) ↦ inr (inr (ground arith))
  ]
  | inr e ↦ elim (Bool-cases (ltb a b)) [
    | inl l ↦ inl (ground arith)
    | inr l ↦ inr (inr (ground arith))
  ]
]

abbrev has_text : Option (List ℕ) → Bool
has_text o = elim o [ none ↦ false | some [] ↦ false | some (c ∷ p) ↦ true ]

abbrev text_of : Option (List ℕ) → List ℕ
text_of o = elim o [ none ↦ [] | some p ↦ p ]

-- the last component
abbrev tag_lt : Option (List ℕ) → Option (List ℕ) → Bool
tag_lt p q =
    if has_text p && not (has_text q)
    then true
    else if not (has_text p) && has_text q
    then false
    else text_lt (text_of p) (text_of q)

tag_lt_irrefl : (p : Option (List ℕ)) → tag_lt p p ≡ false
tag_lt_irrefl none = text_lt_irrefl []
tag_lt_irrefl (some []) = text_lt_irrefl []
tag_lt_irrefl (some (c ∷ p)) = text_lt_irrefl (c ∷ p)

-- the same on the tests alone
abbrev tag : Bool → Bool → Bool → Bool
tag a b rest = if a && not b then true else if not a && b then false else rest

tag_trans :
    (a b c r s t : Bool)
    → (r ≡ true → s ≡ true → t ≡ true)
    → tag a b r ≡ true
    → tag b c s ≡ true
    → tag a c t ≡ true
tag_trans a b c r s t f h k = ground arith

tag_lt_trans : (p q r : Option (List ℕ)) → tag_lt p q ≡ true → tag_lt q r ≡ true → tag_lt p r ≡ true
tag_lt_trans p q r h k =
    tag_trans (has_text p) (has_text q) (has_text r) _ _ _
      (text_lt_trans (text_of p) (text_of q) (text_of r)) h k

-- a version as `parse` makes it: a prerelease is not empty
abbrev pub IsProper : SemanticVersion → Type 0
IsProper v = v.prerelease ≢ some []

tag_lt_total :
    (p q : Option (List ℕ))
    → p ≢ some []
    → q ≢ some []
    → (tag_lt p q ≡ true) ⊎ (p ≡ q) ⊎ (tag_lt q p ≡ true)
tag_lt_total none none hp hq = inr (inl refl)
tag_lt_total none (some []) hp hq = absurd (hq refl)
tag_lt_total none (some (d ∷ q)) hp hq = inr (inr refl)
tag_lt_total (some []) q hp hq = absurd (hp refl)
tag_lt_total (some (c ∷ p)) none hp hq = inl refl
tag_lt_total (some (c ∷ p)) (some []) hp hq = absurd (hq refl)
tag_lt_total (some (c ∷ p)) (some (d ∷ q)) hp hq = elim (text_lt_total (c ∷ p) (d ∷ q)) [
  | inl x ↦ inl x
  | inr (inl x) ↦ inr (inl (ap some x))
  | inr (inr x) ↦ inr (inr x)
]

-- The order of versions is strict: no version is below itself, it is transitive, and of two
-- versions whose prereleases, if any, are not empty, one is below the other or they are equal.
pub lt-IsStrictOrder :
    (u v w : SemanticVersion)
    → IsProper u
    → IsProper v
    → (lt u u ≡ false)
      × (lt u v ≡ true → lt v w ≡ true → lt u w ≡ true)
      × ((lt u v ≡ true) ⊎ (u ≡ v) ⊎ (lt v u ≡ true))
unfolding lt
lt-IsStrictOrder u v w hu hv = (
  lex_irrefl u.major _ (lex_irrefl u.minor _ (lex_irrefl u.patch _ (tag_lt_irrefl u.prerelease))),
  lex_trans u.major v.major w.major _ _ _ (
      lex_trans u.minor v.minor w.minor _ _ _ (
        lex_trans u.patch v.patch w.patch _ _ _
          (tag_lt_trans u.prerelease v.prerelease w.prerelease))),
  elim (lex_total u.major v.major _ _ (
      lex_total u.minor v.minor _ _
        (lex_total u.patch v.patch _ _ (tag_lt_total u.prerelease v.prerelease hu hv)))) [
          | inl x ↦ inl x
          | inr (inl e) ↦ inr (
              inl (λ i. record {
                major = e.0 i;
                minor = e.1.0 i;
                patch = e.1.1.0 i;
                prerelease = e.1.1.1 i;
              }))
          | inr (inr x) ↦ inr (inr x)
        ],
)

-- the negated order is transitive too
text_ge_trans : (s t u : List ℕ) → text_lt t s ≡ false → text_lt u t ≡ false → text_lt u s ≡ false
unfolding text_lt
text_ge_trans [] t u h k = refl
text_ge_trans (c ∷ s) [] u h k = absurd (cc h)
text_ge_trans (c ∷ s) (d ∷ t) [] h k = absurd (cc k)
text_ge_trans (c ∷ s) (d ∷ t) (e ∷ u) h k = ground (arith, text_ge_trans s t u)

tag_ge_trans :
    (a b c r s t : Bool)
    → (r ≡ false → s ≡ false → t ≡ false)
    → tag b a r ≡ false
    → tag c b s ≡ false
    → tag c a t ≡ false
tag_ge_trans a b c r s t f h k = ground arith

lex_ge_trans :
    (a b c : ℕ) (r s t : Bool)
    → (r ≡ false → s ≡ false → t ≡ false)
    → lex b a r ≡ false
    → lex c b s ≡ false
    → lex c a t ≡ false
lex_ge_trans a b c r s t f h k = ground arith

tag_lt_ge_trans :
    (p q r : Option (List ℕ)) → tag_lt q p ≡ false → tag_lt r q ≡ false → tag_lt r p ≡ false
tag_lt_ge_trans p q r h k =
    tag_ge_trans (has_text p) (has_text q) (has_text r) _ _ _
      (text_ge_trans (text_of p) (text_of q) (text_of r)) h k

pub ge_trans : (u v w : SemanticVersion) → lt v u ≡ false → lt w v ≡ false → lt w u ≡ false
unfolding lt
ge_trans u v w = lex_ge_trans u.major v.major w.major _ _ _ (
    lex_ge_trans u.minor v.minor w.minor _ _ _ (
      lex_ge_trans u.patch v.patch w.patch _ _ _
        (tag_lt_ge_trans u.prerelease v.prerelease w.prerelease)))

pub lt_asym : (u v : SemanticVersion) → lt u v ≡ true → lt v u ≡ false
unfolding lt
lt_asym u v h = elim (Bool-cases (lt v u)) [
  | inl q ↦
      let both : lt u u ≡ true =
        lex_trans u.major v.major u.major _ _ _
          (lex_trans u.minor v.minor u.minor _ _ _ (
            lex_trans u.patch v.patch u.patch _ _ _
              (tag_lt_trans u.prerelease v.prerelease u.prerelease)))
          h q in
      let neither : lt u u ≡ false =
        lex_irrefl u.major _
          (lex_irrefl u.minor _ (lex_irrefl u.patch _ (tag_lt_irrefl u.prerelease))) in
      absurd (cc (sym both ∙ neither))
  | inr q ↦ q
]
